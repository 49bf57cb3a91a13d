-- ===== src/Report/Fields.antt =====
-- The numbers in a printed line are read back from it.
use concurrent_http_proxy_se.Base.{
  ℕ, suc, ◌≡◌, ap, arith, length, append_cancel, first_split, All, mem, false, List, [], ◌∷◌, ◌++◌,
}
use concurrent_http_proxy_se.Bytes.{Bytes}
use concurrent_http_proxy_se.Decimal.{decimal, decimal_injective, mem-decimal}
use concurrent_http_proxy_se.Report.{fields}

-- A label that begins with a space.
abbrev pub IsSpaced : Bytes → Type 0
IsSpaced label = (text : Bytes) × (label ≡ 32 ∷ text)

no_space-decimal : (n : ℕ) → mem 32 (decimal n) ≡ false
no_space-decimal n = mem-decimal 32 n λ d h. ground arith

-- A number up to the space behind it.
pub number_split :
    (n m : ℕ) (a b : Bytes) → decimal n ++ (32 ∷ a) ≡ decimal m ++ (32 ∷ b) → (n ≡ m) × (a ≡ b)
number_split n m a b e =
    let (same, rest) =
      first_split 32 (decimal n) (decimal m) a b (no_space-decimal n) (no_space-decimal m) e in
    (decimal_injective n m same, rest)

-- The numbers agree when the texts do, and so does what follows, if a last number is told from it.
pub fields_injective :
    (label : Bytes) (labels : List Bytes) (ns ms : List ℕ) (a b : Bytes)
    → All IsSpaced labels
    → length ns ≡ suc (length labels)
    → length ms ≡ suc (length labels)
    → ((n m : ℕ) → decimal n ++ a ≡ decimal m ++ b → (n ≡ m) × (a ≡ b))
    → fields (label ∷ labels) ns a ≡ fields (label ∷ labels) ms b
    → (ns ≡ ms) × (a ≡ b)
unfolding fields
fields_injective label labels [] ms a b h i j last e = absurd (omega (arith, i))
fields_injective label labels (n ∷ ns) [] a b h i j last e = absurd (omega (arith, j))
fields_injective label [] (n ∷ []) (m ∷ []) a b h i j last e =
    let (same, rest) = last n m (append_cancel label e) in (ap (λ k. k ∷ []) same, rest)
fields_injective label [] (n ∷ n2 ∷ ns) (m ∷ ms) a b h i j last e = absurd (omega (arith, i))
fields_injective label [] (n ∷ []) (m ∷ m2 ∷ ms) a b h i j last e = absurd (omega (arith, j))
fields_injective label (next ∷ labels) (n ∷ []) (m ∷ ms) a b h i j last e =
    absurd (omega (arith, i))
fields_injective label (next ∷ labels) (n ∷ n2 ∷ ns) (m ∷ []) a b h i j last e =
    absurd (omega (arith, j))
fields_injective label (next ∷ labels) (n ∷ n2 ∷ ns) (m ∷ m2 ∷ ms) a b ((text, spaced), h) i j last
      e =
    let (same, rest) =
      number_split n m (text ++ (decimal n2 ++ fields labels ns a))
        (text ++ (decimal m2 ++ fields labels ms b)) (cc (append_cancel label e, spaced)) in
    let (others, end) =
      fields_injective next labels (n2 ∷ ns) (m2 ∷ ms) a b h (omega (arith, i)) (omega (arith, j))
        last (cc (rest, spaced)) in
    (cc (same, others), end)
