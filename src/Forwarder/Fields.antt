-- ===== src/Forwarder/Fields.antt =====
-- What a header block is, and which of its lines src/response_forwarder.c replaces: descriptions that
-- do not refer to its loop.
use concurrent_http_proxy_se.Base.{
  ℕ, ◌≤◌, ◌≡◌, ◌≢◌, ◌↔◌, refl, sym, ap, ◌∙◌, subst, arith, inl, inr, ◌==◌, ==_iff, if◌then◌else◌,
  Bool, true, false, ◌&&◌, ◌||◌, Option, none, some, List, [], ◌∷◌, ◌++◌, map, mem, mem-append,
  length, length-append, append-nil, and_both, or_either, cons_injective, first_split,
}
use concurrent_http_proxy_se.Bytes.{Bytes, codes}
use concurrent_http_proxy_se.Forwarder.{
  lower, lower_eq, header_name_equals, should_skip, split_line,
}
use concurrent_http_proxy_se.Parser.{split_at}
use concurrent_http_proxy_se.Parser.Parts.{split_at_lem, split_at-none}

-- Host, Connection and Proxy-Connection, up to the case of the letters.
pub data IsReplacedName (name : Bytes) : Type 0 where
  host : map lower name ≡ codes "host" → IsReplacedName name
  connection : map lower name ≡ codes "connection" → IsReplacedName name
  proxy_connection : map lower name ≡ codes "proxy-connection" → IsReplacedName name

-- A line whose name, up to the first colon, is one of the three.
abbrev pub IsReplaced : Bytes → Type 0
IsReplaced line =
    (name value : Bytes) × (line ≡ name ++ (58 ∷ value))
    × (mem 58 name ≡ false)
    × IsReplacedName name

-- The second list is the first without the lines that the proxy replaces.
pub data IsKept : List Bytes → List Bytes → Type 0 where
  nothing : IsKept [] []
  keeps :
      {line : Bytes} {lines left : List Bytes}
      → ¬ IsReplaced line
      → IsKept lines left
      → IsKept (line ∷ lines) (line ∷ left)
  leaves_out :
      {line : Bytes} {lines left : List Bytes}
      → IsReplaced line
      → IsKept lines left
      → IsKept (line ∷ lines) left

-- No CR LF in a line.
abbrev pub IsUnbroken : Bytes → Type 0
IsUnbroken line = (a b : Bytes) → line ≢ a ++ (13 ∷ 10 ∷ b)

-- The lines of a text up to the first empty one, each but the last ended by CR LF.
pub data IsHeader : Bytes → List Bytes → Type 0 where
  at_end : IsHeader [] []
  at_blank : {rest : Bytes} → IsHeader (13 ∷ 10 ∷ rest) []
  last_line : {line : Bytes} → line ≢ [] → IsUnbroken line → IsHeader line (line ∷ [])
  next_line :
      {line rest : Bytes} {lines : List Bytes}
      → line ≢ []
      → IsUnbroken line
      → IsHeader rest lines
      → IsHeader (line ++ (13 ∷ 10 ∷ rest)) (line ∷ lines)

and_lem :
    (x y : ℕ) (t : Bool) {xs ys : Bytes}
    → ((t ≡ true) ↔ (xs ≡ ys))
    → (((x == y) && t) ≡ true) ↔ (x ∷ xs ≡ y ∷ ys)
and_lem x y t i =
    (λ e. ground (arith, i.0, e), λ e. let (a, b) = cons_injective e in ground (arith, a, i.1 b))

lower_eq_iff : (a b : Bytes) → (lower_eq a b ≡ true) ↔ (map lower a ≡ map lower b)
unfolding lower_eq
lower_eq_iff [] [] = (λ e. refl, λ e. refl)
lower_eq_iff [] (y ∷ ys) = (λ e. absurd (cc e), λ e. absurd (cc e))
lower_eq_iff (x ∷ xs) [] = (λ e. absurd (cc e), λ e. absurd (cc e))
lower_eq_iff (x ∷ xs) (y ∷ ys) = and_lem (lower x) (lower y) (lower_eq xs ys) (lower_eq_iff xs ys)

length-lower : (a : Bytes) → length (map lower a) ≡ length a
length-lower [] = refl
length-lower (x ∷ a) = omega (arith, length-lower a)

name_iff :
    (name expected : Bytes)
    → (header_name_equals name expected ≡ true) ↔ (map lower name ≡ map lower expected)
unfolding header_name_equals
name_iff name expected = (
  λ e. (lower_eq_iff name expected).0 (ground (arith, e)),
  λ e. ground (
    arith,
    (lower_eq_iff name expected).1 e,
    ap length e,
    length-lower name,
    length-lower expected,
  ),
)

abbrev is_host : Bytes → Bool
is_host name = header_name_equals name (codes "host")

abbrev is_connection : Bytes → Bool
is_connection name = header_name_equals name (codes "connection")

abbrev is_proxy_connection : Bytes → Bool
is_proxy_connection name = header_name_equals name (codes "proxy-connection")

names_iff :
    (name : Bytes)
    → ((is_host name || is_connection name || is_proxy_connection name) ≡ true)
      ↔ IsReplacedName name
names_iff name = (
  λ e. elim (or_either (is_host name || is_connection name) (is_proxy_connection name) e) [
    | inl first ↦ elim (or_either (is_host name) (is_connection name) first) [
      | inl h ↦ host ((name_iff name (codes "host")).0 h)
      | inr h ↦ connection ((name_iff name (codes "connection")).0 h)
    ]
    | inr h ↦ proxy_connection ((name_iff name (codes "proxy-connection")).0 h)
  ],
  found,
)
  where
    found :
        IsReplacedName name
        → (is_host name || is_connection name || is_proxy_connection name) ≡ true
    found (host e) = ground (arith, (name_iff name (codes "host")).1 e)
    found (connection e) = ground (arith, (name_iff name (codes "connection")).1 e)
    found (proxy_connection e) = ground (arith, (name_iff name (codes "proxy-connection")).1 e)

pub should_skip_iff : (line : Bytes) → (should_skip line ≡ true) ↔ IsReplaced line
unfolding should_skip
should_skip_iff line = by_colon (split_at 58 line) refl
  where
    tested : Bytes → Bool
    tested name = is_host name || is_connection name || is_proxy_connection name

    by_colon :
        (o : Option (Bytes × Bytes))
        → split_at 58 line ≡ o
        → ((elim o [ none ↦ false | some (name, rest) ↦ tested name ]) ≡ true) ↔ IsReplaced line
    by_colon none e = (
      λ t. absurd (cc t),
      λ (name, value, is, clean, listed). absurd (
          ground (arith, split_at-none 58 line e, ap (mem 58) is, mem-append 58 name (58 ∷ value))),
    )
    by_colon (some (before, after)) e =
        let (whole, clean) = split_at_lem 58 line before after e in
        (
          λ t. (before, after, whole, clean, (names_iff before).0 t),
          λ (name, value, is, no_colon, listed). (names_iff before).1 (
              subst IsReplacedName
                (sym (first_split 58 before name after value clean no_colon (sym whole ∙ is)).0)
                listed),
        )

-- The first line of a text, and what is behind its break.
abbrev IsFirst : Bytes → Bytes × Option Bytes → Type 0
IsFirst s (line, none) = (s ≡ line) × IsUnbroken line
IsFirst s (line, some more) = (s ≡ line ++ (13 ∷ 10 ∷ more)) × IsUnbroken line

empty-IsUnbroken : IsUnbroken []
empty-IsUnbroken [] b e = absurd (cc e)
empty-IsUnbroken (z ∷ a) b e = absurd (cc e)

one-IsUnbroken : (x : ℕ) → IsUnbroken (x ∷ [])
one-IsUnbroken x [] b e = absurd (cc (cons_injective e).1)
one-IsUnbroken x (z ∷ a) b e = empty-IsUnbroken a b (cons_injective e).1

-- A byte in front makes no break unless it is a CR before an LF.
cons-IsUnbroken :
    (x y : ℕ) (line rest xs : Bytes)
    → ((x == 13) && (y == 10)) ≡ false
    → y ∷ xs ≡ line ++ rest
    → IsUnbroken line
    → IsUnbroken (x ∷ line)
cons-IsUnbroken x y line rest xs t whole h [] b e =
    let (cr, tail) = cons_injective e in
    let (lf, more) = cons_injective (whole ∙ ap (λ l. l ++ rest) tail) in
    absurd (ground (arith, t, cr, lf))
cons-IsUnbroken x y line rest xs t whole h (z ∷ a) b e = h a b (cons_injective e).1

split_line-IsFirst : (s : Bytes) → IsFirst s (split_line s)
unfolding split_line
split_line-IsFirst [] = (refl, empty-IsUnbroken)
split_line-IsFirst (x ∷ []) = (refl, one-IsUnbroken x)
split_line-IsFirst (x ∷ y ∷ xs) =
    by_test ((x == 13) && (y == 10)) refl (split_line (y ∷ xs)) (split_line-IsFirst (y ∷ xs))
  where
    by_test :
        (b : Bool)
        → ((x == 13) && (y == 10)) ≡ b
        → (r : Bytes × Option Bytes) → IsFirst (y ∷ xs) r
        → IsFirst
            (x ∷ y ∷ xs)
            (if◌then◌else◌ {A = Bytes × Option Bytes} b ([], some xs) (x ∷ r.0, r.1))
    by_test true e r h =
        let (cr, lf) = and_both (x == 13) (y == 10) e in
        (cc ((==_iff x 13).0 cr, (==_iff y 10).0 lf), empty-IsUnbroken)
    by_test false e (line, none) (whole, clean) =
        (ap (◌∷◌ x) whole, cons-IsUnbroken x y line [] xs e (whole ∙ sym (append-nil line)) clean)
    by_test false e (line, some more) (whole, clean) =
        (ap (◌∷◌ x) whole, cons-IsUnbroken x y line (13 ∷ 10 ∷ more) xs e whole clean)

-- The first line and what comes behind it.
pub first-IsHeader :
    (x : ℕ) (xs : Bytes) (after : Bytes → List Bytes)
    → ((more : Bytes) → length more ≤ length xs → IsHeader more (after more))
    → IsHeader (x ∷ xs) (elim (length (split_line (x ∷ xs)).0 == 0) [
      | true ↦ []
      | false ↦
          (split_line (x ∷ xs)).0
          ∷ elim (split_line (x ∷ xs)).1 [ none ↦ [] | some more ↦ after more ]
    ])
first-IsHeader x xs after ih =
    by_length (length (split_line (x ∷ xs)).0 == 0) (split_line (x ∷ xs)) refl
      (split_line-IsFirst (x ∷ xs))
  where
    by_length :
        (b : Bool) (r : Bytes × Option Bytes)
        → (length r.0 == 0) ≡ b
        → IsFirst (x ∷ xs) r
        → IsHeader
            (x ∷ xs)
            (elim b [ true ↦ [] | false ↦ r.0 ∷ elim r.1 [ none ↦ [] | some more ↦ after more ] ])
    by_length true ([], none) e (whole, clean) = absurd (cc whole)
    by_length true ([], some more) e (whole, clean) =
        subst (λ s. IsHeader s []) (sym whole) at_blank
    by_length true (y ∷ line, rest) e h = absurd (ground (arith, e))
    by_length false ([], rest) e h = absurd (ground (arith, e))
    by_length false (y ∷ line, none) e (whole, clean) =
        subst (λ s. IsHeader s ((y ∷ line) ∷ [])) (sym whole) (last_line (λ e. absurd (cc e)) clean)
    by_length false (y ∷ line, some more) e (whole, clean) =
        subst (λ s. IsHeader s ((y ∷ line) ∷ after more)) (sym whole)
          (next_line (λ e. absurd (cc e)) clean
            (ih more (omega (arith, ap length whole, length-append (y ∷ line) (13 ∷ 10 ∷ more)))))
