-- ===== src/Cache/Spec.antt =====
-- What the cache of src/cache.c promises: a list of keys with their data, the most recently used
-- first, that fits the size limit.
use concurrent_http_proxy_se.Base.{
  ℕ, suc, ◌+◌, ◌-◌, ◌≤◌, ◌≡◌, ◌≢◌, refl, ap, Option, none, some, List, [], ◌∷◌, ◌++◌, Bool, true,
  arith, ltb, leb, if◌then◌else◌, ◌⊎◌, inl, inr, Bool-cases, length, All, mem,
}
use concurrent_http_proxy_se.Bytes.{Bytes, bytes_eq, bytes_eq_iff, eq_of_bytes_eq}
use concurrent_http_proxy_se.Cache.{Cache}
use concurrent_http_proxy_se.Cache.Evict.{keep}
use concurrent_http_proxy_se.Cache.Invariant.{IsEntry, IsCache, contents, sum_sizes}

abbrev pub Contents : Type 0
Contents = List (Bytes × Bytes)

unfoldable pub lookup : Bytes → Contents → Option Bytes
lookup key [] = none
lookup key ((k, v) ∷ m) = if bytes_eq k key then some v else lookup key m

unfoldable pub remove : Bytes → Contents → Contents
remove key [] = []
remove key ((k, v) ∷ m) = if bytes_eq k key then remove key m else (k, v) ∷ remove key m

-- The longest run from the front whose data fits the budget.
unfoldable pub trim : ℕ → Contents → Contents
trim budget [] = []
trim budget ((k, v) ∷ m) = if leb (length v) budget then (k, v) ∷ trim (budget - length v) m else []

-- The bytes that the data takes.
unfoldable pub weight : Contents → ℕ
weight [] = 0
weight ((k, v) ∷ m) = length v + weight m

-- A key that is found moves to the front.
touch_found : Bytes → Contents → Option Bytes → Contents
touch_found key m none = m
touch_found key m (some v) = (key, v) ∷ remove key m

unfoldable pub touch : Bytes → Contents → Contents
unfolding touch_found lookup remove
touch key m = touch_found key m (lookup key m)

pub touch-none : (key : Bytes) (m : Contents) → lookup key m ≡ none → touch key m ≡ m
unfolding touch touch_found
touch-none key m e = ap (touch_found key m) e

-- The cache is well formed, has these limits, and holds the contents `m`.
pub record Holds (total object : ℕ) (c : Cache) (m : Contents) : Type 0 where
  pub order : List ℕ
  pub table : IsCache c order
  pub holds : contents c order ≡ m
  pub total_limit : c.max_total_size_bytes ≡ total
  pub object_limit : c.max_object_size_bytes ≡ object

-- No entry of `l` has the key.
abbrev pub Lacks : Cache → Bytes → List ℕ → Type 0
Lacks c key l = All (λ q. c.key q ≢ key) l

-- The entries split at the first one with the key, or none has it.
pub key_cases :
    (c : Cache) (key : Bytes) (l : List ℕ)
    → Lacks c key l
      ⊎ ((xs : List ℕ) × (p : ℕ) × (ys : List ℕ) × (l ≡ xs ++ p ∷ ys)
          × (c.key p ≡ key)
          × Lacks c key xs)
key_cases c key [] = inl tt
key_cases c key (x ∷ l) = elim (Bool-cases (bytes_eq (c.key x) key)) [
  | inl e ↦ inr ([], x, l, refl, eq_of_bytes_eq _ _ e, tt)
  | inr ne ↦
      let differs : c.key x ≢ key = λ h. ground (arith, (bytes_eq_iff (c.key x) key).1 h) in
      elim (key_cases c key l) [
        | inl out ↦ inl (differs, out)
        | inr (xs, p, ys, is, at, out) ↦ inr (x ∷ xs, p, ys, ap (λ t. x ∷ t) is, at, (differs, out))
      ]
]

module _ (c : Cache) (key : Bytes) where
  pub lookup-Lacks : (l : List ℕ) → Lacks c key l → lookup key (contents c l) ≡ none
  unfolding lookup contents
  lookup-Lacks [] h = refl
  lookup-Lacks (x ∷ l) h = ground (arith, eq_of_bytes_eq (c.key x) key, h.0, lookup-Lacks l h.1)

  pub remove-Lacks : (l : List ℕ) → Lacks c key l → remove key (contents c l) ≡ contents c l
  unfolding remove contents
  remove-Lacks [] h = refl
  remove-Lacks (x ∷ l) h = ground (arith, eq_of_bytes_eq (c.key x) key, h.0, remove-Lacks l h.1)

  pub lookup-split :
      (xs : List ℕ) (p : ℕ) (ys : List ℕ)
      → Lacks c key xs
      → c.key p ≡ key
      → lookup key (contents c (xs ++ p ∷ ys)) ≡ some (c.data_of p)
  unfolding lookup contents
  lookup-split [] p ys h e = ground (arith, (bytes_eq_iff (c.key p) key).1 e)
  lookup-split (x ∷ xs) p ys h e =
      ground (arith, eq_of_bytes_eq (c.key x) key, h.0, lookup-split xs p ys h.1 e)

  pub remove-split :
      (xs : List ℕ) (p : ℕ) (ys : List ℕ)
      → Lacks c key xs
      → Lacks c key ys
      → c.key p ≡ key
      → remove key (contents c (xs ++ p ∷ ys)) ≡ contents c (xs ++ ys)
  unfolding remove contents
  remove-split [] p ys hx hy e =
      ground (arith, (bytes_eq_iff (c.key p) key).1 e, remove-Lacks ys hy)
  remove-split (x ∷ xs) p ys hx hy e =
      ground (arith, eq_of_bytes_eq (c.key x) key, hx.0, remove-split xs p ys hx.1 hy e)

-- The list that the eviction keeps holds the trimmed contents.
pub contents-keep :
    (c : Cache) (b : ℕ) (l : List ℕ)
    → ((p : ℕ) → mem p l ≡ true → IsEntry c p)
    → contents c (keep c.size_bytes b l) ≡ trim b (contents c l)
unfolding contents trim keep
contents-keep c b [] h = refl
contents-keep c b (p ∷ l) h = ground (
  arith,
  (h p (ground arith)).exact,
  contents-keep c (b - c.size_bytes p) l (λ q m. h q (ground arith)),
)

pub length-contents : (c : Cache) (l : List ℕ) → length (contents c l) ≡ length l
unfolding contents
length-contents c [] = refl
length-contents c (x ∷ l) = ap suc (length-contents c l)

pub weight-contents :
    (c : Cache) (l : List ℕ)
    → ((p : ℕ) → mem p l ≡ true → IsEntry c p)
    → weight (contents c l) ≡ sum_sizes c.size_bytes l
unfolding contents weight
weight-contents c [] h = refl
weight-contents c (p ∷ l) h =
    ground (arith, (h p (ground arith)).exact, weight-contents c l (λ q m. h q (ground arith)))

-- What is left of the other keys when `size` bytes are put under `key`.
unfoldable pub room : ℕ → Bytes → ℕ → Contents → Contents
unfolding trim remove
room total key size m = trim (total - size) (remove key m)

-- Whether that drops a key.
abbrev pub drops : ℕ → Bytes → ℕ → Contents → Bool
drops total key size m = ltb (length (room total key size m)) (length (remove key m))

-- Where everything fits nothing is dropped.
pub trim_all : (b : ℕ) (m : Contents) → weight m ≤ b → trim b m ≡ m
unfolding trim weight
trim_all b [] h = refl
trim_all b ((k, v) ∷ m) h = ground (arith, trim_all (b - length v) m (omega arith))
