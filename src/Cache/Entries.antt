-- ===== src/Cache/Entries.antt =====
-- A property of every entry of a cache of src/cache.c, under the operations on the contents.
use concurrent_http_proxy_se.Base.{
  ℕ, ◌-◌, ◌≡◌, refl, subst, some, none, Option, [], ◌∷◌, Bool, true, false, leb, if◌then◌else◌,
  length, All, some_injective,
}
use concurrent_http_proxy_se.Bytes.{Bytes, bytes_eq, eq_of_bytes_eq}
use concurrent_http_proxy_se.Cache.Spec.{Contents, lookup, remove, trim, room, touch}

module _ (P : Bytes × Bytes → Type 0) where
  pub All-remove : (key : Bytes) (m : Contents) → All P m → All P (remove key m)
  unfolding remove
  All-remove key [] h = tt
  All-remove key ((k, v) ∷ m) h = by_key (bytes_eq k key) (All-remove key m h.1)
    where
      by_key :
          (b : Bool)
          → All P (remove key m)
          → All P (if b then remove key m else (k, v) ∷ remove key m)
      by_key true rest = rest
      by_key false rest = (h.0, rest)

  All-trim : (budget : ℕ) (m : Contents) → All P m → All P (trim budget m)
  unfolding trim
  All-trim budget [] h = tt
  All-trim budget ((k, v) ∷ m) h =
      by_size (leb (length v) budget) (All-trim (budget - length v) m h.1)
    where
      by_size :
          (b : Bool)
          → All P (trim (budget - length v) m)
          → All P (if b then (k, v) ∷ trim (budget - length v) m else [])
      by_size true rest = (h.0, rest)
      by_size false rest = tt

  pub All-room :
      (total : ℕ) (key : Bytes) (size : ℕ) (m : Contents) → All P m → All P (room total key size m)
  unfolding room
  All-room total key size m h = All-trim (total - size) (remove key m) (All-remove key m h)

  pub All-lookup : (key v : Bytes) (m : Contents) → All P m → lookup key m ≡ some v → P (key, v)
  unfolding lookup
  All-lookup key v [] h e = absurd (cc e)
  All-lookup key v ((k, w) ∷ m) h e = by_key (bytes_eq k key) refl e (All-lookup key v m h.1)
    where
      by_key :
          (b : Bool)
          → bytes_eq k key ≡ b
          → (if b then some w else lookup key m) ≡ some v
          → (lookup key m ≡ some v → P (key, v))
          → P (key, v)
      by_key true at found rest =
          subst (λ u. P (key, u)) (some_injective found)
            (subst (λ u. P (u, w)) (eq_of_bytes_eq k key at) h.0)
      by_key false at found rest = rest found

  pub All-touch : (key : Bytes) (m : Contents) → All P m → All P (touch key m)
  unfolding touch
  All-touch key m h = by_lookup (lookup key m) refl
    where
      by_lookup : (o : Option Bytes) → lookup key m ≡ o → All P (touch key m)
      by_lookup none e = rw e h
      by_lookup (some v) e = rw e (All-lookup key v m h e, All-remove key m h)
