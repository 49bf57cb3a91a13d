-- ===== src/Cache/Chain.antt =====
-- The buckets of src/cache.c: a bucket is a singly linked chain of entries.
use concurrent_http_proxy_se.Base.{
  ℕ, zero, suc, ◌<◌, ◌≤◌, ◌≡◌, ap, ◌≢◌, none, some, List, [], All, ◌∷◌, ◌++◌, true, arith, Ptr,
  update, length, length-append, mem, mem-append, mem_split, NotIn, NotIn→mem, Nodup,
}
use concurrent_http_proxy_se.Bytes.{Bytes, bytes_eq_iff, eq_of_bytes_eq}
use concurrent_http_proxy_se.Cache.{Cache, find_from, relink_bucket, unlink_from}
use concurrent_http_proxy_se.Lru.Segment.{last}

-- From `p` the `bucket_next` pointers lead through `l` to NULL.
abbrev pub Chain : (ℕ → Ptr) → Ptr → List ℕ → Type 0
Chain next p [] = p ≡ none
Chain next p (x ∷ l) = (p ≡ some x) × Chain next (next x) l

pub Chain-out :
    (next : ℕ → Ptr) (q : ℕ) (v : Ptr) (p : Ptr) (l : List ℕ)
    → NotIn q l
    → Chain next p l
    → Chain (update next q v) p l
Chain-out next q v p [] out h = h
Chain-out next q v p (x ∷ l) out h =
    let skip : update next q v x ≡ next x = ground arith in
    (h.0, rw skip (Chain-out next q v (next x) l out.1 h.1))

-- Without its first entry.
pub Chain-tail :
    (next : ℕ → Ptr) (s : Ptr) (p : ℕ) (vs : List ℕ)
    → Chain next s (p ∷ vs)
    → Chain next (next p) vs
Chain-tail next s p vs h = h.1

-- Without an entry behind `z`: the pointer of `z` skips it.
pub Chain-skip :
    (next : ℕ → Ptr) (s : Ptr) (us : List ℕ) (z p : ℕ) (vs : List ℕ)
    → Nodup (us ++ z ∷ p ∷ vs)
    → Chain next s (us ++ z ∷ p ∷ vs)
    → Chain (update next z (next p)) s (us ++ z ∷ vs)
Chain-skip next s [] z p vs nd h =
    let hit : update next z (next p) z ≡ next p = ground arith in
    (h.0, rw hit (Chain-out next z (next p) (next p) vs nd.0.1 h.1.1))
Chain-skip next s (x ∷ us) z p vs nd h =
    let ne : NotIn x (us ++ z ∷ p ∷ vs) = nd.0 in
    let skip : update next z (next p) x ≡ next x =
      ground (arith, NotIn→mem x _ ne, mem-append x us (z ∷ p ∷ vs)) in
    (h.0, rw skip (Chain-skip next (next x) us z p vs nd.1 h.1))

-- The loop of cache_remove_from_bucket_locked reaches the entry and writes to what points at it.
pub unlink_from-relink :
    (fuel : ℕ) (c : Cache) (i p : ℕ) (previous s : Ptr) (us vs : List ℕ)
    → Chain c.bucket_next s (us ++ p ∷ vs)
    → NotIn p us
    → length us < fuel
    → unlink_from fuel c i p previous s ≡ relink_bucket c i (last us previous) (c.bucket_next p)
unfolding unlink_from
unlink_from-relink zero c i p previous s us vs h out fuel = absurd (omega arith)
unlink_from-relink (suc f) c i p previous s [] vs h out fuel = ground arith
unlink_from-relink (suc f) c i p previous s (x ∷ us) vs h out fuel = ground (
  arith,
  h.0,
  unlink_from-relink f c i p (some x) (c.bucket_next x) us vs h.1 out.1 (omega arith),
)

-- The walk of cache_find_entry_locked stops at the first entry with the key.
pub find_from-hit :
    (fuel : ℕ) (c : Cache) (key : Bytes) (s : Ptr) (us : List ℕ) (p : ℕ) (vs : List ℕ)
    → Chain c.bucket_next s (us ++ p ∷ vs)
    → All (λ q. c.key q ≢ key) us
    → c.key p ≡ key
    → length us < fuel
    → find_from fuel c key s ≡ some p
unfolding find_from
find_from-hit zero c key s us p vs h out e fuel = absurd (omega arith)
find_from-hit (suc f) c key s [] p vs h out e fuel =
    ground (arith, h.0, (bytes_eq_iff (c.key p) key).1 e)
find_from-hit (suc f) c key s (x ∷ us) p vs h out e fuel = ground (
  arith,
  h.0,
  eq_of_bytes_eq (c.key x) key,
  find_from-hit f c key (c.bucket_next x) us p vs h.1 out.1 e (omega arith),
)

pub find_from-miss :
    (fuel : ℕ) (c : Cache) (key : Bytes) (s : Ptr) (l : List ℕ)
    → Chain c.bucket_next s l
    → All (λ q. c.key q ≢ key) l
    → find_from fuel c key s ≡ none
unfolding find_from
find_from-miss fuel c key s [] h out = rw h
find_from-miss zero c key s (x ∷ l) h out = rw h.0
find_from-miss (suc f) c key s (x ∷ l) h out =
    ground (
      arith,
      h.0,
      eq_of_bytes_eq (c.key x) key,
      find_from-miss f c key (c.bucket_next x) l h.1 out.1,
    )

-- Distinct addresses that are all on `ys` are at most as many as `ys`.
pub length-le_of_subset :
    (xs ys : List ℕ)
    → Nodup xs
    → ((q : ℕ) → mem q xs ≡ true → mem q ys ≡ true)
    → length xs ≤ length ys
length-le_of_subset [] ys nd sub = omega arith
length-le_of_subset (x ∷ xs) ys nd sub =
    let (us, vs, is) = mem_split x ys (sub x (ground arith)) in
    let rest = length-le_of_subset xs (us ++ vs) nd.1 (λ q h. ground (
      arith,
      sub q,
      ap (mem q) is,
      mem-append q us (x ∷ vs),
      mem-append q us vs,
      NotIn→mem x xs nd.0,
    )) in
    omega (arith, rest, ap length is, length-append us (x ∷ vs), length-append us vs)
