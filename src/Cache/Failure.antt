-- ===== src/Cache/Failure.antt =====
-- cache_put of src/cache.c when an allocation fails.
use mathlib.Core.Path.{fun_ext}
use concurrent_http_proxy_se.Base.{
  ℕ, ◌<◌, ◌≤◌, ◌≡◌, refl, ap, subst, ◌∙◌, Option, none, some, List, [], ◌∷◌, ◌++◌, Bool, true,
  false, ◌&&◌, arith, if◌then◌else◌, ltb, ltb→lt, ltb→ge, failed, length, inl, inr, ◌⊎◌, Bool-cases,
  update, Ptr,
}
use concurrent_http_proxy_se.Bytes.{Bytes}
use concurrent_http_proxy_se.Cache.{
  Cache, put_locked, put, find_entry, new_entry, destroy_entry, replace_entry,
}
use concurrent_http_proxy_se.Cache.Evict.{Evicted}
use concurrent_http_proxy_se.Cache.Get.{Located, absent, present, locate}
use concurrent_http_proxy_se.Cache.Invariant.{IsCache, contents, contents-same}
use concurrent_http_proxy_se.Cache.Put.{allocated, put_locked-put}
use concurrent_http_proxy_se.Cache.Put
use concurrent_http_proxy_se.Cache.Replace
use concurrent_http_proxy_se.Cache.Replace.{
  returned, returned-IsCache, unpinned, replace_entry-grown_failed, replace_entry-shrunk_failed,
}
use concurrent_http_proxy_se.Cache.Rewrite
use concurrent_http_proxy_se.Cache.Rewrite.{Outcome, replace-Outcome}
use concurrent_http_proxy_se.Cache.Spec.{Contents, Holds, Lacks, room, remove, drops, lookup}

-- The allocator gives no block that is in use.
abbrev pub IsUnused : Cache → Ptr → Type 0
IsUnused c none = Unit
IsUnused c (some p) = c.alive p ≡ false

-- Taking a block and giving it back changes nothing.
given_back :
    (c : Cache) (p : ℕ)
    → c.alive p ≡ false
    → destroy_entry (record c { alive = update c.alive p true }) p ≡ c
unfolding destroy_entry
given_back c p fresh = ap (λ f. record c { alive = f }) same
  where
    same : update (update c.alive p true) p false ≡ c.alive
    same = fun_ext λ q. ground (arith, fresh)

-- What a put that gets no memory for its data leaves, by what the key had: room is made for nothing,
-- unless the key has as much data already; old data of the key stays, in front if room was made.
unfoldable pub failed_contents : ℕ → Bytes → ℕ → Contents → Option Bytes → Contents
failed_contents total key size m none = room total key size m
failed_contents total key size m (some old) =
    if ltb (length old) size then (key, old) ∷ room total key size m else m

unfoldable pub failed_drops : ℕ → Bytes → ℕ → Contents → Option Bytes → Bool
failed_drops total key size m none = drops total key size m
failed_drops total key size m (some old) =
    if ltb (length old) size then drops total key size m else false

module _ {total object : ℕ} {c : Cache} {m : Contents} (key bytes : Bytes) (size : ℕ)
    (h : Holds total object c m) (filled : 0 < size) (fits : size ≤ object)
    (enough : size ≤ length bytes) where
  failed_entry :
      (d : Cache) (entry : Ptr) (k b : Bool)
      → IsUnused d entry
      → (entry ≡ none) ⊎ ((k && b) ≡ false)
      → new_entry d key bytes size (record { entry = entry; key = k; bytes = b }) ≡ (failed, d)
  unfolding new_entry
  failed_entry d none k b u e = refl
  failed_entry d (some p) k b u (inl e) = absurd (cc e)
  failed_entry d (some p) k b u (inr e) = rw (e, given_back d p u)

  -- No entry has the key: room was made for nothing.
  module _ (order : List ℕ) (t : IsCache c order) (is : contents c order ≡ m)
      (lacks : Lacks c key order) (miss : find_entry c key ≡ none) (others : remove key m ≡ m) where
    abbrev emptied : Cache
    emptied = Put.emptied key bytes size h filled fits enough order t is lacks miss others

    still-IsUnused : (entry : Ptr) → IsUnused c entry → IsUnused emptied entry
    still-IsUnused none u = u
    still-IsUnused (some p) u =
        Put.still_fresh key bytes size h filled fits enough order t is lacks miss others p u

    pub absent-Outcome :
        (entry : Ptr) (k b : Bool)
        → IsUnused c entry
        → (entry ≡ none) ⊎ ((k && b) ≡ false)
        → Outcome total object failed
            (drops total key size m)
            (room total key size m)
            (put_locked c key bytes size (record { entry = entry; key = k; bytes = b }))
    unfolding put_locked
    absent-Outcome entry k b u e =
        rw (miss, put_locked)
          (rw
            (
              Put.not_over key bytes size h filled fits enough order t is lacks miss others,
              failed_entry emptied entry k b (still-IsUnused entry u) e,
            )
            record {
              answers = refl;
              reports =
                  (Put.emptied-Evicted key bytes size h filled fits enough order t is lacks miss
                    others).flag
                  ∙ Put.drops-left key bytes size h filled fits enough order t is lacks miss others;
              leaves =
                  Put.emptied-Holds key bytes size h filled fits enough order t is lacks miss
                    others;
            })

  -- An entry has the key: it stays as it is, in front when room was made for a larger value.
  module _ (xs : List ℕ) (p : ℕ) (ys : List ℕ) (t : IsCache c (xs ++ p ∷ ys)) (at : c.key p ≡ key)
      (others : remove key m ≡ contents c (xs ++ ys)) where
    abbrev shrunk : Cache
    shrunk = Replace.emptied xs p ys t bytes size false

    evicted :
        Evicted
          (unpinned c p)
          (xs ++ ys)
          (p ∷ [])
          size
          false
          shrunk
          (Replace.emptied_flag xs p ys t bytes size false)
    evicted =
        Replace.emptied-Evicted xs p ys t bytes size false
          (Rewrite.small key bytes size h filled fits enough)

    grown-Holds :
        c.size_bytes p < size
        → Holds total object
            (returned shrunk p (c.size_bytes p))
            ((key, c.data_of p) ∷ room total key size m)
    unfolding contents
    grown-Holds grew =
        let same_size : shrunk.size_bytes p ≡ c.size_bytes p = ap (λ f. f p) evicted.same.size in
        let back =
          returned-IsCache p (Replace.rest xs p ys t bytes size false) evicted.table
            (omega (arith, evicted.room, same_size)) in
        let left = Replace.rest xs p ys t bytes size false in
        record {
          order = p ∷ left;
          table = subst (λ n. IsCache (returned shrunk p n) (p ∷ left)) same_size back;
          holds = cc (
            ap (λ f. f p) evicted.same.key,
            at,
            ap (λ f. f p) evicted.same.bytes,
            contents-same c (returned shrunk p (c.size_bytes p)) left evicted.same.key
                evicted.same.bytes,
            Rewrite.contents-left key bytes size h filled fits enough xs p ys t at others,
          );
          total_limit = evicted.same.total ∙ h.total_limit;
          object_limit = evicted.same.object ∙ h.object_limit;
        }

    pub present-Outcome :
        Outcome total object failed
          (if ltb (c.size_bytes p) size then drops total key size m else false)
          (if ltb (c.size_bytes p) size then (key, c.data_of p) ∷ room total key size m else m)
          (replace_entry c p bytes size false false)
    present-Outcome = elim (Bool-cases (ltb (c.size_bytes p) size)) [
      | inl grew ↦
          let lt = ltb→lt _ _ grew in
          rw
            (
              grew,
              replace_entry-grown_failed xs p ys t bytes size false lt
                  (Rewrite.small key bytes size h filled fits enough),
            )
            record {
              answers = refl;
              reports =
                  evicted.flag
                  ∙ Rewrite.drops-left key bytes size h filled fits enough xs p ys t at others;
              leaves = grown-Holds lt;
            }
      | inr less ↦
          rw (less, replace_entry-shrunk_failed xs p ys t bytes size false (ltb→ge _ _ less))
            record { answers = refl; reports = refl; leaves = h }
    ]

  -- cache_put of at least one byte and no more than an object may have, when the copy of the data gets
  -- no memory, and whatever the other two allocations give: the call fails, and the cache is well
  -- formed. If the key was absent, the entries that had to make room are gone and reported. If it had
  -- less data than `size`, they are gone too, and the key is in front with its old data. If it had as
  -- much or more, the cache holds what it held.
  pub put_failed :
      (entry : Ptr) (k before : Bool)
      → IsUnused c entry
      → Outcome total object failed
          (failed_drops total key size m (lookup key m))
          (failed_contents total key size m (lookup key m))
          (put c
            (some key)
            (some bytes)
            size
            (record { entry = entry; key = k; bytes = false })
            before)
  unfolding failed_drops failed_contents
  put_failed entry k before u =
      rw
        (put_locked-put c key bytes size (record { entry = entry; key = k; bytes = false }) before
          filled (omega (arith, h.object_limit)) (omega (arith, h.object_limit, h.table.object)))
        (at (locate key h))
    where
      at :
          Located key c m
          → Outcome total object failed
              (failed_drops total key size m (lookup key m))
              (failed_contents total key size m (lookup key m))
              (put_locked c key bytes size (record { entry = entry; key = k; bytes = false }))
      at (absent order t is lacks miss look others) =
          rw look (absent-Outcome order t is lacks miss others entry k false u (inr (ground arith)))
      at (present xs q ys t e is_entry hit look others) =
          unfold put_locked in
          rw (hit, put_locked) (rw (look, is_entry.exact) (present-Outcome xs q ys t e others))
