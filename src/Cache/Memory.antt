-- ===== src/Cache/Memory.antt =====
-- The cache of src/cache.c stays well formed, whatever is put and whatever is allocated.
use concurrent_http_proxy_se.Base.{
  ℕ, ◌<◌, ◌≤◌, ◌≡◌, refl, none, some, List, ◌∷◌, ◌++◌, Bool, true, false, arith, ltb, ltb→lt,
  ltb→ge, length, inl, inr, ◌⊎◌, Ptr, All, sym, subst, take, if◌then◌else◌, [],
}
use concurrent_http_proxy_se.Bytes.{Bytes}
use concurrent_http_proxy_se.Cache.{
  Cache, Allocation, put_locked, put, find_entry, replace_entry, Value, get,
}
use concurrent_http_proxy_se.Cache.Get.{
  Located, absent, present, locate, take-length, get-touch, get_failed,
}
use concurrent_http_proxy_se.Cache.Invariant.{IsCache, contents}
use concurrent_http_proxy_se.Cache.Put.{allocated, put_locked-put}
use concurrent_http_proxy_se.Cache.Put
use concurrent_http_proxy_se.Cache.Refinement.{put_refused}
use concurrent_http_proxy_se.Cache.Rewrite.{replace-Outcome}
use concurrent_http_proxy_se.Cache.Entries.{All-room, All-lookup, All-touch}
use concurrent_http_proxy_se.Cache.Spec.{Contents, Holds, Lacks, remove, lookup, room}
use concurrent_http_proxy_se.Cache.Failure.{IsUnused, absent-Outcome, present-Outcome}

-- The cache is well formed and holds something.
abbrev pub SomeHolds : ℕ → ℕ → Cache → Type 0
SomeHolds total object c = (m : Contents) × Holds total object c m

-- And everything it holds has a property.
abbrev pub AllHold : (Bytes × Bytes → Type 0) → ℕ → ℕ → Cache → Type 0
AllHold P total object c = (m : Contents) × Holds total object c m × All P m

module _ {total object : ℕ} {c : Cache} {m : Contents} (key bytes : Bytes) (size : ℕ)
    (h : Holds total object c m) (filled : 0 < size) (fits : size ≤ object)
    (enough : size ≤ length bytes) (P : Bytes × Bytes → Type 0) (old : All P m)
    (new : P (key, take size bytes)) where
  left : All P (room total key size m)
  left = All-room P total key size m old

  absent-AllHold :
      (order : List ℕ) (t : IsCache c order) (is : contents c order ≡ m) (lacks : Lacks c key order)
      (miss : find_entry c key ≡ none) (others : remove key m ≡ m) (entry : Ptr) (k b : Bool)
      → IsUnused c entry
      → AllHold P total object
          (put_locked c key bytes size (record { entry = entry; key = k; bytes = b })).2
  absent-AllHold order t is lacks miss others none k b u = (
    _,
    (absent-Outcome key bytes size h filled fits enough order t is lacks miss others none k b u
        (inl refl)).leaves,
    left,
  )
  absent-AllHold order t is lacks miss others (some p) true true u = (
    _,
    (Put.insert-Outcome key bytes size h filled fits enough order t is lacks miss others p
        u).leaves,
    (new, left),
  )
  absent-AllHold order t is lacks miss others (some p) false b u = (
    _,
    (absent-Outcome key bytes size h filled fits enough order t is lacks miss others (some p) false
        b u (inr refl)).leaves,
    left,
  )
  absent-AllHold order t is lacks miss others (some p) true false u = (
    _,
    (absent-Outcome key bytes size h filled fits enough order t is lacks miss others (some p) true
        false u (inr refl)).leaves,
    left,
  )

  replace_entry-AllHold :
      (xs : List ℕ) (p : ℕ) (ys : List ℕ) (t : IsCache c (xs ++ p ∷ ys)) (at : c.key p ≡ key)
      (look : lookup key m ≡ some (c.data_of p)) (others : remove key m ≡ contents c (xs ++ ys))
      (b : Bool)
      → AllHold P total object (replace_entry c p bytes size b false).2
  replace_entry-AllHold xs p ys t at look others true = (
    _,
    (replace-Outcome key bytes size h filled fits enough xs p ys t at others).leaves,
    (new, left),
  )
  replace_entry-AllHold xs p ys t at look others false = (
    _,
    (present-Outcome key bytes size h filled fits enough xs p ys t at others).leaves,
    kept (ltb (c.size_bytes p) size),
  )
    where
      kept : (b : Bool) → All P (if b then (key, c.data_of p) ∷ room total key size m else m)
      kept true = (All-lookup P key (c.data_of p) m old look, left)
      kept false = old

  put_locked-AllHold :
      (entry : Ptr) (k b : Bool)
      → IsUnused c entry
      → AllHold P total object
          (put_locked c key bytes size (record { entry = entry; key = k; bytes = b })).2
  put_locked-AllHold entry k b u = at (locate key h)
    where
      at :
          Located key c m
          → AllHold P total object
              (put_locked c key bytes size (record { entry = entry; key = k; bytes = b })).2
      at (absent order t is lacks miss look others) =
          absent-AllHold order t is lacks miss others entry k b u
      at (present xs q ys t e is_entry hit look others) =
          unfold put_locked in
          rw (hit, put_locked) (replace_entry-AllHold xs q ys t e look others b)

-- Whatever is put, and whatever is allocated or not, the cache stays well formed, and a property of
-- everything that was in it and of what is put is one of everything that is in it afterwards.
pub put-AllHold :
    {total object : ℕ} {c : Cache} {m : Contents} (P : Bytes × Bytes → Type 0) (key bytes : Bytes)
    (a : Allocation) (before : Bool)
    → Holds total object c m
    → All P m
    → P (key, bytes)
    → IsUnused c a.entry
    → AllHold P total object (put c (some key) (some bytes) (length bytes) a before).2
put-AllHold {total} {object} {c} {m} P key bytes a before h old new u =
    by_size (ltb 0 (length bytes)) (ltb object (length bytes)) refl refl
  where
    refused_so :
        (length bytes ≡ 0) ⊎ (object < length bytes)
        → AllHold P total object (put c (some key) (some bytes) (length bytes) a before).2
    refused_so (inl e) =
        rw (put_refused key bytes (length bytes) before h a (some key) (some bytes) (inl e))
          (m, h, old)
    refused_so (inr e) =
        rw (put_refused key bytes (length bytes) before h a (some key) (some bytes) (inr (inl e)))
          (m, h, old)

    by_size :
        (x y : Bool)
        → ltb 0 (length bytes) ≡ x
        → ltb object (length bytes) ≡ y
        → AllHold P total object (put c (some key) (some bytes) (length bytes) a before).2
    by_size false y e f = refused_so (inl (ground (arith, e)))
    by_size true true e f = refused_so (inr (ltb→lt _ _ f))
    by_size true false e f =
        rw
          (put_locked-put c key bytes (length bytes) a before (ltb→lt _ _ e)
            (omega (arith, h.object_limit, ltb→ge _ _ f))
            (omega (arith, h.object_limit, h.table.object, ltb→ge _ _ f)))
          (put_locked-AllHold key bytes (length bytes) h (ltb→lt _ _ e) (ltb→ge _ _ f) (omega arith)
            P old (subst (λ v. P (key, v)) (sym (take-length bytes)) new) a.entry a.key a.bytes u)

All-trivial : (m : Contents) → All {0, 0} (λ _. Unit) m
All-trivial [] = tt
All-trivial (x ∷ m) = (tt, All-trivial m)

-- Whatever is put, and whatever is allocated or not, the cache stays well formed.
pub put-SomeHolds :
    {total object : ℕ} {c : Cache} {m : Contents} (key bytes : Bytes) (a : Allocation)
    (before : Bool)
    → Holds total object c m
    → IsUnused c a.entry
    → SomeHolds total object (put c (some key) (some bytes) (length bytes) a before).2
put-SomeHolds {m} key bytes a before h u =
    let (n, holds, _) = put-AllHold (λ _. Unit) key bytes a before h (All-trivial m) tt u in
    (n, holds)

-- So it is with a lookup, whether its copy gets memory or not.
pub get-AllHold :
    {total object : ℕ} {c : Cache} {m : Contents} (P : Bytes × Bytes → Type 0) (key : Bytes)
    (out : Value) (copied : Bool)
    → Holds total object c m
    → All P m
    → AllHold P total object (get c (some key) out copied).2
get-AllHold {m} P key out true h old = (_, (get-touch key out h).1, All-touch P key m old)
get-AllHold {m} P key out false h old = rw (get_failed key out h).0 (m, h, old)
