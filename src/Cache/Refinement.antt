-- ===== src/Cache/Refinement.antt =====
-- The cache of src/cache.c against its contract: each operation on the table is the operation on the
-- list of keys and data.
use concurrent_http_proxy_se.Base.{
  ℕ, ◌<◌, ◌≤◌, ◌^◌, ◌≡◌, refl, ap, ◌∙◌, sym, append-nil, Option, none, some, [], ◌∷◌, Bool, true,
  false, arith, ◌⊎◌, done, failed, length, take,
}
use concurrent_http_proxy_se.Bytes.{Bytes, bytes_eq_refl}
use concurrent_http_proxy_se.Cache.{
  Cache, Allocation, Value, create, put, put_locked, get, entry_count, current_size,
}
use concurrent_http_proxy_se.Cache.Get.{Located, absent, present, locate, found, answer, get-touch}
use concurrent_http_proxy_se.Cache.Invariant.{contents}
use concurrent_http_proxy_se.Cache.Put.{allocated, put_locked-put, insert-Outcome}
use concurrent_http_proxy_se.Cache.Rewrite.{Outcome, length-take_le, replace-Outcome}
use concurrent_http_proxy_se.Cache.Spec.{
  Contents, Holds, lookup, room, drops, weight, length-contents, weight-contents,
}
use concurrent_http_proxy_se.Lru
use concurrent_http_proxy_se.Lru.{Lru}
use concurrent_http_proxy_se.Lru.Ordering.{init-IsOrder}

-- A cache with no entry.
abbrev pub empty_cache : ℕ → ℕ → Lru → (ℕ → Bytes) → Cache
empty_cache total object memory old = record {
  buckets = λ _. none;
  bucket_next = λ _. none;
  key = old;
  data_of = old;
  size_bytes = λ _. 0;
  alive = λ _. false;
  lru_list = Lru.init memory;
  current_size_bytes = 0;
  max_total_size_bytes = total;
  max_object_size_bytes = object;
}

-- With limits that agree and memory for it, there is a cache.
pub create-empty_cache :
    (total object : ℕ) (memory : Lru) (old : ℕ → Bytes)
    → 0 < object
    → object ≤ total
    → create total object true memory old ≡ some (empty_cache total object memory old)
unfolding create
create-empty_cache total object memory old filled fits = ground arith

-- With limits that agree and memory for it, cache_create makes a cache that holds nothing.
pub create-Holds :
    (total object : ℕ) (memory : Lru) (old : ℕ → Bytes)
    → 0 < object
    → object ≤ total
    → total < 2 ^ 63
    → (create total object true memory old ≡ some (empty_cache total object memory old))
      × Holds total object (empty_cache total object memory old) []
unfolding create contents
create-Holds total object memory old filled fits word = (
  ground arith,
  record {
    order = [];
    table = record {
      chains = λ _. [];
      linked = init-IsOrder memory;
      chained = λ _. refl;
      distinct = λ _. tt;
      placed = λ _ _. refl;
      unique = tt;
      keys = λ p q h. absurd (cc);
      entries = λ p h. absurd (cc);
      live = λ _. refl;
      counted = refl;
      bounded = omega arith;
      object = fits;
      word = word;
    };
    holds = refl;
    total_limit = refl;
    object_limit = refl;
  },
)

module _ {total object : ℕ} {c : Cache} {m : Contents} (key bytes : Bytes) (size : ℕ)
    (before : Bool) (h : Holds total object c m) where
  -- cache_put of at least one byte and no more than an object may have, with memory for it: the call
  -- succeeds, the key is in front with the first `size` bytes, behind it the longest run of recent
  -- other keys that fits the total limit, and the result says whether a key was dropped.
  pub put-room :
      (p : ℕ)
      → c.alive p ≡ false
      → 0 < size
      → size ≤ object
      → size ≤ length bytes
      → Outcome total object done
          (drops total key size m)
          ((key, take size bytes) ∷ room total key size m)
          (put c (some key) (some bytes) size (allocated p) before)
  put-room p fresh filled fits enough =
      rw
        (put_locked-put c key bytes size (allocated p) before filled (omega (arith, h.object_limit))
          (omega (arith, h.object_limit, h.table.object)))
        (at (locate key h))
    where
      at :
          Located key c m
          → Outcome total object done
              (drops total key size m)
              ((key, take size bytes) ∷ room total key size m)
              (put_locked c key bytes size (allocated p))
      at (absent order t is lacks miss look others) =
          insert-Outcome key bytes size h filled fits enough order t is lacks miss others p fresh
      at (present xs q ys t e entry hit look others) =
          unfold put_locked in
          rw (hit, put_locked)
            (replace-Outcome key bytes size h filled fits enough xs q ys t e others)

  -- A size of zero, a size above a limit and a NULL argument are refused and change nothing.
  pub put_refused :
      (a : Allocation) (key_arg bytes_arg : Option Bytes)
      → (size ≡ 0) ⊎ ((object < size) ⊎ ((key_arg ≡ none) ⊎ (bytes_arg ≡ none)))
      → put c key_arg bytes_arg size a before ≡ (failed, before, c)
  unfolding put
  put_refused a none bytes_arg why = refl
  put_refused a (some k) none why = refl
  put_refused a (some k) (some b) why = ground (arith, h.object_limit)

-- However the cache was filled, its data takes no more than the total limit, the size and entry
-- counters are exact.
pub counters :
    {total object : ℕ} {c : Cache} {m : Contents}
    → Holds total object c m
    → (current_size c ≡ weight m) × (weight m ≤ total) × (entry_count c ≡ length m)
unfolding current_size entry_count
counters {total} {m} h =
    let sum = weight-contents _ h.order (λ p n. h.table.entries p (rw append-nil n)) in
    let heavy : weight m ≡ weight (contents _ h.order) = ap weight (sym h.holds) in
    let long : length m ≡ length h.order = ap length (sym h.holds) ∙ length-contents _ h.order in
    (
      omega (arith, h.table.counted, sum, heavy),
      omega (arith, h.table.counted, h.table.bounded, h.total_limit, sum, heavy),
      omega (arith, h.table.linked.count, long),
    )

-- What a put key answers to the next lookup.
lookup_put : (key v : Bytes) (m : Contents) → lookup key ((key, v) ∷ m) ≡ some v
unfolding lookup
lookup_put key v m = ground (arith, bytes_eq_refl key)

-- A cache_get with memory for its copy, after a cache_put of the same key that has memory, at least
-- one byte and no more than an object may have, returns the first `size` bytes that were put.
pub get-put :
    {total object : ℕ} {c : Cache} {m : Contents} (key bytes : Bytes) (size p : ℕ) (before : Bool)
    (out : Value)
    → Holds total object c m
    → c.alive p ≡ false
    → 0 < size
    → size ≤ object
    → size ≤ length bytes
    → answer (get (put c (some key) (some bytes) size (allocated p) before).2 (some key) out true)
      ≡ (done, record { bytes = some (take size bytes); size_bytes = size })
get-put {total} {m} key bytes size p before out h fresh filled fits enough =
    let stored = put-room key bytes size before h p fresh filled fits enough in
    (get-touch key out stored.leaves).0
    ∙ ap found (lookup_put key (take size bytes) (room total key size m))
    ∙ rw (length-take_le size bytes enough)
