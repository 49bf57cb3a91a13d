-- ===== src/Cache/Runs.antt =====
-- Any sequence of calls of src/cache.c on a cache that cache_create makes, beside what they mean for a
-- list of keys with their data.
use concurrent_http_proxy_se.Base.{
  ℕ, ◌<◌, ◌≤◌, ◌^◌, ◌≡◌, refl, ap, arith, ltb, leb, ltb→lt, leb→le, if◌then◌else◌, Bool, true,
  false, ◌&&◌, some, List, [], ◌∷◌, length, take, All, Status, done, failed, inl, inr,
}
use concurrent_http_proxy_se.Bytes.{Bytes}
use concurrent_http_proxy_se.Cache.{
  Cache, Value, no_value, create, put, get, current_size, entry_count,
}
use concurrent_http_proxy_se.Cache.Get.{found, answer, get-touch}
use concurrent_http_proxy_se.Cache.Put.{allocated}
use concurrent_http_proxy_se.Cache.Refinement.{
  empty_cache, create-Holds, put-room, put_refused, counters,
}
use concurrent_http_proxy_se.Cache.Spec.{Contents, Holds, lookup, room, drops, touch, weight}
use concurrent_http_proxy_se.Lru.{Lru}

-- A cache_put of the first `size` bytes of some data, whose entry gets this address, or a cache_get.
pub data Call : Type 0 where
  puts : (key bytes : Bytes) (size address : ℕ) → Call
  gets : (key : Bytes) → Call

-- What a call answers, and what cache_current_size and cache_entry_count answer after it.
pub record Seen : Type 0 where
  pub answered : Status × Value
  pub evicted : Bool
  pub size : ℕ
  pub count : ℕ

unfoldable pub perform : Call → Cache → Cache
perform (puts key bytes size p) c = (put c (some key) (some bytes) size (allocated p) false).2
perform (gets key) c = (get c (some key) no_value true).2

unfoldable pub answers : Call → Cache → (Status × Value) × Bool
answers (puts key bytes size p) c =
    let r = put c (some key) (some bytes) size (allocated p) false in ((r.0, no_value), r.1)
answers (gets key) c = (answer (get c (some key) no_value true), false)

unfoldable pub observe : List Call → Cache → List Seen
observe [] c = []
observe (call ∷ calls) c =
    record {
      answered = (answers call c).0;
      evicted = (answers call c).1;
      size = current_size (perform call c);
      count = entry_count (perform call c);
    }
    ∷ observe calls (perform call c)

-- Addresses are not in use, and the data has `size` bytes.
unfoldable pub Allowed : List Call → Cache → Type 0
Allowed [] c = Unit
Allowed (puts key bytes size p ∷ calls) c =
    (c.alive p ≡ false) × (size ≤ length bytes) × Allowed calls (perform (puts key bytes size p) c)
Allowed (gets key ∷ calls) c = Allowed calls (perform (gets key) c)

module _ (total object : ℕ) where
  -- Data of no bytes, or of more than an object may have, is refused.
  unfoldable pub is_stored : ℕ → Bool
  is_stored size = ltb 0 size && leb size object

  unfoldable pub meant : Call → Contents → Contents
  meant (puts key bytes size p) m =
      if is_stored size then (key, take size bytes) ∷ room total key size m else m
  meant (gets key) m = touch key m

  unfoldable pub answers_meant : Call → Contents → (Status × Value) × Bool
  answers_meant (puts key bytes size p) m =
      if is_stored size
      then ((done, no_value), drops total key size m)
      else ((failed, no_value), false)
  answers_meant (gets key) m = (found (lookup key m), false)

  unfoldable pub expect : List Call → Contents → List Seen
  expect [] m = []
  expect (call ∷ calls) m =
      record {
        answered = (answers_meant call m).0;
        evicted = (answers_meant call m).1;
        size = weight (meant call m);
        count = length (meant call m);
      }
      ∷ expect calls (meant call m)

  Does : Call → Cache → Contents → Type 0
  Does call c m =
      Holds total object (perform call c) (meant call m) × (answers call c ≡ answers_meant call m)

  put-Does :
      {c : Cache} {m : Contents} (key bytes : Bytes) (size p : ℕ)
      → Holds total object c m
      → c.alive p ≡ false
      → size ≤ length bytes
      → Does (puts key bytes size p) c m
  unfolding Does perform answers meant answers_meant is_stored
  put-Does {c} {m} key bytes size p h fresh enough =
      by_size (ltb 0 size) (leb size object) refl refl
    where
      r : Status × Bool × Cache
      r = put c (some key) (some bytes) size (allocated p) false

      Result : Bool → Type 0
      Result b =
          Holds total object r.2 (if b then (key, take size bytes) ∷ room total key size m else m)
          × (◌≡◌ {A = (Status × Value) × Bool} ((r.0, no_value), r.1)
              (if b
                then ((done, no_value), drops total key size m)
                else ((failed, no_value), false)))

      by_size : (a b : Bool) → ltb 0 size ≡ a → leb size object ≡ b → Result (a && b)
      by_size true true e f =
          let o =
            put-room key bytes size false h p fresh (ltb→lt 0 size e) (leb→le size object f)
              enough in
          (o.leaves, cc (o.answers, o.reports))
      by_size true false e f =
          rw
            (put_refused key bytes size false h (allocated p) (some key) (some bytes)
              (inr (inl (ground (arith, f)))))
            (h, refl)
      by_size false b e f =
          rw
            (put_refused key bytes size false h (allocated p) (some key) (some bytes)
              (inl (ground (arith, e))))
            (h, refl)

  get-Does : {c : Cache} {m : Contents} (key : Bytes) → Holds total object c m → Does (gets key) c m
  unfolding Does perform answers meant answers_meant
  get-Does key h = let (says, kept) = get-touch key no_value h in (kept, ap (λ a. (a, false)) says)

  -- One call, and the rest.
  first_call :
      (call : Call) (calls : List Call) (c : Cache) (m : Contents)
      → Does call c m
      → (observe calls (perform call c) ≡ expect calls (meant call m))
        × All (λ s. s.size ≤ total) (expect calls (meant call m))
      → (observe (call ∷ calls) c ≡ expect (call ∷ calls) m)
        × All (λ s. s.size ≤ total) (expect (call ∷ calls) m)
  unfolding Does observe expect
  first_call call calls c m (kept, says) (rest, small) =
      let (size, bound, count) = counters kept in (cc (says, size, count, rest), (bound, small))

  observe-expect :
      (calls : List Call) {c : Cache} {m : Contents}
      → Holds total object c m
      → Allowed calls c
      → (observe calls c ≡ expect calls m) × All (λ s. s.size ≤ total) (expect calls m)
  unfolding Allowed Does observe expect
  observe-expect [] h a = (refl, tt)
  observe-expect (puts key bytes size p ∷ calls) h (fresh, enough, a) =
      let d = put-Does key bytes size p h fresh enough in
      first_call (puts key bytes size p) calls _ _ d (observe-expect calls d.0 a)
  observe-expect (gets key ∷ calls) h a =
      let d = get-Does key h in first_call (gets key) calls _ _ d (observe-expect calls d.0 a)

-- cache_create with limits that agree and memory for it, and then any sequence of calls of cache_put
-- and cache_get with memory, at addresses that are not in use. Whatever the calls answer and report,
-- and what cache_current_size and cache_entry_count answer after each of them, is what the same
-- sequence answers on a list of keys with their data, the most recently used one first, and the data
-- never takes more than the total limit.
pub create-observe :
    (total object : ℕ) (memory : Lru) (old : ℕ → Bytes) (calls : List Call)
    → 0 < object
    → object ≤ total
    → total < 2 ^ 63
    → Allowed calls (empty_cache total object memory old)
    → (c : Cache) × (create total object true memory old ≡ some c)
      × (observe calls c ≡ expect total object calls [])
      × All (λ s. s.size ≤ total) (observe calls c)
create-observe total object memory old calls filled fits word a =
    let (made, h) = create-Holds total object memory old filled fits word in
    let (same, small) = observe-expect total object calls h a in (_, made, same, rw same small)
