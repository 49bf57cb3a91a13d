-- ===== src/Metrics/Counts.antt =====
-- What the counters of src/metrics.c hold after any sequence of operations. An interleaving of
-- threads is such a sequence, since every operation runs inside the mutex.
use native.Mathlib.Nat.{mod-eq_of_lt}
use concurrent_http_proxy_se.Base.{
  ℕ, ◌+◌, ◌-◌, ◌%◌, ◌^◌, ◌<◌, ◌≡◌, refl, Option, none, some, List, [], ◌∷◌, arith, ltb,
  if◌then◌else◌, Bool, true, false, ◌∙◌,
}
use concurrent_http_proxy_se.Metrics.{
  Counters, Metrics, increment_total_requests, increment_active_connections,
  decrement_active_connections, increment_cache_hits, increment_cache_misses,
  increment_cache_evictions, increment_origin_fetch_failures, add_bytes_in, add_bytes_out,
}

-- One call of the module.
pub data Event : Type 0 where
  request connect disconnect hit miss eviction failure : Event
  received sent : ℕ → Event

pub apply : Event → Metrics → Metrics
apply request m = increment_total_requests m
apply connect m = increment_active_connections m
apply disconnect m = decrement_active_connections m
apply hit m = increment_cache_hits m
apply miss m = increment_cache_misses m
apply eviction m = increment_cache_evictions m
apply failure m = increment_origin_fetch_failures m
apply (received n) m = add_bytes_in m n
apply (sent n) m = add_bytes_out m n

-- The events of a run, the oldest first.
unfoldable pub run : List Event → Metrics → Metrics
unfolding apply increment_total_requests increment_active_connections decrement_active_connections
    increment_cache_hits increment_cache_misses increment_cache_evictions
    increment_origin_fetch_failures add_bytes_in add_bytes_out
run [] m = m
run (e ∷ es) m = run es (apply e m)

-- The counters that only grow.
pub data Counter : Type 0 where
  total_requests cache_hits cache_misses cache_evictions origin_fetch_failures : Counter
  bytes_in bytes_out : Counter

unfoldable pub value : Counter → Counters → ℕ
value total_requests m = m.total_requests
value cache_hits m = m.cache_hits
value cache_misses m = m.cache_misses
value cache_evictions m = m.cache_evictions
value origin_fetch_failures m = m.origin_fetch_failures
value bytes_in m = m.bytes_in
value bytes_out m = m.bytes_out

-- What one event adds to a counter.
unfoldable pub weight : Counter → Event → ℕ
weight total_requests request = 1
weight cache_hits hit = 1
weight cache_misses miss = 1
weight cache_evictions eviction = 1
weight origin_fetch_failures failure = 1
weight bytes_in (received n) = n
weight bytes_out (sent n) = n
weight _ _ = 0

unfoldable pub total : Counter → List Event → ℕ
unfolding weight
total c [] = 0
total c (e ∷ es) = weight c e + total c es

-- The value of a counter behind a pointer, 0 for NULL.
unfoldable pub read : Counter → Metrics → ℕ
unfolding value
read c none = 0
read c (some m) = value c m

unfoldable pub is_open : Metrics → Bool
is_open none = false
is_open (some m) = true

pub apply-is_open : (e : Event) (m : Metrics) → is_open (apply e m) ≡ is_open m
unfolding run is_open
apply-is_open request m = ground arith
apply-is_open e m = ground arith

read-apply :
    (c : Counter) (e : Event) (m : Metrics)
    → is_open m ≡ true
    → read c m < 2 ^ 64
    → read c (apply e m) ≡ (read c m + weight c e) % 2 ^ 64
unfolding run read weight is_open
read-apply total_requests request (some m) o h = refl
read-apply c e none o h = cc
read-apply total_requests connect (some m) o h = omega arith
read-apply total_requests e (some m) o h = ground arith
read-apply cache_hits connect (some m) o h = omega arith
read-apply cache_hits e (some m) o h = ground arith
read-apply cache_misses connect (some m) o h = omega arith
read-apply cache_misses e (some m) o h = ground arith
read-apply cache_evictions connect (some m) o h = omega arith
read-apply cache_evictions e (some m) o h = ground arith
read-apply origin_fetch_failures connect (some m) o h = omega arith
read-apply origin_fetch_failures e (some m) o h = ground arith
read-apply bytes_in connect (some m) o h = omega arith
read-apply bytes_in e (some m) o h = ground arith
read-apply bytes_out connect (some m) o h = omega arith
read-apply bytes_out e (some m) o h = ground arith

-- After any sequence of calls on an allocated module, each growing counter that started within size_t
-- holds its old value plus the sum of what the calls added to it, modulo 2^64.
pub read-run :
    (c : Counter) (es : List Event) (m : Metrics)
    → is_open m ≡ true
    → read c m < 2 ^ 64
    → read c (run es m) ≡ (read c m + total c es) % 2 ^ 64
unfolding run total
read-run c [] m o h = omega arith
read-run c (e ∷ es) m o h = omega (
  arith,
  read-apply c e m o h,
  read-run c es (apply e m) (apply-is_open e m ∙ o) (omega (arith, read-apply c e m o h)),
)

-- The connections open after a run that starts with `n` open ones; `none` when a disconnect comes
-- with none open or the count leaves size_t.
unfoldable pub open_after : ℕ → List Event → Option ℕ
open_after n [] = some n
open_after n (connect ∷ es) = if ltb (n + 1) (2 ^ 64) then open_after (n + 1) es else none
open_after n (disconnect ∷ es) = if ltb 0 n then open_after (n - 1) es else none
open_after n (e ∷ es) = open_after n es

unfoldable pub active : Metrics → ℕ
active none = 0
active (some m) = m.active_connections

-- While every disconnect follows its connect, the gauge of active connections holds exactly the
-- number of open ones.
pub active-run :
    (es : List Event) (m : Metrics) (k : ℕ)
    → is_open m ≡ true
    → open_after (active m) es ≡ some k
    → active (run es m) ≡ k
unfolding run open_after active is_open
active-run [] (some m) k o h = ground arith
active-run es none k o h = cc
active-run (connect ∷ es) (some m) k o h = ground (
  arith,
  active-run es (increment_active_connections (some m)) k,
  mod-eq_of_lt {n = m.active_connections + 1} {m = 2 ^ 64},
)
active-run (disconnect ∷ es) (some m) k o h =
    ground (arith, active-run es (decrement_active_connections (some m)) k)
active-run (e ∷ es) (some m) k o h = active-run es (apply e (some m)) k refl h
