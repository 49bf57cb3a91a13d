-- ===== src/Metrics.antt =====
-- src/metrics.c: eight size_t counters behind one mutex. Each operation runs inside the mutex, so a
-- concurrent run of the module is a sequence of whole operations.
pub mod Counts
mod Tests
use concurrent_http_proxy_se.Base.{
  ℕ, add_size, ◌-◌, Option, none, some, List, [], ◌∷◌, ltb, if◌then◌else◌,
}

-- metrics_snapshot_t
pub record Counters : Type 0 where
  pub total_requests : ℕ
  pub active_connections : ℕ
  pub cache_hits : ℕ
  pub cache_misses : ℕ
  pub cache_evictions : ℕ
  pub origin_fetch_failures : ℕ
  pub bytes_in : ℕ
  pub bytes_out : ℕ

-- a metrics_t *: `none` is NULL
abbrev pub Metrics : Type 0
Metrics = Option Counters

-- calloc, or NULL when memory is exhausted
unfoldable pub create : (allocated : Option (Unit {0})) → Metrics
create none = none
create (some _) = some (record {
  total_requests = 0;
  active_connections = 0;
  cache_hits = 0;
  cache_misses = 0;
  cache_evictions = 0;
  origin_fetch_failures = 0;
  bytes_in = 0;
  bytes_out = 0;
})

pub increment_total_requests : Metrics → Metrics
increment_total_requests none = none
increment_total_requests (some m) = some (record m { total_requests = add_size m.total_requests 1 })

pub increment_active_connections : Metrics → Metrics
increment_active_connections none = none
increment_active_connections (some m) =
    some (record m { active_connections = add_size m.active_connections 1 })

pub decrement_active_connections : Metrics → Metrics
decrement_active_connections none = none
decrement_active_connections (some m) =
    if ltb 0 m.active_connections
    then some (record m { active_connections = m.active_connections - 1 })
    else some m

pub increment_cache_hits : Metrics → Metrics
increment_cache_hits none = none
increment_cache_hits (some m) = some (record m { cache_hits = add_size m.cache_hits 1 })

pub increment_cache_misses : Metrics → Metrics
increment_cache_misses none = none
increment_cache_misses (some m) = some (record m { cache_misses = add_size m.cache_misses 1 })

pub increment_cache_evictions : Metrics → Metrics
increment_cache_evictions none = none
increment_cache_evictions (some m) =
    some (record m { cache_evictions = add_size m.cache_evictions 1 })

pub increment_origin_fetch_failures : Metrics → Metrics
increment_origin_fetch_failures none = none
increment_origin_fetch_failures (some m) =
    some (record m { origin_fetch_failures = add_size m.origin_fetch_failures 1 })

pub add_bytes_in : Metrics → ℕ → Metrics
add_bytes_in none bytes = none
add_bytes_in (some m) bytes = some (record m { bytes_in = add_size m.bytes_in bytes })

pub add_bytes_out : Metrics → ℕ → Metrics
add_bytes_out none bytes = none
add_bytes_out (some m) bytes = some (record m { bytes_out = add_size m.bytes_out bytes })

-- `target` is what the caller's struct holds before the call
unfoldable pub snapshot : Metrics → Option Counters → Option Counters
snapshot none target = target
snapshot (some m) none = none
snapshot (some m) (some _) = some m
