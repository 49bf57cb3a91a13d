-- ===== src/Server/Balance.antt =====
-- What storing a response counts in src/proxy_server.c.
use concurrent_http_proxy_se.Base.{
  ◌≡◌, refl, ltb, length, Bool, true, false, ◌&&◌, if◌then◌else◌, Option, none, some, List, [], ◌∷◌,
  Status, done, failed,
}
use concurrent_http_proxy_se.Bytes.{Bytes}
use concurrent_http_proxy_se.Cache
use concurrent_http_proxy_se.Cache.{Cache, Value, no_value}
use concurrent_http_proxy_se.Metrics.{Metrics}
use concurrent_http_proxy_se.Metrics.Counts.{Event, eviction, run}
use concurrent_http_proxy_se.Server.{World, Allocator, stored, store}

-- An event that happened or not, before others.
abbrev pub noted : Event → Bool → List Event → List Event
noted e true es = e ∷ es
noted e false es = es

pub run-noted :
    (e : Event) (b : Bool) (es : List Event) (m : Metrics)
    → run es (run (noted e b []) m) ≡ run (noted e b es) m
unfolding run
run-noted e true es m = refl
run-noted e false es m = refl

module _ (alloc : Allocator) where
  -- Storing counts an eviction or nothing.
  stored_events :
      (w : World) (r : Status × Bool × Cache)
      → (b : Bool) × ((stored w r).metrics ≡ run (noted eviction b []) w.metrics)
  unfolding run
  stored_events w (failed, evicted, cache) = (false, refl)
  stored_events w (done, true, cache) = (true, refl)
  stored_events w (done, false, cache) = (false, refl)

  pub store_events :
      (w : World) (key : Bytes) (b : Option Bytes)
      → (e : Bool) × ((store alloc w key b).metrics ≡ run (noted eviction e []) w.metrics)
  unfolding store run
  store_events w key none = (false, refl)
  store_events w key (some bytes) = by_test (ltb 0 (length key) && ltb 0 (length bytes))
    where
      put : Status × Bool × Cache
      put = Cache.put w.cache (some key) (some bytes) (length bytes) (alloc.blocks w) false

      by_test :
          (b : Bool)
          → (e : Bool) × ((if b then stored w put else w).metrics
              ≡ run (noted eviction e []) w.metrics)
      by_test true = stored_events w put
      by_test false = (false, refl)
