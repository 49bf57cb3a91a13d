-- ===== src/Server/Store.antt =====
-- The cache of src/cache.c in the hands of a worker of src/proxy_server.c.
use concurrent_http_proxy_se.Base.{
  ℕ, ◌≡◌, refl, sym, subst, ltb, length, Bool, true, false, ◌&&◌, if◌then◌else◌, Option, none, some,
  [], ◌∷◌, Status, done, failed,
}
use concurrent_http_proxy_se.Bytes.{Bytes}
use concurrent_http_proxy_se.Cache
use concurrent_http_proxy_se.Cache.{Cache, Value, no_value}
use concurrent_http_proxy_se.Cache.Failure.{IsUnused}
use concurrent_http_proxy_se.Cache.Get.{get-touch, get_failed}
use concurrent_http_proxy_se.Cache.Memory.{SomeHolds, put-SomeHolds}
use concurrent_http_proxy_se.Cache.Spec.{touch}
use concurrent_http_proxy_se.Forwarder.{Forwarded}
use concurrent_http_proxy_se.Metrics.{increment_cache_misses, add_bytes_in, add_bytes_out}
use concurrent_http_proxy_se.Parser.{Request}
use concurrent_http_proxy_se.Server.{
  World, Allocator, Reading, broken, too_large, request_bytes, read_request_bytes, build_cache_key,
  refuse, serve_cached, stored, store, after_forward, forwarded, serve_miss, looked_up, keyed,
  serve_request, parsed, serve_reading, timed, process,
}
use concurrent_http_proxy_se.Sockets.{Os, Trace}

pub stored-cache : (w : World) (r : Status × Bool × Cache) → (stored w r).cache ≡ r.2
stored-cache w (failed, e, c) = refl
stored-cache w (done, e, c) = refl

module _ (total object : ℕ) where
  abbrev pub AllHold : Option World → Type 0
  AllHold none = Unit
  AllHold (some w) = SomeHolds total object w.cache

  module _ (fuel : ℕ) (os : Os) (alloc : Allocator) (client : ℕ)
      (unused : (w : World) → IsUnused w.cache (alloc.blocks w).entry) where
    store-SomeHolds :
        (w : World) (key : Bytes) (b : Option Bytes)
        → SomeHolds total object w.cache
        → SomeHolds total object (store alloc w key b).cache
    unfolding store
    store-SomeHolds w key none h = h
    store-SomeHolds w key (some bytes) h = by_test (ltb 0 (length key) && ltb 0 (length bytes))
      where
        put : Status × Bool × Cache
        put = Cache.put w.cache (some key) (some bytes) (length bytes) (alloc.blocks w) false

        by_test : (b : Bool) → SomeHolds total object (if b then stored w put else w).cache
        by_test true =
            subst (SomeHolds total object) (sym (stored-cache w put))
              (put-SomeHolds key bytes (alloc.blocks w) false h.1 (unused w))
        by_test false = h

    after_forward-SomeHolds :
        (w : World) (key : Bytes) (f : Forwarded) (s : Status)
        → SomeHolds total object w.cache
        → SomeHolds total object (after_forward os alloc w client key f s).cache
    unfolding after_forward refuse
    after_forward-SomeHolds w key f failed h = h
    after_forward-SomeHolds w key f done h =
        store-SomeHolds (record w { metrics = add_bytes_out w.metrics f.origin_response_bytes }) key
          f.captured h

    forwarded-AllHold :
        (w : World) (key : Bytes) (r : Option (Forwarded × Trace))
        → SomeHolds total object w.cache
        → AllHold (forwarded os alloc w client key r)
    forwarded-AllHold w key none h = tt
    forwarded-AllHold w key (some r) h =
        after_forward-SomeHolds (record w { trace = r.1 }) key r.0 r.0.status h

    serve_miss-AllHold :
        (w : World) (r : Request) (key : Bytes)
        → SomeHolds total object w.cache
        → AllHold (serve_miss fuel os alloc w client r key)
    unfolding serve_miss
    serve_miss-AllHold w r key h =
        forwarded-AllHold
          (record w {
            metrics = if ltb 0 (length key) then increment_cache_misses w.metrics else w.metrics;
          })
          key _ h

    -- A lookup keeps the cache well formed.
    get-SomeHolds :
        (c : Cache) (key : Bytes) (b : Bool)
        → SomeHolds total object c
        → SomeHolds total object (Cache.get c (some key) no_value b).2
    get-SomeHolds c key true (m, h) = (touch key m, (get-touch key no_value h).1)
    get-SomeHolds c key false (m, h) =
        subst (λ r. SomeHolds total object r.2) (sym (get_failed key no_value h).0) (m, h)

    looked_up-AllHold :
        (w : World) (r : Request) (key : Bytes) (l : Status × Value × Cache)
        → SomeHolds total object l.2
        → AllHold (looked_up fuel os alloc w client r key l)
    unfolding serve_cached
    looked_up-AllHold w r key (done, value, cache) h = h
    looked_up-AllHold w r key (failed, value, cache) h =
        serve_miss-AllHold (record w { cache = cache }) r key h

    parsed-AllHold :
        (w : World) (r : Option Request)
        → SomeHolds total object w.cache
        → AllHold (parsed fuel os alloc w client r)
    unfolding serve_request refuse
    parsed-AllHold w none h = h
    parsed-AllHold w (some r) h = by_key (build_cache_key r 4096)
      where
        by_key : (key : Option Bytes) → AllHold (keyed fuel os alloc w client r key)
        by_key none = serve_miss-AllHold w r _ h
        by_key (some key) = looked_up-AllHold w r key _ (get-SomeHolds w.cache key (alloc.copy w) h)

    serve_reading-AllHold :
        (w : World) (r : Reading)
        → SomeHolds total object w.cache
        → AllHold (serve_reading fuel os alloc w client r)
    unfolding serve_reading refuse
    serve_reading-AllHold w broken h = h
    serve_reading-AllHold w too_large h = h
    serve_reading-AllHold w (request_bytes []) h = h
    serve_reading-AllHold w (request_bytes (x ∷ xs)) h =
        parsed-AllHold (record w { metrics = add_bytes_in w.metrics (length (x ∷ xs)) }) _ h

    timed-AllHold :
        (w : World) (s : Status)
        → SomeHolds total object w.cache
        → AllHold (timed fuel os alloc w client s)
    timed-AllHold w failed h = h
    timed-AllHold w done h =
        let (reading, t) = read_request_bytes os w.trace client 8192 in
        serve_reading-AllHold (record w { trace = t }) reading h

    -- What a worker that is through leaves of the cache.
    pub process-AllHold :
        (w : World) → SomeHolds total object w.cache → AllHold (process fuel os alloc w client)
    unfolding process
    process-AllHold w h = timed-AllHold _ _ h
