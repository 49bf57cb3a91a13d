-- ===== src/Run/Made.antt =====
-- With what settings the setup of src/proxy_server.c makes the cache and the pool.
use concurrent_http_proxy_se.Base.{
  ℕ, ◌≡◌, refl, subst, Option, none, some, true, pos, Status, [], ◌≢◌,
}
use concurrent_http_proxy_se.Cache
use concurrent_http_proxy_se.Cache.{Cache}
use concurrent_http_proxy_se.Config.{Config}
use concurrent_http_proxy_se.Metrics
use concurrent_http_proxy_se.Metrics.{Metrics}
use concurrent_http_proxy_se.Run.{
  Host, Acts, Startup, start_failed, started, pooled, cached, max_object_size, listened, counted,
  setup,
}
use concurrent_http_proxy_se.Run.Clients
use concurrent_http_proxy_se.Run.System.{Proxy, serving, returned, submitting, Reachable}
use concurrent_http_proxy_se.Sockets.{Trace}
use concurrent_http_proxy_se.Threads
use concurrent_http_proxy_se.Threads.{Pool, Job, destroy, submit_locked, refused}

module _ (host : Host) (config : Config) where
  abbrev pub new_pool : Option Pool
  new_pool =
      Threads.create (pos config.worker_count) (pos 64) true host.pool_memory host.jobs_memory
        host.threads_memory host.starts

  abbrev pub new_cache : Option Cache
  new_cache =
      Cache.create config.cache_size_bytes (max_object_size config) host.cache_memory
        host.cache_list host.cache_bytes

  abbrev pub IsMade : Startup → Type 0
  IsMade (start_failed u acts) = Unit
  IsMade (started listener m c p u acts) =
      (m ≡ Metrics.create host.metrics_memory) × (new_cache ≡ some c) × (new_pool ≡ some p)

  module _ (m : Metrics) (same : m ≡ Metrics.create host.metrics_memory) where
    pooled-IsMade :
        (u : Trace) (acts : Acts) (s : ℕ) (c : Cache) (o : Option Pool)
        → new_cache ≡ some c
        → new_pool ≡ o
        → IsMade (pooled u acts s m c o)
    pooled-IsMade u acts s c none e f = tt
    pooled-IsMade u acts s c (some p) e f = (same, e, f)

    cached-IsMade :
        (u : Trace) (acts : Acts) (s : ℕ) (o : Option Cache)
        → new_cache ≡ o
        → IsMade (cached host config u acts s m o)
    cached-IsMade u acts s none e = tt
    cached-IsMade u acts s (some c) e = pooled-IsMade u _ s c new_pool e refl

    listened-IsMade : (acts : Acts) (r : Option ℕ × Trace) → IsMade (listened host config acts m r)
    listened-IsMade acts (none, u) = tt
    listened-IsMade acts (some s, u) = cached-IsMade u acts s new_cache refl

  counted-IsMade :
      (t : Trace) (acts : Acts) (m : Metrics)
      → m ≡ Metrics.create host.metrics_memory
      → IsMade (counted host config t acts m)
  counted-IsMade t acts none e = tt
  counted-IsMade t acts (some m) e = listened-IsMade (some m) e _ _

  setup-IsMade : (t : Trace) → IsMade (setup host t (some config))
  unfolding setup
  setup-IsMade t = counted-IsMade t _ (Metrics.create host.metrics_memory) refl

  module _ (before : Trace) (listener : ℕ) (m : Metrics) (c : Cache) (p : Pool) (t : Trace)
      (acts : Acts) (made : setup host before (some config) ≡ started listener m c p t acts) where
    pub with_pool : new_pool ≡ some p
    with_pool = (subst IsMade made (setup-IsMade before)).2

    -- proxy_server_run has set up its server and is back from its loop, whatever the order in which the
    -- main thread and the workers acted, and whatever the result. Then the workers have taken exactly
    -- the clients that were accepted, in the order of their acceptance, no worker still runs a job,
    -- and thread_pool_destroy closed no client that waited.
    pub run-delivers :
        {s : Proxy} (result : Status)
        → Reachable host listener m (serving p t acts) s
        → s.main ≡ returned result
        → (s.system.taken ≡ s.clients) × (s.system.running ≡ []) × (destroy s.system.pool ≡ [])
    run-delivers result r back =
        Clients.returned-taken (pos config.worker_count) (pos 64) true host.pool_memory
          host.jobs_memory host.threads_memory host.starts p with_pool host listener m result r back

    -- While proxy_server_run submits a client, thread_pool_submit never answers -1, whatever the
    -- workers did before: it takes the client or waits for room. So no client is turned away.
    pub run-submits :
        {s : Proxy} (job : Job)
        → Reachable host listener m (serving p t acts) s
        → s.main ≡ submitting job
        → submit_locked s.system.pool job ≢ refused
    run-submits job r at =
        Clients.submit-accepts (pos config.worker_count) (pos 64) true host.pool_memory
          host.jobs_memory host.threads_memory host.starts p with_pool host listener m job r at
