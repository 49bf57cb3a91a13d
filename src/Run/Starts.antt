-- ===== src/Run/Starts.antt =====
-- When the server of src/proxy_server.c starts.
use concurrent_http_proxy_se.Base.{
  ℕ, zero, suc, ◌+◌, ◌≤◌, ◌<◌, ◌%◌, ◌^◌, ◌≡◌, refl, ap, ◌∙◌, arith, Bool, true, if◌then◌else◌, none,
  some, List, [], ◌∷◌, pos,
}
use concurrent_http_proxy_se.Bytes.{Bytes}
use concurrent_http_proxy_se.Cache.{Cache}
use concurrent_http_proxy_se.Cache.Refinement.{empty_cache, create-empty_cache}
use concurrent_http_proxy_se.Config.{Config, accepted, parse_args}
use concurrent_http_proxy_se.Config.Ranges.{IsConfig, parse_args-IsConfig}
use concurrent_http_proxy_se.Metrics
use concurrent_http_proxy_se.Metrics.{Metrics}
use concurrent_http_proxy_se.Run.{
  library, counters, objects, acquires, Host, Acts, started, pooled, cached, max_object_size,
  listened, counted, setup,
}
use concurrent_http_proxy_se.Run.Made.{new_pool, new_cache}
use concurrent_http_proxy_se.Sockets.{Trace, Os, opened, answered}
use concurrent_http_proxy_se.Sockets
use concurrent_http_proxy_se.Sockets.Listener.{checked, listening, bound, prepared, create_listener}
use concurrent_http_proxy_se.Threads
use concurrent_http_proxy_se.Threads.{Pool, start_threads}

-- The system gives all that the setup asks for.
pub record Grants (host : Host) (before : Trace) : Type 0 where
  pub listener : ℕ
  pub socket : host.os.socket before ≡ some listener
  pub options : (t : Trace) (s : ℕ) → host.os.set_option t s ≡ true
  pub binds : (t : Trace) (s port : ℕ) → host.net.bind t s port ≡ true
  pub listens : (t : Trace) (s backlog : ℕ) → host.net.listen t s backlog ≡ true
  pub metrics : host.metrics_memory ≡ some tt
  pub cache : host.cache_memory ≡ true
  pub pool : host.pool_memory ≡ true
  pub jobs : host.jobs_memory ≡ true
  pub threads : host.threads_memory ≡ true
  pub starts : (i : ℕ) → host.starts i ≡ true

-- All threads start.
start_threads_all :
    (starts : ℕ → Bool)
    → ((i : ℕ) → starts i ≡ true)
    → (index n : ℕ) (p : Pool) → (q : Pool) × (start_threads starts index n p ≡ some q)
unfolding start_threads
start_threads_all starts all index zero p = (p, refl)
start_threads_all starts all index (suc n) p =
    let next = record p { threads_started = p.threads_started + 1 } in
    let (q, e) = start_threads_all starts all (index + 1) n next in
    (q, ap (λ b. if b then start_threads starts (index + 1) n next else none) (all index) ∙ e)

pool_made :
    (starts : ℕ → Bool)
    → ((i : ℕ) → starts i ≡ true)
    → (n : ℕ) → 1 ≤ n
    → (p : Pool) × (Threads.create (pos n) (pos 64) true true true true starts ≡ some p)
unfolding Threads.create
pool_made starts all zero h = absurd (omega (arith, h))
pool_made starts all (suc n) h = start_threads_all starts all 0 (suc n) _

module _ (host : Host) (before : Trace) (g : Grants host before) where
  -- The trace when the listener listens.
  abbrev ready : Trace
  ready =
      Sockets.accepted g.listener
      ∷ Sockets.accepted g.listener
      ∷ Sockets.accepted g.listener
      ∷ opened g.listener
      ∷ before

  listener_made :
      (port backlog : ℕ)
      → create_listener host.os host.net before port backlog ≡ (some g.listener, ready)
  unfolding create_listener
  listener_made port backlog =
      let s = g.listener in
      let t = opened s ∷ before in
      let u = Sockets.accepted s ∷ t in
      let v = Sockets.accepted s ∷ u in
      ap (prepared host.os host.net port backlog before) g.socket
      ∙ ap (λ b. checked s (answered t s b) (bound host.net s port backlog)) (g.options t s)
      ∙ ap (λ b. checked s (answered u s b) (listening host.net s backlog))
          (g.binds u s (port % 2 ^ 16))
      ∙ ap (λ b. checked s (answered v s b) (λ w. (some s, w))) (g.listens v s backlog)

  module _ (config : Config) (ok : IsConfig config) where
    object_fits : (0 < max_object_size config) × (max_object_size config ≤ config.cache_size_bytes)
    object_fits = (ground (arith, ok.cache_from), ground arith)

    cache_made : (c : Cache) × (new_cache host config ≡ some c)
    cache_made =
        let e =
          create-empty_cache config.cache_size_bytes (max_object_size config) host.cache_list
            host.cache_bytes object_fits.0 object_fits.1 in
        (
          empty_cache config.cache_size_bytes (max_object_size config) host.cache_list
              host.cache_bytes,
          cc (g.cache, e),
        )

    workers_made : (p : Pool) × (new_pool host config ≡ some p)
    workers_made =
        let (p, e) = pool_made host.starts g.starts config.worker_count ok.workers_from in
        (p, cc (g.pool, g.jobs, g.threads, e))

    setup_made :
        (m : Metrics) × (c : Cache) × (p : Pool) × (acts : Acts) × (setup host before (some config)
          ≡ started g.listener m c p ready acts)
    unfolding setup Metrics.create
    setup_made =
        let (c, made) = cache_made in
        let (p, manned) = workers_made in
        let m = Metrics.create (some tt) in
        let a1 = acquires counters ∷ (acquires library ∷ []) in
        (
          m,
          c,
          p,
          _,
          ap (λ o. counted host config before (acquires library ∷ []) (Metrics.create o)) g.metrics
              ∙ ap (listened host config a1 m) (listener_made config.port 16)
              ∙ ap (cached host config ready a1 g.listener m) made
              ∙ ap (pooled ready (acquires objects ∷ a1) g.listener m c) manned,
        )

-- With accepted arguments, the server starts whenever the system grants what it asks for: the setup
-- ends with the listener, the counters, a cache and a pool.
pub setup-starts :
    (args : List Bytes) (config : Config) (host : Host) (before : Trace)
    → parse_args args ≡ accepted config
    → (g : Grants host before)
    → (m : Metrics) × (c : Cache) × (p : Pool) × (t : Trace) × (acts : Acts) × (setup host before
          (some config)
        ≡ started g.listener m c p t acts)
setup-starts args config host before e g =
    let (m, c, p, acts, made) =
      setup_made host before g config (parse_args-IsConfig args config e) in
    (m, c, p, _, acts, made)
