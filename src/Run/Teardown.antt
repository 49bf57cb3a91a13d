-- ===== src/Run/Teardown.antt =====
-- What `proxy_server_run` of src/proxy_server.c holds when it returns.
use concurrent_http_proxy_se.Base.{
  ℕ, ◌≡◌, refl, sym, ap, ◌∙◌, subst, ◌∷◌, false, true, if◌then◌else◌, pos, some, Status,
}
use concurrent_http_proxy_se.Cache.{Cache}
use concurrent_http_proxy_se.Config.{Config}
use concurrent_http_proxy_se.Metrics.{Metrics}
use concurrent_http_proxy_se.Run.Opened.{with_clients, returned-open}
use concurrent_http_proxy_se.Run.Made.{with_pool}
use concurrent_http_proxy_se.Run.{Resource, Host, Acts, started, setup, teardown}
use concurrent_http_proxy_se.Run.Released.{
  holds, IsPaired, IsSetUp, setup-IsSetUp, teardown-IsPaired,
}
use concurrent_http_proxy_se.Run.System.{
  returned, is_back, Proxy, serving, Step, waits, accepts, submitted, not_submitted, breaks,
  stops_pool, ends, pool_moves, Reachable, start, next,
}
use concurrent_http_proxy_se.Sockets.{Trace}
use concurrent_http_proxy_se.Sockets.Open.{open_sockets, remove}
use concurrent_http_proxy_se.Threads.{Pool}

module _ (host : Host) (listener : ℕ) (metrics : Metrics) (acts : Acts) where
  -- The teardown is done once, at the end.
  abbrev IsTornDown : Proxy → Type 0
  IsTornDown s = s.acts ≡ (if is_back s.main then teardown metrics acts else acts)

  Step-IsTornDown : {s t : Proxy} → IsTornDown s → Step host listener metrics s t → IsTornDown t
  Step-IsTornDown i (waits t at r) = i
  Step-IsTornDown i (accepts job t e at r k) = cc (i, at)
  Step-IsTornDown i (submitted job e at k) = cc (i, at)
  Step-IsTornDown i (not_submitted job e at k) = cc (i, at)
  Step-IsTornDown i (breaks result t at r) = cc (i, at)
  Step-IsTornDown i (stops_pool result e at k) = cc (i, at)
  Step-IsTornDown i (ends result at out) = cc (i, at)
  Step-IsTornDown i (pool_moves e front k) = i

  reached-IsTornDown :
      {p : Pool} {t : Trace} {s : Proxy}
      → Reachable host listener metrics (serving p t acts) s
      → IsTornDown s
  reached-IsTornDown start = refl
  reached-IsTornDown (next r step) = Step-IsTornDown (reached-IsTornDown r) step

-- When proxy_server_run has set up its server and is back from its loop, whatever the order in which
-- its threads acted: the cache, the counters, the pool and the socket library are released once and
-- none of them is held. The main thread has the sockets open that it had before, and those of the
-- clients it accepted, which are for the handlers to close; the listener is closed.
pub returned-released :
    {s : Proxy} (host : Host) (config : Config) (before : Trace) (listener : ℕ) (m : Metrics)
    (c : Cache) (p : Pool) (t : Trace) (acts : Acts) (result : Status)
    → setup host before (some config) ≡ started listener m c p t acts
    → Reachable host listener m (serving p t acts) s
    → s.main ≡ returned result
    → IsPaired s.acts
      × ((r : Resource) → holds r s.acts ≡ false)
      × (open_sockets s.trace
          ≡ remove listener (with_clients s.clients (listener ∷ open_sockets before)))
returned-released {s} host config before listener m c p t acts result made r back =
    let (added, proper, opened, paired, all) =
      subst (IsSetUp before) made (setup-IsSetUp before host (some config)) in
    let is : s.acts ≡ teardown m acts = cc (reached-IsTornDown host listener m acts r, back) in
    let (once, nothing) =
      subst (λ a. IsPaired a × ((q : Resource) → holds q a ≡ false)) (sym is)
        (teardown-IsPaired m acts opened paired all) in
    let left =
      returned-open (pos config.worker_count) (pos 64) true host.pool_memory host.jobs_memory
        host.threads_memory host.starts p (with_pool host config before listener m c p t acts made)
        host listener m result r back in
    (once, nothing, left ∙ ap (λ l. remove listener (with_clients s.clients l)) added)
