-- ===== src/Run/Program.antt =====
-- `main` of src/main.c.
use concurrent_http_proxy_se.Base.{
  ℕ, ◌≡◌, refl, ap, ◌∙◌, arith, true, pos, some, List, Status, done, failed,
}
use concurrent_http_proxy_se.Bytes.{Bytes}
use concurrent_http_proxy_se.Cache.{Cache}
use concurrent_http_proxy_se.Config.{Config, Parsed, help, invalid, accepted, parse_args}
use concurrent_http_proxy_se.Metrics.{Metrics}
use concurrent_http_proxy_se.Run.{Host, Acts, started, setup}
use concurrent_http_proxy_se.Run.Clients.{returned-left}
use concurrent_http_proxy_se.Run.Made.{with_pool}
use concurrent_http_proxy_se.Run.System.{Proxy, serving, returned, Reachable}
use concurrent_http_proxy_se.Sockets.{Trace, close}
use concurrent_http_proxy_se.Threads.{Pool}

abbrev pub run_code : Status → ℕ
run_code done = 0
run_code failed = 1

-- What `main` answers by what the arguments are; `result` is that of `proxy_server_run`, which is
-- called for accepted settings only.
abbrev pub exit_code : Parsed → Status → ℕ
exit_code invalid result = 1
exit_code help result = 0
exit_code (accepted config) result = run_code result

unfoldable pub main : List Bytes → Status → ℕ
main args result = exit_code (parse_args args) result

ends_well : (result : Status) → run_code result ≡ 0 → result ≡ done
ends_well done e = refl
ends_well failed e = absurd (omega (arith, e))

-- When the arguments are accepted and the program answers 0 after its server was set up, whatever the
-- order in which its threads acted: a signal had asked for the shutdown when the main thread had done
-- what it ever did with sockets but for its last act, which closed the listener.
pub main-requested :
    (args : List Bytes) (config : Config) (host : Host) (before : Trace) (listener : ℕ)
    (m : Metrics) (c : Cache) (p : Pool) (t : Trace) (acts : Acts) {s : Proxy} (result : Status)
    → parse_args args ≡ accepted config
    → setup host before (some config) ≡ started listener m c p t acts
    → Reachable host listener m (serving p t acts) s
    → s.main ≡ returned result
    → main args result ≡ 0
    → (u : Trace) × (host.requested u ≡ true) × (s.trace ≡ close u listener)
unfolding main
main-requested args config host before listener m c p t acts result parsed made r back code =
    let ok : result ≡ done = ends_well result (cc (parsed, code)) in
    returned-left (pos config.worker_count) (pos 64) true host.pool_memory host.jobs_memory
      host.threads_memory host.starts p (with_pool host config before listener m c p t acts made)
      host listener m done r (back ∙ ap (λ q. returned q) ok)
