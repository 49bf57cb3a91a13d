-- ===== src/Run/System.antt =====
-- The main thread of src/proxy_server.c beside the threads of its pool. A step of the main thread is
-- what it does between two moments at which others may act; `select`, the sleep in
-- `thread_pool_submit` and the joins let the others go on.
use concurrent_http_proxy_se.Base.{
  ℕ, ◌≡◌, Bool, true, false, Option, none, some, List, [], ◌∷◌, ◌++◌, Status, failed,
}
use concurrent_http_proxy_se.Metrics.{Metrics}
use concurrent_http_proxy_se.Run.{Host, Acts, leaves, goes_on, submits, round, close_all, teardown}
use concurrent_http_proxy_se.Sockets.{Trace, close}
use concurrent_http_proxy_se.Threads.{Job, Pool, destroy}
use concurrent_http_proxy_se.Threads.System
use concurrent_http_proxy_se.Threads.System.{
  System, started, call, submit_fails, submit_returns, worker_wakes, call_wakes, shuts_down,
}

-- Where the main thread is: in the loop, in `thread_pool_submit`, out of the loop, joining the workers with this
-- result, or back from `proxy_server_run`.
pub data Main : Type 0 where
  looping : Main
  submitting : Job → Main
  leaving joining returned : Status → Main

abbrev pub is_back : Main → Bool
is_back (returned result) = true
is_back main = false

-- `trace` is what the main thread did with sockets, and `clients` the clients it accepted, in order.
pub record Proxy : Type 0 where
  pub main : Main
  pub trace : Trace
  pub acts : Acts
  pub system : System
  pub clients : List Job

abbrev pub close_client : Trace → Option ℕ → Trace
close_client t none = t
close_client t (some s) = close t s

-- Behind the setup.
abbrev pub serving : Pool → Trace → Acts → Proxy
serving pool t acts = record {
  main = looping;
  trace = t;
  acts = acts;
  system = started pool;
  clients = [];
}

-- Which thread makes a step of the pool: `own` are the workers, and a call of `thread_pool_submit` that
-- falls asleep on a full queue or wakes up. The others are the main thread's.
pub data Kind : Type 0 where
  own stops : Kind
  calls returns fails : Job → Kind

unfoldable pub kind : {s t : System} → System.Step s t → Kind
kind (call job h) = calls job
kind (submit_fails xs job ys e f) = fails job
kind (submit_returns xs job ys p asleep ready e f w) = returns job
kind shuts_down = stops
kind _ = own

-- A sleeper wakes although nothing signalled it.
unfoldable pub is_spurious : {s t : System} → System.Step s t → Bool
is_spurious (worker_wakes n e) = true
is_spurious (call_wakes xs job ys e) = true
is_spurious _ = false

pub data Step (host : Host) (listener : ℕ) (metrics : Metrics) (s : Proxy) : Proxy → Type 0 where
  waits :
      (t : Trace)
      → s.main ≡ looping
      → round host listener s.trace ≡ goes_on t
      → Step host listener metrics s (record s { trace = t })
  -- a client is accepted, and `thread_pool_submit` called with it
  accepts :
      (job : Job) (t : Trace) {u : System} (e : System.Step s.system u)
      → s.main ≡ looping
      → round host listener s.trace ≡ submits job t
      → kind e ≡ calls job
      → Step host listener metrics s (record s {
        main = submitting job;
        trace = t;
        clients = s.clients ++ (job ∷ []);
        system = u;
      })
  submitted :
      (job : Job) {u : System} (e : System.Step s.system u)
      → s.main ≡ submitting job
      → kind e ≡ returns job
      → Step host listener metrics s (record s { main = looping; system = u })
  -- the client is closed
  not_submitted :
      (job : Job) {u : System} (e : System.Step s.system u)
      → s.main ≡ submitting job
      → kind e ≡ fails job
      → Step host listener metrics s (record s {
        main = leaving failed;
        trace = close_client s.trace job.client_socket;
        system = u;
      })
  breaks :
      (result : Status) (t : Trace)
      → s.main ≡ looping
      → round host listener s.trace ≡ leaves result t
      → Step host listener metrics s (record s { main = leaving result; trace = t })
  -- the listener is closed, and `thread_pool_destroy` shuts the pool down
  stops_pool :
      (result : Status) {u : System} (e : System.Step s.system u)
      → s.main ≡ leaving result
      → kind e ≡ stops
      → Step host listener metrics s
          (record s { main = joining result; trace = close s.trace listener; system = u })
  -- all threads are joined; the jobs left in the ring are closed, and the rest is torn down
  ends :
      (result : Status)
      → s.main ≡ joining result
      → s.system.exited ≡ s.system.pool.worker_count
      → Step host listener metrics s (record s {
        main = returned result;
        trace = close_all s.trace (destroy s.system.pool);
        acts = teardown metrics s.acts;
      })
  -- until `thread_pool_destroy` is over
  pool_moves :
      {u : System} (e : System.Step s.system u)
      → is_back s.main ≡ false
      → kind e ≡ own
      → Step host listener metrics s (record s { system = u })

-- The step is more than a wake-up without a signal.
abbrev pub IsGenuine :
    {host : Host} {listener : ℕ} {metrics : Metrics} {s t : Proxy}
    → Step host listener metrics s t
    → Type 0
IsGenuine (pool_moves e front own_step) = is_spurious e ≡ false
IsGenuine _ = Unit

pub data Reachable (host : Host) (listener : ℕ) (metrics : Metrics) (s : Proxy)
    : Proxy → Type 0 where
  start : Reachable host listener metrics s s
  next :
      {t u : Proxy}
      → Reachable host listener metrics s t
      → Step host listener metrics t u
      → Reachable host listener metrics s u
