-- ===== src/Run/Progress.antt =====
-- The server of src/proxy_server.c does not get stuck: until `proxy_server_run` is back, the main
-- thread or a thread of the pool can go on.
use concurrent_http_proxy_se.Base.{
  ℕ, zero, suc, ◌<◌, ◌≡◌, refl, ap, ◌∙◌, arith, ◌⊎◌, inl, inr, ltb_cases, length, true, false, some,
  List, [], ◌∷◌, ◌++◌, pos, Status,
}
use concurrent_http_proxy_se.Config.{Config}
use concurrent_http_proxy_se.Cache.{Cache}
use concurrent_http_proxy_se.Metrics.{Metrics}
use concurrent_http_proxy_se.Run.{
  Host, Acts, Round, leaves, goes_on, submits, started, setup, round,
}
use concurrent_http_proxy_se.Run.Clients
use concurrent_http_proxy_se.Run.Clients.{IsServed, reached-IsServed}
use concurrent_http_proxy_se.Run.Effects.{nil-append}
use concurrent_http_proxy_se.Run.Made.{with_pool}
use concurrent_http_proxy_se.Run.Rounds.{SubmitsSocket, round-SubmitsSocket}
use concurrent_http_proxy_se.Run.System.{
  Main, looping, submitting, leaving, joining, returned, is_back, Proxy, serving, kind, own,
  is_spurious, IsGenuine, Step, waits, accepts, submitted, not_submitted, breaks, stops_pool, ends,
  pool_moves, Reachable,
}
use concurrent_http_proxy_se.Sockets.{Trace}
use concurrent_http_proxy_se.Threads.{
  Job, Pool, Taken, wait_not_empty, exit_worker, run_job, take_job, Submitted, wait_not_full,
  refused, accepted, submit_locked,
}
use concurrent_http_proxy_se.Threads.Create.{create-IsFresh}
use concurrent_http_proxy_se.Threads.Delivery.{invariant, no_lost_signal}
use concurrent_http_proxy_se.Threads.Invariant.{IsSound, IsAlive}
use concurrent_http_proxy_se.Threads.System
use concurrent_http_proxy_se.Threads.System.{
  System, WakeWorker, no_sleeper, one_sleeper, WakeCall, no_call, one_call, call, submit_sleeps,
  submit_fails, submit_returns, worker_sleeps, worker_exits, worker_takes, worker_finishes,
  shuts_down,
}

-- A step of the pool alone, other than a wake-up without a signal.
abbrev Moves : System → Type 0
Moves s = (u : System) × (e : System.Step s u) × (kind e ≡ own) × (is_spurious e ≡ false)

wakes_worker : (asleep ready : ℕ) → (m n : ℕ) × WakeWorker asleep ready m n
wakes_worker zero ready = (0, ready, no_sleeper)
wakes_worker (suc asleep) ready = (asleep, suc ready, one_sleeper)

wakes_call : (blocked calling : List Job) → (b c : List Job) × WakeCall blocked calling b c
wakes_call [] calling = ([], calling, no_call)
wakes_call (job ∷ blocked) calling = (blocked, job ∷ calling, one_call [] job blocked)

-- A worker that is awake can always go on,
ready-Moves : (s : System) (n : ℕ) → s.ready ≡ suc n → Moves s
unfolding kind is_spurious
ready-Moves s n r = by_taken (take_job s.pool) refl
  where
    by_taken : (k : Taken Pool) → take_job s.pool ≡ k → Moves s
    by_taken wait_not_empty e = (_, worker_sleeps n r e, refl, refl)
    by_taken exit_worker e = (_, worker_exits n r e, refl, refl)
    by_taken (run_job job p) e =
        let (b, c, w) = wakes_call s.blocked s.calling in
        (_, worker_takes n job p b c r e w, refl, refl)

-- and so can one that runs a job.
running-Moves : (s : System) (job : Job) (l : List Job) → s.running ≡ job ∷ l → Moves s
unfolding kind is_spurious
running-Moves s job l r = (_, worker_finishes [] job l r, refl, refl)

some_worker-Moves : (s : System) → (0 < s.ready) ⊎ (0 < length s.running) → Moves s
some_worker-Moves s (inl h) = by_ready s.ready refl h
  where
    by_ready : (n : ℕ) → s.ready ≡ n → 0 < n → Moves s
    by_ready zero e h = absurd (omega (arith, h))
    by_ready (suc n) e h = ready-Moves s n e
some_worker-Moves s (inr h) = by_running s.running refl h
  where
    by_running : (l : List Job) → s.running ≡ l → 0 < length l → Moves s
    by_running [] e h = absurd (omega (arith, h))
    by_running (job ∷ l) e h = running-Moves s job l e

module _ (host : Host) (listener : ℕ) (metrics : Metrics) where
  -- Some step of the server, other than a wake-up without a signal.
  abbrev pub GoesOn : Proxy → Type 0
  GoesOn s = (t : Proxy) × (e : Step host listener metrics s t) × IsGenuine e

  pool-GoesOn : (s : Proxy) → is_back s.main ≡ false → Moves s.system → GoesOn s
  pool-GoesOn s front (u, e, k, g) = (_, pool_moves e front k, g)

  looping-GoesOn : (s : Proxy) → s.main ≡ looping → GoesOn s
  unfolding kind is_spurious
  looping-GoesOn s at =
      by_round (round host listener s.trace) refl (round-SubmitsSocket host listener s.trace)
    where
      by_round : (r : Round) → round host listener s.trace ≡ r → SubmitsSocket r → GoesOn s
      by_round (leaves result t) e h = (_, breaks result t at e, tt)
      by_round (goes_on t) e h = (_, waits t at e, tt)
      by_round (submits job t) e h = (_, accepts job t (call job h) at e refl, tt)

  -- The call of `thread_pool_submit` is awake.
  awake-GoesOn :
      (s : Proxy) (job : Job) → s.main ≡ submitting job → s.system.calling ≡ job ∷ [] → GoesOn s
  unfolding kind is_spurious
  awake-GoesOn s job at c = by_submitted (submit_locked s.system.pool job) refl
    where
      by_submitted : (r : Submitted Pool) → submit_locked s.system.pool job ≡ r → GoesOn s
      by_submitted wait_not_full e =
          (_, pool_moves (submit_sleeps [] job [] c e) (ap is_back at) refl, refl)
      by_submitted refused e = (_, not_submitted job (submit_fails [] job [] c e) at refl, tt)
      by_submitted (accepted p) e =
          let (m, n, w) = wakes_worker s.system.asleep s.system.ready in
          (_, submitted job (submit_returns [] job [] p m n c e w) at refl, tt)

module _ (host : Host) (config : Config) (before : Trace) (listener : ℕ) (m : Metrics) (c : Cache)
    (p : Pool) (t : Trace) (acts : Acts)
    (made : setup host before (some config) ≡ started listener m c p t acts) {s : Proxy}
    (run : Reachable host listener m (serving p t acts) s) where
  served :
      IsServed
        (pos config.worker_count)
        (pos 64)
        true
        host.pool_memory
        host.jobs_memory
        host.threads_memory
        host.starts
        p
        (with_pool host config before listener m c p t acts made)
        host
        listener
        m
        s
  served = reached-IsServed _ _ _ _ _ _ _ p _ host listener m run

  sound : IsSound s.system × IsAlive s.system
  sound =
      invariant
        (create-IsFresh (pos config.worker_count) (pos 64) true host.pool_memory host.jobs_memory
          host.threads_memory host.starts p
          (with_pool host config before listener m c p t acts made))
        served.pool_steps

  signals :
      (0 < s.system.pool.queue_size → (0 < s.system.ready) ⊎ (0 < length s.system.running))
      × (0 < length s.system.blocked
          → (0 < length s.system.calling)
            ⊎ (s.system.pool.queue_size ≡ s.system.pool.queue_capacity))
  signals =
      no_lost_signal (pos config.worker_count) (pos 64) true host.pool_memory host.jobs_memory
        host.threads_memory host.starts p s.system
        (with_pool host config before listener m c p t acts made) served.pool_steps

  -- A worker makes room in a full queue.
  full-Moves : s.system.pool.queue_size ≡ s.system.pool.queue_capacity → Moves s.system
  full-Moves e = some_worker-Moves s.system (signals.0 (omega (arith, e, sound.0.valid.head_lt)))

  submitting-GoesOn : (job : Job) → s.main ≡ submitting job → GoesOn host listener m s
  submitting-GoesOn job at =
      by_calls s.system.calling s.system.blocked refl refl (served.waiting ∙ ap Clients.pending at)
    where
      by_calls :
          (l b : List Job)
          → s.system.calling ≡ l
          → s.system.blocked ≡ b
          → l ++ b ≡ job ∷ []
          → GoesOn host listener m s
      by_calls [] [] e f h = absurd (cc h)
      by_calls [] (j ∷ b) e f h = elim (signals.1 (omega (arith, ap length f))) [
        | inl awake ↦ absurd (omega (arith, awake, ap length e))
        | inr full ↦ pool-GoesOn host listener m s (ap is_back at) (full-Moves full)
      ]
      by_calls (j ∷ l) b e f h =
          let same : j ≡ job = cc h in
          let rest : l ++ b ≡ [] = cc h in
          let (none_left, _) = nil-append l b rest in
          awake-GoesOn host listener m s job at (cc (e, same, none_left))

  joining-GoesOn : (r : Status) → s.main ≡ joining r → GoesOn host listener m s
  joining-GoesOn r at = elim (ltb_cases s.system.exited s.system.pool.worker_count) [
    | inl some_in ↦ elim (ltb_cases 0 s.system.asleep) [
      | inl h ↦ absurd (cc (sound.1.worker_sleep h, served.stopped (ap Clients.is_stopped at)))
      | inr none_asleep ↦ pool-GoesOn host listener m s (ap is_back at) (
          some_worker-Moves s.system (elim (ltb_cases 0 s.system.ready) [
            | inl h ↦ inl h
            | inr none_ready ↦ inr (omega (arith, sound.1.count, some_in, none_asleep, none_ready))
          ]))
    ]
    | inr all_out ↦ (_, ends r at (omega (arith, sound.1.count, all_out)), tt)
  ]

  -- proxy_server_run has set up its server. In every state that its threads then reach, until it is
  -- back, a thread can go on: the main thread, or a worker while the main thread waits for room in
  -- the queue or for the workers to end. A sleeper that wakes without a signal does not count, so the
  -- server does not deadlock when nobody wakes by chance.
  pub run-GoesOn : is_back s.main ≡ false → GoesOn host listener m s
  unfolding kind
  run-GoesOn front = by_main s.main refl front
    where
      by_main : (q : Main) → s.main ≡ q → is_back q ≡ false → GoesOn host listener m s
      by_main looping at f = looping-GoesOn host listener m s at
      by_main (submitting job) at f = submitting-GoesOn job at
      by_main (leaving r) at f = (_, stops_pool r shuts_down at refl, tt)
      by_main (joining r) at f = joining-GoesOn r at
      by_main (returned r) at f = absurd (cc f)
