-- ===== src/Run/Clients.antt =====
-- What becomes of the clients that `proxy_server_run` of src/proxy_server.c accepts.
use concurrent_http_proxy_se.Base.{
  ℕ, ◌≤◌, ◌≡◌, ◌≢◌, refl, sym, ap, ◌∙◌, subst, arith, length, append-nil, Bool, true, false, some,
  List, [], ◌∷◌, ◌++◌, Status, done, failed, ℤ,
}
use concurrent_http_proxy_se.Metrics.{Metrics}
use concurrent_http_proxy_se.Run.{Host, Acts, leaves, round, close_all}
use concurrent_http_proxy_se.Run.Effects.{nil_of_length, open_calls, Effect, Step-Effect}
use concurrent_http_proxy_se.Run.Rounds.{round-requested}
use concurrent_http_proxy_se.Run.System.{
  Main, looping, submitting, leaving, joining, returned, is_back, Proxy, serving, Kind, fails, kind,
  Step, waits, accepts, submitted, not_submitted, breaks, stops_pool, ends, pool_moves, Reachable,
  start, next,
}
use concurrent_http_proxy_se.Sockets.{Trace, close}
use concurrent_http_proxy_se.Threads.{Job, Pool, create, destroy, submit_locked, refused}
use concurrent_http_proxy_se.Threads.Create.{IsFresh, create-IsFresh}
use concurrent_http_proxy_se.Threads.Delivery.{invariant, drained}
use concurrent_http_proxy_se.Threads.System
use concurrent_http_proxy_se.Threads.System.{System}

-- The client that `thread_pool_submit` is called with.
abbrev pub pending : Main → List Job
pending (submitting job) = job ∷ []
pending main = []

length-pending : (m : Main) → length (pending m) ≤ 1
length-pending looping = omega arith
length-pending (submitting job) = omega arith
length-pending (leaving r) = omega arith
length-pending (joining r) = omega arith
length-pending (returned r) = omega arith

abbrev is_serving : Main → Bool
is_serving looping = true
is_serving (submitting job) = true
is_serving main = false

abbrev pub is_stopped : Main → Bool
is_stopped (joining result) = true
is_stopped (returned result) = true
is_stopped main = false

-- Why the loop was left: with 0 only because a signal had asked for it.
abbrev pub IsReason : Host → Status → Trace → Type 0
IsReason host done t = host.requested t ≡ true
IsReason host failed t = Unit

-- What the main thread did with sockets since it left the loop.
abbrev IsLeft : Host → ℕ → Main → Trace → Pool → Type 0
IsLeft host listener (leaving result) t p = IsReason host result t
IsLeft host listener (joining result) t p =
    (u : Trace) × IsReason host result u × (t ≡ close u listener)
IsLeft host listener (returned result) t p =
    (u : Trace) × IsReason host result u × (t ≡ close_all (close u listener) (destroy p))
IsLeft host listener main t p = Unit

-- Only a pool that shuts down refuses a job.
open_pool : (p : Pool) (job : Job) → p.shutting_down ≡ false → submit_locked p job ≢ refused
unfolding submit_locked
open_pool p job f e = ground (arith, f, e)

abbrev IsJoined : Main → System → Type 0
IsJoined (returned r) s = s.exited ≡ s.pool.worker_count
IsJoined main s = Unit

module _ (workers capacity : ℤ) (handler pool_memory jobs_memory threads_memory : Bool)
    (starts : ℕ → Bool) (p : Pool)
    (made : create workers capacity handler pool_memory jobs_memory threads_memory starts ≡ some p)
    (host : Host) (listener : ℕ) (metrics : Metrics) where
  -- The clients are those that were given to the queue, and the one that is being submitted.
  pub record IsServed (s : Proxy) : Type 0 where
    pub pool_steps : System.Reachable (System.started p) s.system
    pub handed : s.clients ≡ s.system.given ++ pending s.main
    pub waiting : open_calls s.system ≡ pending s.main
    pub serves : is_serving s.main ≡ true → s.system.pool.shutting_down ≡ false
    pub stopped : is_stopped s.main ≡ true → s.system.pool.shutting_down ≡ true
    pub joined : IsJoined s.main s.system
    pub left : IsLeft host listener s.main s.trace s.system.pool

  fresh : IsFresh p
  fresh =
      create-IsFresh workers capacity handler pool_memory jobs_memory threads_memory starts p made

  effect :
      {s : Proxy} {u : System} (i : IsServed s) (e : System.Step s.system u) {k : Kind}
      → kind e ≡ k
      → Effect k s.system u
  effect {s} {u} i e is =
      subst (λ k. Effect k s.system u) is (Step-Effect e (invariant fresh i.pool_steps).0)

  Step-IsServed : {s t : Proxy} → IsServed s → Step host listener metrics s t → IsServed t
  Step-IsServed {s} i (waits t at r) = record {
    pool_steps = i.pool_steps;
    handed = i.handed;
    waiting = i.waiting;
    serves = i.serves;
    stopped = i.stopped;
    joined = i.joined;
    left = subst (λ m. IsLeft host listener m t s.system.pool) (sym at) tt;
  }
  Step-IsServed {s} i (accepts job t e at r is) =
      let (given, stop, now) = effect i e is in
      record {
        pool_steps = System.next i.pool_steps e;
        handed = cc (i.handed, at, given, append-nil s.system.given);
        waiting = cc (now, i.waiting, at);
        serves = λ _. stop ∙ i.serves (ap is_serving at);
        stopped = λ h. absurd (cc h);
        joined = tt;
        left = tt;
      }
  Step-IsServed {s} i (submitted job e at is) =
      let (given, stop, now) = effect i e is in
      record {
        pool_steps = System.next i.pool_steps e;
        handed = cc (i.handed, at, given, append-nil (s.system.given ++ (job ∷ [])));
        waiting = now (pending s.main) (length-pending s.main) i.waiting;
        serves = λ _. stop ∙ i.serves (ap is_serving at);
        stopped = λ h. absurd (cc h);
        joined = tt;
        left = tt;
      }
  Step-IsServed {s} i (not_submitted job e at is) =
      absurd (cc (effect i e is, i.serves (ap is_serving at)))
  Step-IsServed {s} i (breaks result t at r) = record {
    pool_steps = i.pool_steps;
    handed = cc (i.handed, at);
    waiting = cc (i.waiting, at);
    serves = λ h. absurd (cc h);
    stopped = λ h. absurd (cc h);
    joined = tt;
    left = by_result result r;
  }
    where
      by_result : (q : Status) → round host listener s.trace ≡ leaves q t → IsReason host q t
      by_result done r = round-requested host listener s.trace t r
      by_result failed r = tt
  Step-IsServed {s} i (stops_pool result e at is) =
      let (given, stop, now) = effect i e is in
      record {
        pool_steps = System.next i.pool_steps e;
        handed = cc (i.handed, at, given);
        waiting = now (i.waiting ∙ ap pending at);
        serves = λ h. absurd (cc h);
        stopped = λ _. stop;
        joined = tt;
        left = (s.trace, subst (λ m. IsLeft host listener m s.trace s.system.pool) at i.left, refl);
      }
  Step-IsServed {s} i (ends result at out) = record {
    pool_steps = i.pool_steps;
    handed = cc (i.handed, at);
    waiting = cc (i.waiting, at);
    serves = λ h. absurd (cc h);
    stopped = λ _. i.stopped (ap is_stopped at);
    joined = out;
    left =
        let (u, why, shut) = subst (λ m. IsLeft host listener m s.trace s.system.pool) at i.left in
        (u, why, ap (λ t. close_all t (destroy s.system.pool)) shut);
  }
  Step-IsServed {s} i (pool_moves {u} e not_back is) =
      let (given, stop, now) = effect i e is in
      record {
        pool_steps = System.next i.pool_steps e;
        handed = i.handed ∙ ap (λ l. l ++ pending s.main) (sym given);
        waiting = now (pending s.main) (length-pending s.main) i.waiting;
        serves = λ h. stop ∙ i.serves h;
        stopped = λ h. stop ∙ i.stopped h;
        joined = by_main s.main not_back;
        left = moved s.main not_back i.left;
      }
    where
      by_main : (m : Main) → is_back m ≡ false → IsJoined m u
      by_main looping h = tt
      by_main (submitting job) h = tt
      by_main (leaving r) h = tt
      by_main (joining r) h = tt
      by_main (returned r) h = absurd (cc h)

      moved :
          (m : Main)
          → is_back m ≡ false
          → IsLeft host listener m s.trace s.system.pool
          → IsLeft host listener m s.trace u.pool
      moved looping h k = tt
      moved (submitting job) h k = tt
      moved (leaving r) h k = k
      moved (joining r) h k = k
      moved (returned r) h k = absurd (cc h)

  pub reached-IsServed :
      {t : Trace} {acts : Acts} {s : Proxy}
      → Reachable host listener metrics (serving p t acts) s
      → IsServed s
  reached-IsServed start = record {
    pool_steps = System.start;
    handed = refl;
    waiting = refl;
    serves = λ _. fresh.not_stopped;
    stopped = λ h. absurd (cc h);
    joined = tt;
    left = tt;
  }
  reached-IsServed (next r step) = Step-IsServed (reached-IsServed r) step

  -- No call of thread_pool_submit fails.
  pub never_fails :
      {t : Trace} {acts : Acts} {s : Proxy} {u : System} (job : Job) (e : System.Step s.system u)
      → Reachable host listener metrics (serving p t acts) s
      → s.main ≡ submitting job
      → kind e ≢ fails job
  never_fails job e r at is =
      let i = reached-IsServed r in cc (effect i e is, i.serves (ap is_serving at))

  -- When proxy_server_run is back from its loop and its teardown, whatever the order in which the
  -- main thread and the threads of the created pool acted: the workers have taken exactly the clients
  -- that were accepted, in the order of their acceptance, no worker still runs a job, and
  -- thread_pool_destroy closed no client that waited.
  pub returned-taken :
      {t : Trace} {acts : Acts} {s : Proxy} (result : Status)
      → Reachable host listener metrics (serving p t acts) s
      → s.main ≡ returned result
      → (s.system.taken ≡ s.clients) × (s.system.running ≡ []) × (destroy s.system.pool ≡ [])
  returned-taken {s} result r back =
      let i = reached-IsServed r in
      let (sound, alive) = invariant fresh i.pool_steps in
      let all_out : s.system.exited ≡ s.system.pool.worker_count =
        subst (λ m. IsJoined m s.system) back i.joined in
      let (took, none_left) =
        drained workers capacity handler pool_memory jobs_memory threads_memory starts p s.system
          made i.pool_steps (omega (arith, sound.has_workers, all_out)) in
      (
        cc (took, i.handed, back, append-nil s.system.given),
        nil_of_length s.system.running (omega (arith, alive.count, all_out)),
        none_left,
      )

  -- While proxy_server_run submits a client, thread_pool_submit does not answer -1, whatever the
  -- threads of the created pool did before: it takes the client or waits for room.
  pub submit-accepts :
      {t : Trace} {acts : Acts} {s : Proxy} (job : Job)
      → Reachable host listener metrics (serving p t acts) s
      → s.main ≡ submitting job
      → submit_locked s.system.pool job ≢ refused
  submit-accepts {s} job r at =
      open_pool s.system.pool job ((reached-IsServed r).serves (ap is_serving at))

  -- When proxy_server_run is back, the last that the main thread did with sockets was to close the
  -- listener. It left its loop with the result 0 only because a signal had asked for the shutdown.
  pub returned-left :
      {t : Trace} {acts : Acts} {s : Proxy} (result : Status)
      → Reachable host listener metrics (serving p t acts) s
      → s.main ≡ returned result
      → (u : Trace) × IsReason host result u × (s.trace ≡ close u listener)
  returned-left {s} result r back =
      let (u, why, closes) =
        subst (λ m. IsLeft host listener m s.trace s.system.pool) back (reached-IsServed r).left in
      let (taken, idle, nothing_left) = returned-taken result r back in
      (u, why, closes ∙ ap (close_all (close u listener)) nothing_left)
