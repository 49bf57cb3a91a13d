-- ===== src/Threads/Invariant.antt =====
-- What stays true of the threads of src/thread_pool.c at every step.
use concurrent_http_proxy_se.Base.{
  ℕ, suc, ◌+◌, ◌<◌, ◌≤◌, ◌≡◌, sym, ap, ◌∙◌, subst, arith, true, false, List, [], ◌∷◌, ◌++◌,
  append_assoc, length, All, All-append, All-mid,
}
use concurrent_http_proxy_se.Threads.{
  Job, Pool, run_job, take_job, accepted, submit_locked, shutdown,
}
use concurrent_http_proxy_se.Threads.Queue.{queue, HasSocket, IsPool}
use concurrent_http_proxy_se.Threads.Facts.{
  TakenFrom, GivenTo, TakeFacts, SubmitFacts, take_facts, submit_facts, shutdown_lem,
}
use concurrent_http_proxy_se.Threads.System.{
  System, WakeCall, no_call, one_call, Step, call, submit_sleeps, submit_fails, submit_returns,
  worker_sleeps, worker_exits, worker_takes, worker_finishes, worker_wakes, call_wakes, shuts_down,
}

-- The ring is well-formed, and what was put into it is what was taken and what is in it, in order.
pub record IsSound (s : System) : Type 0 where
  pub valid : IsPool s.pool
  pub sync : s.pool.sync_initialized ≡ true
  pub has_workers : 0 < s.pool.worker_count
  pub order : s.given ≡ s.taken ++ queue s.pool
  pub awake_calls : All HasSocket s.calling
  pub blocked_calls : All HasSocket s.blocked

-- No signal is lost: while a worker sleeps, an awake worker is left for each job, and while a call
-- sleeps, an awake call is left for each free place. Nobody sleeps in a pool that shuts down, and
-- workers leave only a pool that shuts down and is empty.
pub record IsAlive (s : System) : Type 0 where
  pub jobs_seen : 0 < s.asleep → s.pool.queue_size ≤ s.ready
  pub worker_sleep : 0 < s.asleep → s.pool.shutting_down ≡ false
  pub room_seen :
      0 < length s.blocked → s.pool.queue_capacity ≤ s.pool.queue_size + length s.calling
  pub call_sleep : 0 < length s.blocked → s.pool.shutting_down ≡ false
  pub gone_empty : 0 < s.exited → s.pool.queue_size ≡ 0
  pub gone_stopped : 0 < s.exited → s.pool.shutting_down ≡ true
  pub count : s.ready + s.asleep + length s.running + s.exited ≡ s.pool.worker_count

All-wake :
    {b c b2 c2 : List Job}
    → WakeCall b c b2 c2
    → All HasSocket b
    → All HasSocket c
    → All HasSocket b2 × All HasSocket c2
All-wake no_call hb hc = (tt, hc)
All-wake (one_call xs job ys) hb hc = let m = All-mid HasSocket xs job ys hb in (m.1, (m.0, hc))

pub taken_facts :
    (s : System) (job : Job) (p : Pool)
    → IsSound s
    → take_job s.pool ≡ run_job job p
    → TakenFrom s.pool job p
taken_facts s job p v e = subst (TakeFacts s.pool) e (take_facts s.pool v.valid)

pub socket_of :
    (s : System) (xs : List Job) (job : Job) (ys : List Job)
    → IsSound s
    → s.calling ≡ xs ++ (job ∷ ys)
    → HasSocket job × All HasSocket (xs ++ ys)
socket_of s xs job ys v e = All-mid HasSocket xs job ys (subst (All HasSocket) e v.awake_calls)

pub given_facts :
    (s : System) (xs : List Job) (job : Job) (ys : List Job) (p : Pool)
    → IsSound s
    → s.calling ≡ xs ++ (job ∷ ys)
    → submit_locked s.pool job ≡ accepted p
    → GivenTo s.pool job p
given_facts s xs job ys p v c e =
    subst (SubmitFacts s.pool job) e (submit_facts s.pool job v.valid (socket_of s xs job ys v c).0)

pub stopped_pool :
    (s : System) → IsSound s → shutdown s.pool ≡ record (s.pool) { shutting_down = true }
stopped_pool s v = shutdown_lem s.pool v.sync

-- Moves of the workers and of the calls leave the queue alone.
workers_move :
    {s : System} (r a x : ℕ) (l : List Job)
    → IsSound s
    → IsSound (record s { ready = r; asleep = a; exited = x; running = l })
workers_move r a x l v = record {
  valid = v.valid;
  sync = v.sync;
  has_workers = v.has_workers;
  order = v.order;
  awake_calls = v.awake_calls;
  blocked_calls = v.blocked_calls;
}

calls_move :
    {s : System} {c b : List Job}
    → IsSound s
    → All HasSocket c
    → All HasSocket b
    → IsSound (record s { calling = c; blocked = b })
calls_move v hc hb = record {
  valid = v.valid;
  sync = v.sync;
  has_workers = v.has_workers;
  order = v.order;
  awake_calls = hc;
  blocked_calls = hb;
}

given_order :
    (s : System) (job : Job) (p : Pool)
    → IsSound s
    → GivenTo s.pool job p
    → s.given ++ (job ∷ []) ≡ s.taken ++ queue p
given_order s job p v g =
    ap (λ l. l ++ (job ∷ [])) v.order
    ∙ append_assoc s.taken (queue s.pool) (job ∷ [])
    ∙ ap (◌++◌ s.taken) (sym g.jobs)

taken_order :
    (s : System) (job : Job) (p : Pool)
    → IsSound s
    → TakenFrom s.pool job p
    → s.given ≡ (s.taken ++ (job ∷ [])) ++ queue p
taken_order s job p v f =
    v.order ∙ ap (◌++◌ s.taken) f.jobs ∙ sym (append_assoc s.taken (job ∷ []) (queue p))

pub Step-IsSound : {s t : System} → Step s t → IsSound s → IsSound t
Step-IsSound (call job h) v = calls_move v (h, v.awake_calls) v.blocked_calls
Step-IsSound {s = s} (submit_sleeps xs job ys e h) v =
    let m = socket_of s xs job ys v e in calls_move v m.1 (m.0, v.blocked_calls)
Step-IsSound {s = s} (submit_fails xs job ys e h) v =
    calls_move v (socket_of s xs job ys v e).1 v.blocked_calls
Step-IsSound {s = s} (submit_returns xs job ys p a r e h w) v =
    let g = given_facts s xs job ys p v e h in
    record {
      valid = g.valid;
      sync = g.settings.sync ∙ v.sync;
      has_workers = omega (arith, g.settings.workers, v.has_workers);
      order = given_order s job p v g;
      awake_calls = (socket_of s xs job ys v e).1;
      blocked_calls = v.blocked_calls;
    }
Step-IsSound {s = s} (worker_sleeps n e h) v = workers_move n (suc s.asleep) s.exited s.running v
Step-IsSound {s = s} (worker_exits n e h) v = workers_move n s.asleep (suc s.exited) s.running v
Step-IsSound {s = s} (worker_takes n job p b c e h w) v =
    let f = taken_facts s job p v h in
    let m = All-wake w v.blocked_calls v.awake_calls in
    record {
      valid = f.valid;
      sync = f.settings.sync ∙ v.sync;
      has_workers = omega (arith, f.settings.workers, v.has_workers);
      order = taken_order s job p v f;
      awake_calls = m.1;
      blocked_calls = m.0;
    }
Step-IsSound {s = s} (worker_finishes xs job ys e) v =
    workers_move (suc s.ready) s.asleep s.exited (xs ++ ys) v
Step-IsSound {s = s} (worker_wakes n e) v = workers_move (suc s.ready) n s.exited s.running v
Step-IsSound {s = s} (call_wakes xs job ys e) v =
    let m = All-mid HasSocket xs job ys (subst (All HasSocket) e v.blocked_calls) in
    calls_move v (m.0, v.awake_calls) m.1
Step-IsSound {s = s} shuts_down v = record {
  valid = subst IsPool (sym (stopped_pool s v)) (stop-IsPool s.pool v.valid);
  sync = ap (λ p. p.sync_initialized) (stopped_pool s v) ∙ v.sync;
  has_workers = subst (λ p. 0 < p.worker_count) (sym (stopped_pool s v)) v.has_workers;
  order = v.order ∙ ap (λ p. s.taken ++ queue p) (sym (stopped_pool s v));
  awake_calls = All-append HasSocket s.blocked s.calling v.blocked_calls v.awake_calls;
  blocked_calls = tt;
}
  where
    stop-IsPool : (p : Pool) → IsPool p → IsPool (record p { shutting_down = true })
    stop-IsPool p i = record {
      head_lt = i.head_lt;
      size_le = i.size_le;
      tail_eq = i.tail_eq;
      free = i.free;
      sockets = i.sockets;
    }
