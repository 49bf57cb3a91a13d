-- ===== src/Threads/System.antt =====
-- The threads of src/thread_pool.c together. A step is what one thread does between two moments at
-- which it does not hold the mutex: the mutex makes it atomic.
use concurrent_http_proxy_se.Base.{ℕ, suc, ◌+◌, ◌≡◌, List, [], ◌∷◌, ◌++◌, is_some, true}
use concurrent_http_proxy_se.Threads.{
  Job, Pool, wait_not_empty, exit_worker, run_job, take_job, wait_not_full, refused, accepted,
  submit_locked, shutdown,
}

-- The pool, its workers and the calls of `thread_pool_submit` that are under way.
pub record System : Type 0 where
  pub pool : Pool
  -- workers that are awake in their loop, and that sleep on `queue_not_empty`
  pub ready : ℕ
  pub asleep : ℕ
  -- the jobs that workers are running, and the workers that have left their loop
  pub running : List Job
  pub exited : ℕ
  -- the jobs of the calls that are awake, and that sleep on `queue_not_full`
  pub calling : List Job
  pub blocked : List Job
  -- what was put into the queue and what workers took from it, in order
  pub given : List Job
  pub taken : List Job

-- After `thread_pool_create`: every worker is awake in its loop.
abbrev pub started : Pool → System
started p = record {
  pool = p;
  ready = p.worker_count;
  asleep = 0;
  running = [];
  exited = 0;
  calling = [];
  blocked = [];
  given = [];
  taken = [];
}

-- A signal wakes one sleeper, if there is one: here a worker,
pub data WakeWorker : ℕ → ℕ → ℕ → ℕ → Type 0 where
  no_sleeper : {n : ℕ} → WakeWorker 0 n 0 n
  one_sleeper : {m n : ℕ} → WakeWorker (suc m) n m (suc n)

-- and here any of the sleeping calls.
pub data WakeCall : List Job → List Job → List Job → List Job → Type 0 where
  no_call : {c : List Job} → WakeCall [] c [] c
  one_call :
      (xs : List Job) (job : Job) (ys : List Job) {c : List Job}
      → WakeCall (xs ++ (job ∷ ys)) c (xs ++ ys) (job ∷ c)

pub data Step (s : System) : System → Type 0 where
  -- a thread calls `thread_pool_submit` with a job that has a socket
  call :
      (job : Job)
      → is_some job.client_socket ≡ true
      → Step s (record s { calling = job ∷ s.calling })
  submit_sleeps :
      (xs : List Job) (job : Job) (ys : List Job)
      → s.calling ≡ xs ++ (job ∷ ys)
      → submit_locked s.pool job ≡ wait_not_full
      → Step s (record s { calling = xs ++ ys; blocked = job ∷ s.blocked })
  submit_fails :
      (xs : List Job) (job : Job) (ys : List Job)
      → s.calling ≡ xs ++ (job ∷ ys)
      → submit_locked s.pool job ≡ refused
      → Step s (record s { calling = xs ++ ys })
  submit_returns :
      (xs : List Job) (job : Job) (ys : List Job) (p : Pool) (asleep ready : ℕ)
      → s.calling ≡ xs ++ (job ∷ ys)
      → submit_locked s.pool job ≡ accepted p
      → WakeWorker s.asleep s.ready asleep ready
      → Step s (record s {
        calling = xs ++ ys;
        pool = p;
        given = s.given ++ (job ∷ []);
        asleep = asleep;
        ready = ready;
      })
  worker_sleeps :
      (n : ℕ)
      → s.ready ≡ suc n
      → take_job s.pool ≡ wait_not_empty
      → Step s (record s { ready = n; asleep = suc s.asleep })
  worker_exits :
      (n : ℕ)
      → s.ready ≡ suc n
      → take_job s.pool ≡ exit_worker
      → Step s (record s { ready = n; exited = suc s.exited })
  worker_takes :
      (n : ℕ) (job : Job) (p : Pool) (blocked calling : List Job)
      → s.ready ≡ suc n
      → take_job s.pool ≡ run_job job p
      → WakeCall s.blocked s.calling blocked calling
      → Step s (record s {
        ready = n;
        pool = p;
        running = job ∷ s.running;
        taken = s.taken ++ (job ∷ []);
        blocked = blocked;
        calling = calling;
      })
  -- the handler returns
  worker_finishes :
      (xs : List Job) (job : Job) (ys : List Job)
      → s.running ≡ xs ++ (job ∷ ys)
      → Step s (record s { running = xs ++ ys; ready = suc s.ready })
  -- a sleeper may wake without a signal, and a signal may wake more than one
  worker_wakes : (n : ℕ) → s.asleep ≡ suc n → Step s (record s { asleep = n; ready = suc s.ready })
  call_wakes :
      (xs : List Job) (job : Job) (ys : List Job)
      → s.blocked ≡ xs ++ (job ∷ ys)
      → Step s (record s { blocked = xs ++ ys; calling = job ∷ s.calling })
  -- `thread_pool_shutdown`, with its two broadcasts
  shuts_down : Step s (record s {
    pool = shutdown s.pool;
    ready = s.ready + s.asleep;
    asleep = 0;
    calling = s.blocked ++ s.calling;
    blocked = [];
  })

pub data Reachable (s : System) : System → Type 0 where
  start : Reachable s s
  next : {t u : System} → Reachable s t → Step t u → Reachable s u
