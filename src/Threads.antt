-- ===== src/Threads.antt =====
-- The thread pool of src/thread_pool.c (its POSIX branch): a ring of jobs, and what each function
-- does to the pool while it holds the mutex. Threads/System.antt puts the threads together.
pub mod Ring
pub mod Fifo
pub mod Queue
pub mod Refinement
pub mod System
pub mod Facts
pub mod Invariant
pub mod Progress
pub mod Create
pub mod Delivery
mod Tests
use concurrent_http_proxy_se.Base.{
  ℕ, zero, suc, ◌+◌, ◌-◌, ◌%◌, ◌==◌, ltb, if◌then◌else◌, Bool, true, false, not, ◌&&◌, ◌||◌, Option,
  none, some, List, [], ◌∷◌, ◌++◌, update, is_some, ℤ, positive, ◌>>=◌,
}
use concurrent_http_proxy_se.Bytes.{Bytes}

-- `client_job_t`; SOCKET_HANDLE_INVALID is `none`.
pub record Job : Type 0 where
  pub client_socket : Option ℕ
  pub client_host : Bytes
  pub client_service : Bytes

-- A job after `client_job_reset`.
abbrev pub reset_job : Job
reset_job = record { client_socket = none; client_host = []; client_service = [] }

-- `struct thread_pool` without the handler, its context and the thread handles. `jobs` is the
-- array of `queue_capacity` jobs, read and written at indices below `queue_capacity` only.
pub record Pool : Type 0 where
  pub jobs : ℕ → Job
  pub queue_capacity : ℕ
  pub queue_size : ℕ
  pub queue_head : ℕ
  pub queue_tail : ℕ
  pub worker_count : ℕ
  pub shutting_down : Bool
  pub threads_started : ℕ
  pub sync_initialized : Bool

-- What a worker does with the mutex held: it sleeps on `queue_not_empty`, it leaves its loop, or
-- it goes on to run a job. `S` is the state left behind.
pub data Taken (S : Type 0) : Type 0 where
  wait_not_empty exit_worker : Taken S
  run_job : Job → S → Taken S

unfoldable pub take_job : Pool → Taken Pool
take_job p =
    if (p.queue_size == 0) && not p.shutting_down
    then wait_not_empty
    else if (p.queue_size == 0) && p.shutting_down
    then exit_worker
    else run_job (p.jobs p.queue_head) (record p {
      jobs = update p.jobs p.queue_head reset_job;
      queue_head = (p.queue_head + 1) % p.queue_capacity;
      queue_size = p.queue_size - 1;
    })

-- What `thread_pool_submit` does: it sleeps on `queue_not_full`, it returns -1 or it returns 0.
pub data Submitted (S : Type 0) : Type 0 where
  wait_not_full refused : Submitted S
  accepted : S → Submitted S

-- `thread_pool_submit`, from the lock on.
unfoldable pub submit_locked : Pool → Job → Submitted Pool
submit_locked p job =
    if (p.queue_size == p.queue_capacity) && not p.shutting_down
    then wait_not_full
    else if p.shutting_down
    then refused
    else accepted (record p {
      jobs = update p.jobs p.queue_tail job;
      queue_tail = (p.queue_tail + 1) % p.queue_capacity;
      queue_size = p.queue_size + 1;
    })

-- `thread_pool_submit`; a NULL argument is `none`.
unfoldable pub submit : Option Pool → Option Job → Submitted Pool
submit none job = refused
submit (some p) none = refused
submit (some p) (some job) = if is_some job.client_socket then submit_locked p job else refused

-- `thread_pool_shutdown`; it also wakes all the threads.
unfoldable pub shutdown : Pool → Pool
shutdown p = if p.sync_initialized then record p { shutting_down = true } else p

-- The sockets that the last loop of `thread_pool_destroy` closes, `n` jobs from `index` on.
unfoldable pub close_jobs : (ℕ → Job) → ℕ → ℕ → List ℕ
close_jobs jobs index zero = []
close_jobs jobs index (suc n) =
    let rest = close_jobs jobs (index + 1) n in
    elim (jobs index).client_socket [ none ↦ rest | some s ↦ s ∷ rest ]

-- `thread_pool_destroy` after it has joined the threads; `jobs` was allocated.
unfoldable pub destroy : Pool → List ℕ
destroy p = close_jobs p.jobs 0 p.queue_capacity

-- The loop that starts the threads; `starts i` is whether the thread `i` starts.
unfoldable pub start_threads : (ℕ → Bool) → ℕ → ℕ → Pool → Option Pool
start_threads starts index zero p = some p
start_threads starts index (suc n) p =
    let rest =
      start_threads starts (index + 1) n (record p { threads_started = p.threads_started + 1 }) in
    if starts index then rest else none

-- `thread_pool_create`. The Booleans tell whether the handler is given and whether each of the
-- three allocations succeeds.
unfoldable pub create : ℤ → ℤ → Bool → Bool → Bool → Bool → (ℕ → Bool) → Option Pool
create worker_count queue_capacity handler pool_memory jobs_memory threads_memory starts = do
  workers ← positive worker_count
  capacity ← positive queue_capacity
  if handler && pool_memory && jobs_memory && threads_memory
      then start_threads starts 0 workers (record {
        jobs = λ _. reset_job;
        queue_capacity = capacity;
        queue_size = 0;
        queue_head = 0;
        queue_tail = 0;
        worker_count = workers;
        shutting_down = false;
        threads_started = 0;
        sync_initialized = true;
      })
      else none
