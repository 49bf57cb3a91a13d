-- ===== src/Threads/Fifo.antt =====
-- What the queue of src/thread_pool.c promises: a bounded first-in, first-out queue that can be
-- stopped, without the ring.
use concurrent_http_proxy_se.Base.{ℕ, ◌==◌, length, if◌then◌else◌, Bool, List, [], ◌∷◌, ◌++◌}
use concurrent_http_proxy_se.Threads.{
  Job, Taken, wait_not_empty, exit_worker, run_job, Submitted, wait_not_full, refused, accepted,
}

pub record Fifo : Type 0 where
  pub waiting : List Job
  pub capacity : ℕ
  pub stopped : Bool

abbrev pub take : Fifo → Taken Fifo
take q = elim q.waiting [
  | [] ↦ if q.stopped then exit_worker else wait_not_empty
  | job ∷ rest ↦ run_job job (record q { waiting = rest })
]

abbrev pub submit : Fifo → Job → Submitted Fifo
submit q job =
    if q.stopped
    then refused
    else if length q.waiting == q.capacity
    then wait_not_full
    else accepted (record q { waiting = q.waiting ++ (job ∷ []) })

abbrev pub map_taken : {A B : Type 0} → (A → B) → Taken A → Taken B
map_taken f wait_not_empty = wait_not_empty
map_taken f exit_worker = exit_worker
map_taken f (run_job job s) = run_job job (f s)

abbrev pub map_submitted : {A B : Type 0} → (A → B) → Submitted A → Submitted B
map_submitted f wait_not_full = wait_not_full
map_submitted f refused = refused
map_submitted f (accepted s) = accepted (f s)
