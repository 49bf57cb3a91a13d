-- ===== src/Threads/Refinement.antt =====
-- What a worker and `thread_pool_submit` do to the ring is what the queue promises.
use concurrent_http_proxy_se.Base.{
  ℕ, zero, suc, ◌≤◌, ◌<◌, ◌≡◌, refl, sym, ap, ◌∙◌, subst, ◌==◌, arith, if◌then◌else◌, inl, inr,
  ltb_cases, Bool-cases, length, Bool, true, false, List, [], ◌∷◌, ◌++◌,
}
use concurrent_http_proxy_se.Threads.{
  Job, Pool, Taken, wait_not_empty, exit_worker, run_job, take_job, Submitted, wait_not_full,
  refused, accepted, submit_locked,
}
use concurrent_http_proxy_se.Threads.Fifo
use concurrent_http_proxy_se.Threads.Fifo.{Fifo, map_taken, map_submitted}
use concurrent_http_proxy_se.Threads.Ring.{slice}
use concurrent_http_proxy_se.Threads.Queue.{
  queue, fifo, HasSocket, IsPool, left, joined, queue-left, left-IsPool, queue-joined,
  joined-IsPool, length-slice,
}

-- Well-formedness of what is left behind.
abbrev pub KeptByTake : Taken Pool → Type 0
KeptByTake wait_not_empty = Unit
KeptByTake exit_worker = Unit
KeptByTake (run_job job p) = IsPool p × HasSocket job

abbrev pub KeptBySubmit : Submitted Pool → Type 0
KeptBySubmit wait_not_full = Unit
KeptBySubmit refused = Unit
KeptBySubmit (accepted p) = IsPool p

pub take_job-empty :
    (p : Pool)
    → p.queue_size ≡ 0
    → take_job p ≡ (if p.shutting_down then exit_worker else wait_not_empty)
unfolding take_job
take_job-empty p e = ground (arith, e)

pub take_job-some :
    (p : Pool) (n : ℕ) → p.queue_size ≡ suc n → take_job p ≡ run_job (p.jobs p.queue_head) (left p)
unfolding take_job
take_job-some p n e = ground (arith, e)

pub submit-refused : (p : Pool) (job : Job) → p.shutting_down ≡ true → submit_locked p job ≡ refused
unfolding submit_locked
submit-refused p job e = ground (arith, e)

pub submit-full :
    (p : Pool) (job : Job)
    → p.shutting_down ≡ false
    → p.queue_size ≡ p.queue_capacity
    → submit_locked p job ≡ wait_not_full
unfolding submit_locked
submit-full p job e f = ground (arith, e, f)

pub submit-room :
    (p : Pool) (job : Job)
    → p.shutting_down ≡ false
    → p.queue_size < p.queue_capacity
    → submit_locked p job ≡ accepted (joined p job)
unfolding submit_locked
submit-room p job e f = ground (arith, e, f)

-- A result of the code beside what the queue does.
abbrev TakeRefines : Taken Pool → Taken Fifo → Type 0
TakeRefines r q = (map_taken fifo r ≡ q) × KeptByTake r

abbrev SubmitRefines : Submitted Pool → Submitted Fifo → Type 0
SubmitRefines r q = (map_submitted fifo r ≡ q) × KeptBySubmit r

-- The queue of the pool with these jobs waiting.
abbrev with_waiting : Pool → List Job → Fifo
with_waiting p w = record { waiting = w; capacity = p.queue_capacity; stopped = p.shutting_down }

no_job :
    (b : Bool)
    → TakeRefines
        (if b then exit_worker else wait_not_empty)
        (if b then exit_worker else wait_not_empty)
no_job true = (refl, tt)
no_job false = (refl, tt)

-- With a well-formed pool a worker that holds the mutex takes exactly the step of the first-in,
-- first-out queue: it gets the oldest job, and with no job it leaves if the pool is shutting down
-- and sleeps if not. The pool stays well-formed and the job has a socket.
pub take_job_refines :
    (p : Pool)
    → IsPool p
    → (map_taken fifo (take_job p) ≡ Fifo.take (fifo p)) × KeptByTake (take_job p)
take_job_refines p v = by_size p.queue_size refl
  where
    by_size : (m : ℕ) → p.queue_size ≡ m → TakeRefines (take_job p) (Fifo.take (fifo p))
    by_size zero e =
        subst (λ r. TakeRefines r (Fifo.take (fifo p))) (sym (take_job-empty p e))
          (subst (TakeRefines (if p.shutting_down then exit_worker else wait_not_empty))
            (sym (
              ap (λ m. Fifo.take (with_waiting p (slice p.jobs p.queue_capacity p.queue_head 0 m)))
                e))
            (no_job p.shutting_down))
    by_size (suc n) e =
        subst (λ r. TakeRefines r (Fifo.take (fifo p))) (sym (take_job-some p n e))
          (sym (ap (λ w. Fifo.take (with_waiting p w)) (queue-left p n v e)), left-IsPool p n v e)

fifo_refused : (p : Pool) (job : Job) → p.shutting_down ≡ true → Fifo.submit (fifo p) job ≡ refused
fifo_refused p job e = rw e

fifo_not_stopped :
    (p : Pool) (job : Job)
    → p.shutting_down ≡ false
    → Fifo.submit (fifo p) job ≡ (
        if p.queue_size == p.queue_capacity
        then wait_not_full
        else accepted (with_waiting p (queue p ++ (job ∷ []))))
fifo_not_stopped p job e =
    ap
      (λ b.
        if b
        then refused
        else if length (queue p) == p.queue_capacity
        then wait_not_full
        else accepted (with_waiting p (queue p ++ (job ∷ []))))
      e
    ∙ ap
        (λ m.
          if m == p.queue_capacity
          then wait_not_full
          else accepted (with_waiting p (queue p ++ (job ∷ []))))
        (length-slice p.jobs p.queue_capacity p.queue_head 0 p.queue_size)

-- With a well-formed pool and a job with a socket, `thread_pool_submit` takes exactly the step of
-- the first-in, first-out queue: it refuses the job when the pool is shutting down, sleeps when
-- the queue is full and appends the job if not. The pool stays well-formed.
pub submit_refines :
    (p : Pool) (job : Job)
    → IsPool p
    → HasSocket job
    → (map_submitted fifo (submit_locked p job) ≡ Fifo.submit (fifo p) job)
      × KeptBySubmit (submit_locked p job)
submit_refines p job v s = elim (Bool-cases p.shutting_down) [
  | inl t ↦
      subst (λ r. SubmitRefines r (Fifo.submit (fifo p) job)) (sym (submit-refused p job t))
        (sym (fifo_refused p job t), tt)
  | inr f ↦ elim (ltb_cases p.queue_size p.queue_capacity) [
    | inl lt ↦
        subst (λ r. SubmitRefines r (Fifo.submit (fifo p) job)) (sym (submit-room p job f lt))
          (
            sym (
                fifo_not_stopped p job f
                ∙ room_left lt
                ∙ ap (λ w. accepted (with_waiting p w)) (sym (queue-joined p job v lt))),
            joined-IsPool p job v lt s,
          )
    | inr ge ↦
        subst (λ r. SubmitRefines r (Fifo.submit (fifo p) job))
          (sym (submit-full p job f (omega (arith, ge, v.size_le))))
          (sym (fifo_not_stopped p job f ∙ no_room ge), tt)
  ]
]
  where
    here : Submitted Fifo
    here = accepted (with_waiting p (queue p ++ (job ∷ [])))

    room_left :
        p.queue_size < p.queue_capacity
        → (if p.queue_size == p.queue_capacity then wait_not_full else here) ≡ here
    room_left lt = ground arith

    no_room :
        p.queue_capacity ≤ p.queue_size
        → (if p.queue_size == p.queue_capacity then wait_not_full else here) ≡ wait_not_full
    no_room ge = ground (arith, v.size_le)
