-- ===== src/Threads/Facts.antt =====
-- What the result of a critical section of src/thread_pool.c tells of the pool before and after it.
use concurrent_http_proxy_se.Base.{
  ℕ, suc, ◌<◌, ◌≡◌, refl, sym, subst, arith, inl, inr, zero, ltb_cases, Bool-cases, Bool, true,
  false, [], ◌∷◌, ◌++◌, if◌then◌else◌,
}
use concurrent_http_proxy_se.Threads.{
  Job, Pool, Taken, wait_not_empty, exit_worker, run_job, take_job, Submitted, wait_not_full,
  refused, accepted, submit_locked, shutdown,
}
use concurrent_http_proxy_se.Threads.Queue.{
  queue, HasSocket, IsPool, queue-left, left-IsPool, queue-joined, joined-IsPool,
}
use concurrent_http_proxy_se.Threads.Refinement.{
  take_job-empty, take_job-some, submit-refused, submit-full, submit-room,
}

-- The fields that only `thread_pool_create` and `thread_pool_shutdown` write.
pub record SameSettings (p q : Pool) : Type 0 where
  pub capacity : q.queue_capacity ≡ p.queue_capacity
  pub workers : q.worker_count ≡ p.worker_count
  pub stop : q.shutting_down ≡ p.shutting_down
  pub sync : q.sync_initialized ≡ p.sync_initialized

pub record TakenFrom (p : Pool) (job : Job) (q : Pool) : Type 0 where
  pub valid : IsPool q
  pub jobs : queue p ≡ job ∷ queue q
  pub size : p.queue_size ≡ suc q.queue_size
  pub settings : SameSettings p q

pub record GivenTo (p : Pool) (job : Job) (q : Pool) : Type 0 where
  pub valid : IsPool q
  pub jobs : queue q ≡ queue p ++ (job ∷ [])
  pub size : q.queue_size ≡ suc p.queue_size
  pub room : p.queue_size < p.queue_capacity
  pub not_stopped : p.shutting_down ≡ false
  pub settings : SameSettings p q

abbrev pub TakeFacts : Pool → Taken Pool → Type 0
TakeFacts p wait_not_empty = (p.queue_size ≡ 0) × (p.shutting_down ≡ false)
TakeFacts p exit_worker = (p.queue_size ≡ 0) × (p.shutting_down ≡ true)
TakeFacts p (run_job job q) = TakenFrom p job q

abbrev pub SubmitFacts : Pool → Job → Submitted Pool → Type 0
SubmitFacts p job wait_not_full = (p.queue_size ≡ p.queue_capacity) × (p.shutting_down ≡ false)
SubmitFacts p job refused = p.shutting_down ≡ true
SubmitFacts p job (accepted q) = GivenTo p job q

no_job_facts :
    (p : Pool) (b : Bool)
    → p.queue_size ≡ 0
    → p.shutting_down ≡ b
    → TakeFacts p (if b then exit_worker else wait_not_empty)
no_job_facts p true e f = (e, f)
no_job_facts p false e f = (e, f)

pub take_facts : (p : Pool) → IsPool p → TakeFacts p (take_job p)
take_facts p v = by_size p.queue_size refl
  where
    by_size : (m : ℕ) → p.queue_size ≡ m → TakeFacts p (take_job p)
    by_size zero e =
        subst (TakeFacts p) (sym (take_job-empty p e)) (no_job_facts p p.shutting_down e refl)
    by_size (suc n) e = subst (TakeFacts p) (sym (take_job-some p n e)) (record {
      valid = (left-IsPool p n v e).0;
      jobs = queue-left p n v e;
      size = omega (arith, e);
      settings = record { capacity = refl; workers = refl; stop = refl; sync = refl };
    })

pub submit_facts :
    (p : Pool) (job : Job) → IsPool p → HasSocket job → SubmitFacts p job (submit_locked p job)
submit_facts p job v s = elim (Bool-cases p.shutting_down) [
  | inl t ↦ subst (SubmitFacts p job) (sym (submit-refused p job t)) t
  | inr f ↦ elim (ltb_cases p.queue_size p.queue_capacity) [
    | inl lt ↦ subst (SubmitFacts p job) (sym (submit-room p job f lt)) (record {
      valid = joined-IsPool p job v lt s;
      jobs = queue-joined p job v lt;
      size = omega arith;
      room = lt;
      not_stopped = f;
      settings = record { capacity = refl; workers = refl; stop = refl; sync = refl };
    })
    | inr ge ↦
        let full : p.queue_size ≡ p.queue_capacity = omega (arith, ge, v.size_le) in
        subst (SubmitFacts p job) (sym (submit-full p job f full)) (full, f)
  ]
]

pub shutdown_lem :
    (p : Pool) → p.sync_initialized ≡ true → shutdown p ≡ record p { shutting_down = true }
unfolding shutdown
shutdown_lem p e = ground (arith, e)
