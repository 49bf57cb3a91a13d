-- ===== src/Threads/Delivery.antt =====
-- What the thread pool of src/thread_pool.c guarantees in every state that its threads can reach.
use concurrent_http_proxy_se.Base.{
  ℕ, ◌<◌, ◌≡◌, sym, ap, ◌∙◌, arith, ◌⊎◌, inl, inr, Bool, some, [], ◌++◌, append-nil, length,
  ltb_cases, ℤ,
}
use concurrent_http_proxy_se.Threads.{Pool, create, destroy}
use concurrent_http_proxy_se.Threads.Ring.{slice}
use concurrent_http_proxy_se.Threads.Queue.{queue, IsPool}
use concurrent_http_proxy_se.Threads.Create.{IsFresh, create-IsFresh, destroy-empty}
use concurrent_http_proxy_se.Threads.Invariant.{IsSound, IsAlive, Step-IsSound}
use concurrent_http_proxy_se.Threads.Progress.{Step-IsAlive}
use concurrent_http_proxy_se.Threads.System.{System, started, Reachable, start, next}

empty_queue : (p : Pool) → p.queue_size ≡ 0 → queue p ≡ []
empty_queue p e = ap (slice p.jobs p.queue_capacity p.queue_head 0) e

started-IsSound : (p : Pool) → IsFresh p → IsSound (started p)
started-IsSound p f = record {
  valid = f.valid;
  sync = f.sync;
  has_workers = f.has_workers;
  order = sym (empty_queue p f.no_jobs);
  awake_calls = tt;
  blocked_calls = tt;
}

started-IsAlive : (p : Pool) → IsAlive (started p)
started-IsAlive p = record {
  jobs_seen = λ h. absurd (omega arith);
  worker_sleep = λ h. absurd (omega arith);
  room_seen = λ h. absurd (omega arith);
  call_sleep = λ h. absurd (omega arith);
  gone_empty = λ h. absurd (omega arith);
  gone_stopped = λ h. absurd (omega arith);
  count = omega arith;
}

pub invariant :
    {p : Pool} {s : System} → IsFresh p → Reachable (started p) s → IsSound s × IsAlive s
invariant {p} f start = (started-IsSound p f, started-IsAlive p)
invariant f (next r st) = let (i, a) = invariant f r in (Step-IsSound st i, Step-IsAlive st i a)

module _ (workers capacity : ℤ) (handler pool_memory jobs_memory threads_memory : Bool)
    (starts : ℕ → Bool) (p : Pool) (s : System)
    (made : create workers capacity handler pool_memory jobs_memory threads_memory starts ≡ some p)
    (reached : Reachable (started p) s) where
  fresh : IsFresh p
  fresh =
      create-IsFresh workers capacity handler pool_memory jobs_memory threads_memory starts p made

  -- Whatever the threads of a created pool do, in any order: the jobs that were put into the queue
  -- are those that workers took, in that order, followed by those that wait in the ring. No job is
  -- lost, run twice or overtaken, and the ring stays well-formed.
  pub delivery : (s.given ≡ s.taken ++ queue s.pool) × IsPool s.pool
  delivery = let (i, a) = invariant fresh reached in (i.order, i.valid)

  -- Whatever the threads of a created pool do, in any order: while a job waits, a worker is awake
  -- in its loop or runs a job, and while a call of `thread_pool_submit` sleeps, another is awake or
  -- the queue is full. So no signal is lost.
  pub no_lost_signal :
      (0 < s.pool.queue_size → (0 < s.ready) ⊎ (0 < length s.running))
      × (0 < length s.blocked
          → (0 < length s.calling) ⊎ (s.pool.queue_size ≡ s.pool.queue_capacity))
  no_lost_signal = (worker_there (invariant fresh reached), call_there (invariant fresh reached))
    where
      worker_there :
          IsSound s × IsAlive s → 0 < s.pool.queue_size → (0 < s.ready) ⊎ (0 < length s.running)
      worker_there (i, a) h = elim (ltb_cases 0 s.ready) [
        | inl lt ↦ inl lt
        | inr none_ready ↦ elim (ltb_cases 0 s.asleep) [
          | inl lt ↦ inl (omega (arith, a.jobs_seen lt))
          | inr none_asleep ↦ elim (ltb_cases 0 s.exited) [
            | inl lt ↦ absurd (omega (arith, a.gone_empty lt))
            | inr none_exited ↦ inr (omega (arith, a.count, i.has_workers))
          ]
        ]
      ]

      call_there :
          IsSound s × IsAlive s
          → 0 < length s.blocked
          → (0 < length s.calling) ⊎ (s.pool.queue_size ≡ s.pool.queue_capacity)
      call_there (i, a) h = elim (ltb_cases 0 (length s.calling)) [
        | inl lt ↦ inl lt
        | inr ge ↦ inr (omega (arith, a.room_seen h, i.valid.size_le))
      ]

  -- Once a worker has left its loop, every job that was put into the queue has been taken by a
  -- worker, and `thread_pool_destroy` closes no socket.
  pub drained : 0 < s.exited → (s.taken ≡ s.given) × (destroy s.pool ≡ [])
  drained h =
      let (i, a) = invariant fresh reached in
      (
        sym (
            i.order ∙ ap (◌++◌ s.taken) (empty_queue s.pool (a.gone_empty h)) ∙ append-nil s.taken),
        destroy-empty s.pool i.valid (a.gone_empty h),
      )
