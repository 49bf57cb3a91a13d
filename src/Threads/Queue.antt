-- ===== src/Threads/Queue.antt =====
-- The ring of src/thread_pool.c is a first-in, first-out queue.
use concurrent_http_proxy_se.Base.{
  ℕ, zero, suc, ◌+◌, ◌-◌, ◌%◌, ◌≤◌, ◌<◌, ◌≡◌, ◌≢◌, refl, sym, ap, ◌∙◌, subst, arith, inl, inr,
  ltb_cases, length, All, All-append, true, List, [], ◌∷◌, ◌++◌, update, update_ne, update_self,
  is_some,
}
use concurrent_http_proxy_se.Threads.{Job, reset_job, Pool}
use concurrent_http_proxy_se.Threads.Fifo.{Fifo}
use concurrent_http_proxy_se.Threads.Ring.{
  at, slice, at_lt, at_zero, at_full, at-at, at_step, at_ne, next_lem, slice-leave, slice-join,
}

-- The jobs in the ring, the oldest first.
abbrev pub queue : Pool → List Job
queue p = slice p.jobs p.queue_capacity p.queue_head 0 p.queue_size

abbrev pub fifo : Pool → Fifo
fifo p = record { waiting = queue p; capacity = p.queue_capacity; stopped = p.shutting_down }

abbrev pub HasSocket : Job → Type 0
HasSocket job = is_some job.client_socket ≡ true

-- The indices are in range, the tail stands behind the last job, the rest of the array is reset
-- and a queued job has a socket.
pub record IsPool (p : Pool) : Type 0 where
  pub head_lt : p.queue_head < p.queue_capacity
  pub size_le : p.queue_size ≤ p.queue_capacity
  pub tail_eq : p.queue_tail ≡ at p.queue_capacity p.queue_head p.queue_size
  pub free :
      (k : ℕ)
      → p.queue_size ≤ k
      → k < p.queue_capacity
      → p.jobs (at p.queue_capacity p.queue_head k) ≡ reset_job
  pub sockets : All HasSocket (queue p)

pub length-slice : (f : ℕ → Job) (size head k n : ℕ) → length (slice f size head k n) ≡ n
length-slice f size head k zero = refl
length-slice f size head k (suc n) = ap suc (length-slice f size head (k + 1) n)

-- The pool after a job has left, and after one has come.
abbrev pub left : Pool → Pool
left p = record p {
  jobs = update p.jobs p.queue_head reset_job;
  queue_head = (p.queue_head + 1) % p.queue_capacity;
  queue_size = p.queue_size - 1;
}

abbrev pub joined : Pool → Job → Pool
joined p job = record p {
  jobs = update p.jobs p.queue_tail job;
  queue_tail = (p.queue_tail + 1) % p.queue_capacity;
  queue_size = p.queue_size + 1;
}

head_free :
    (p : Pool)
    → IsPool p
    → (k : ℕ) → 0 < k
    → k < p.queue_capacity
    → p.queue_head ≢ at p.queue_capacity p.queue_head k
head_free p v k h b e =
    at_ne p.queue_capacity p.queue_head 0 k v.head_lt h b
      (at_zero p.queue_capacity p.queue_head v.head_lt ∙ e)

pub queue-left :
    (p : Pool) (n : ℕ)
    → IsPool p
    → p.queue_size ≡ suc n
    → queue p ≡ p.jobs p.queue_head ∷ queue (left p)
queue-left p n v e =
    ap (λ m. slice p.jobs p.queue_capacity p.queue_head 0 m) e
    ∙ slice-leave p.jobs reset_job p.queue_capacity p.queue_head n v.head_lt small
    ∙ ap (λ i. p.jobs p.queue_head ∷ slice (left p).jobs p.queue_capacity i 0 n)
        (sym (next_lem p.queue_capacity p.queue_head v.head_lt))
    ∙ ap (λ m. p.jobs p.queue_head ∷ slice (left p).jobs p.queue_capacity (left p).queue_head 0 m)
        (omega (arith, e))
  where
    small : n < p.queue_capacity
    small = omega (arith, v.size_le, e)

-- A place counted from the new head.
after_left :
    (p : Pool) (k : ℕ)
    → IsPool p
    → k < p.queue_capacity
    → at p.queue_capacity (left p).queue_head k ≡ at p.queue_capacity p.queue_head (k + 1)
after_left p k v b =
    ap (λ i. at p.queue_capacity i k) (next_lem p.queue_capacity p.queue_head v.head_lt)
    ∙ at-at p.queue_capacity p.queue_head k v.head_lt b

-- The last place counted from the new head is the one the job has left.
left_free :
    (p : Pool) (n : ℕ)
    → IsPool p
    → p.queue_size ≡ suc n
    → (k : ℕ) → n ≤ k
    → k < p.queue_capacity
    → (left p).jobs (at p.queue_capacity p.queue_head (k + 1)) ≡ reset_job
left_free p n v e k a b = elim (ltb_cases (k + 1) p.queue_capacity) [
  | inl lt ↦
      update_ne p.jobs p.queue_head reset_job (at p.queue_capacity p.queue_head (k + 1))
        (head_free p v (k + 1) (omega arith) lt)
      ∙ v.free (k + 1) (omega (arith, e, a)) lt
  | inr ge ↦
      ap (left p).jobs (
        ap (at p.queue_capacity p.queue_head) (omega (arith, b, ge))
        ∙ at_full p.queue_capacity p.queue_head v.head_lt)
      ∙ update_self p.jobs p.queue_head reset_job
]

pub left-IsPool :
    (p : Pool) (n : ℕ)
    → IsPool p
    → p.queue_size ≡ suc n
    → IsPool (left p) × HasSocket (p.jobs p.queue_head)
left-IsPool p n v e = (
  record {
    head_lt =
        subst (λ i. i < p.queue_capacity) (sym (next_lem p.queue_capacity p.queue_head v.head_lt))
          (at_lt p.queue_capacity p.queue_head 1 v.head_lt (omega (arith, v.head_lt)));
    size_le = omega (arith, v.size_le);
    tail_eq =
        v.tail_eq
        ∙ ap (at p.queue_capacity p.queue_head) (omega (arith, e))
        ∙ sym (after_left p (p.queue_size - 1) v (omega (arith, e, v.size_le)));
    free = λ k a b.
        ap (left p).jobs (after_left p k v b) ∙ left_free p n v e k (omega (arith, e, a)) b;
    sockets = both.1;
  },
  both.0,
)
  where
    both : All HasSocket (p.jobs p.queue_head ∷ queue (left p))
    both = subst (All HasSocket) (queue-left p n v e) v.sockets

pub queue-joined :
    (p : Pool) (job : Job)
    → IsPool p
    → p.queue_size < p.queue_capacity
    → queue (joined p job) ≡ queue p ++ (job ∷ [])
queue-joined p job v h =
    ap (λ m. slice (joined p job).jobs p.queue_capacity p.queue_head 0 m) {y = suc p.queue_size}
      (omega arith)
    ∙ ap (λ i. slice (update p.jobs i job) p.queue_capacity p.queue_head 0 (suc p.queue_size))
        v.tail_eq
    ∙ slice-join p.jobs job p.queue_capacity p.queue_head p.queue_size v.head_lt h

pub joined-IsPool :
    (p : Pool) (job : Job)
    → IsPool p
    → p.queue_size < p.queue_capacity
    → HasSocket job
    → IsPool (joined p job)
joined-IsPool p job v h s = record {
  head_lt = v.head_lt;
  size_le = omega (arith, h);
  tail_eq =
      next_lem p.queue_capacity p.queue_tail (
        subst (λ i. i < p.queue_capacity) (sym v.tail_eq)
          (at_lt p.queue_capacity p.queue_head p.queue_size v.head_lt v.size_le))
      ∙ ap (λ i. at p.queue_capacity i 1) v.tail_eq
      ∙ at_step p.queue_capacity p.queue_head p.queue_size v.head_lt h;
  free = λ k a b.
      update_ne p.jobs p.queue_tail job (at p.queue_capacity p.queue_head k) (λ e.
        at_ne p.queue_capacity p.queue_head p.queue_size k v.head_lt (omega (arith, a)) b
          (sym v.tail_eq ∙ e))
      ∙ v.free k (omega (arith, a)) b;
  sockets =
      subst (All HasSocket) (sym (queue-joined p job v h))
        (All-append HasSocket (queue p) (job ∷ []) v.sockets (s, tt));
}
