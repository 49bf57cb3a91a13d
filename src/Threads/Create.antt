-- ===== src/Threads/Create.antt =====
-- A pool that `thread_pool_create` returns, and the sockets that `thread_pool_destroy` closes.
use concurrent_http_proxy_se.Base.{
  ℕ, zero, suc, ◌+◌, ◌-◌, ◌<◌, ◌≡◌, refl, sym, ap, ◌∙◌, subst, arith, Bool, true, false, ◌&&◌,
  Option, none, some, some_injective, List, [], ◌∷◌, inl, inr, ltb_cases, Bool-cases, if◌then◌else◌,
  ℤ, pos, negsuc,
}
use concurrent_http_proxy_se.Threads.{
  Job, reset_job, Pool, start_threads, create, close_jobs, destroy,
}
use concurrent_http_proxy_se.Threads.Ring.{at}
use concurrent_http_proxy_se.Threads.Queue.{IsPool}

pub record IsFresh (p : Pool) : Type 0 where
  pub valid : IsPool p
  pub no_jobs : p.queue_size ≡ 0
  pub sync : p.sync_initialized ≡ true
  pub not_stopped : p.shutting_down ≡ false
  pub has_workers : 0 < p.worker_count
  pub all_started : p.threads_started ≡ p.worker_count

-- If all threads start, `threads_started` counts them; if one does not, there is no pool.
start_threads_lem :
    (starts : ℕ → Bool) (index n : ℕ) (p q : Pool)
    → start_threads starts index n p ≡ some q
    → record p { threads_started = p.threads_started + n } ≡ q
unfolding start_threads
start_threads_lem starts index zero p q e =
    ap (λ m. record p { threads_started = m }) (omega arith) ∙ some_injective e
start_threads_lem starts index (suc n) p q e = elim (Bool-cases (starts index)) [
  | inl t ↦
      ap (λ m. record p { threads_started = m }) (omega arith)
      ∙ start_threads_lem starts (index + 1) n
          (record p { threads_started = p.threads_started + 1 }) q
          (sym (ap (λ b. if b then rest else none) t) ∙ e)
  | inr f ↦ absurd (cc (sym (ap (λ b. if b then rest else none) f) ∙ e))
]
  where
    rest : Option Pool
    rest = start_threads starts (index + 1) n (record p { threads_started = p.threads_started + 1 })

fresh_pool : ℕ → ℕ → ℕ → Pool
fresh_pool workers capacity started = record {
  jobs = λ _. reset_job;
  queue_capacity = capacity;
  queue_size = 0;
  queue_head = 0;
  queue_tail = 0;
  worker_count = workers;
  shutting_down = false;
  threads_started = started;
  sync_initialized = true;
}

fresh_pool-IsFresh : (w c : ℕ) → IsFresh (fresh_pool (suc w) (suc c) (0 + suc w))
unfolding fresh_pool
fresh_pool-IsFresh w c = record {
  valid = record {
    head_lt = omega arith;
    size_le = omega arith;
    tail_eq = ground arith;
    free = λ k a b. refl;
    sockets = tt;
  };
  no_jobs = refl;
  sync = refl;
  not_stopped = refl;
  has_workers = omega arith;
  all_started = omega arith;
}

-- Every pool that `thread_pool_create` returns is well-formed, empty and not shutting down, and has
-- started all its workers, of which it has one at least.
pub create-IsFresh :
    (w c : ℤ) (handler pool_memory jobs_memory threads_memory : Bool) (starts : ℕ → Bool) (p : Pool)
    → create w c handler pool_memory jobs_memory threads_memory starts ≡ some p
    → IsFresh p
unfolding create fresh_pool
create-IsFresh (negsuc w) c h a b d starts p e = absurd (cc e)
create-IsFresh (pos zero) c h a b d starts p e = absurd (cc e)
create-IsFresh (pos (suc w)) (negsuc c) h a b d starts p e = absurd (cc e)
create-IsFresh (pos (suc w)) (pos zero) h a b d starts p e = absurd (cc e)
create-IsFresh (pos (suc w)) (pos (suc c)) h a b d starts p e =
    elim (Bool-cases (h && a && b && d)) [
      | inl t ↦
          subst IsFresh
            (start_threads_lem starts 0 (suc w) (fresh_pool (suc w) (suc c) 0) p
              (sym (ap (λ x. if x then result else none) t) ∙ e))
            (fresh_pool-IsFresh w c)
      | inr f ↦ absurd (cc (sym (ap (λ x. if x then result else none) f) ∙ e))
    ]
  where
    result : Option Pool
    result = start_threads starts 0 (suc w) (fresh_pool (suc w) (suc c) 0)

-- Every index of the ring is some place counted from the head.
place_of : (size head i : ℕ) → head < size → i < size → (k : ℕ) × (k < size) × (at size head k ≡ i)
place_of size head i h b = elim (ltb_cases i head) [
  | inl lt ↦ (i + size - head, omega arith, ground arith)
  | inr ge ↦ (i - head, omega arith, ground arith)
]

close_jobs-none :
    (jobs : ℕ → Job) (index n : ℕ)
    → ((i : ℕ) → i < index + n → jobs i ≡ reset_job)
    → close_jobs jobs index n ≡ []
unfolding close_jobs
close_jobs-none jobs index zero h = refl
close_jobs-none jobs index (suc n) h =
    ap (λ job. elim job.client_socket [ none ↦ rest | some s ↦ s ∷ rest ]) (h index (omega arith))
    ∙ close_jobs-none jobs (index + 1) n (λ i b. h i (omega arith))
  where
    rest : List ℕ
    rest = close_jobs jobs (index + 1) n

pub destroy-empty : (p : Pool) → IsPool p → p.queue_size ≡ 0 → destroy p ≡ []
unfolding destroy
destroy-empty p v e = close_jobs-none p.jobs 0 p.queue_capacity clean
  where
    clean : (i : ℕ) → i < 0 + p.queue_capacity → p.jobs i ≡ reset_job
    clean i b =
        let (k, lt, at_i) = place_of p.queue_capacity p.queue_head i v.head_lt (omega arith) in
        sym (ap p.jobs at_i) ∙ v.free k (omega (arith, e)) lt
