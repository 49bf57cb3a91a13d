-- ===== src/Threads/Progress.antt =====
-- No signal of src/thread_pool.c is lost: the part of the invariant that keeps the threads going.
use concurrent_http_proxy_se.Base.{
  ℕ, suc, ◌+◌, ◌<◌, ◌≡◌, refl, sym, ap, ◌∙◌, subst, arith, true, false, List, [], ◌∷◌, ◌++◌, length,
  length-mid,
}
use concurrent_http_proxy_se.Threads.{Job, Pool}
use concurrent_http_proxy_se.Threads.Facts.{
  TakenFrom, GivenTo, TakeFacts, SubmitFacts, take_facts, submit_facts,
}
use concurrent_http_proxy_se.Threads.Invariant.{
  IsSound, IsAlive, taken_facts, socket_of, given_facts, stopped_pool,
}
use concurrent_http_proxy_se.Threads.System.{
  System, WakeWorker, no_sleeper, one_sleeper, WakeCall, no_call, one_call, Step, call,
  submit_sleeps, submit_fails, submit_returns, worker_sleeps, worker_exits, worker_takes,
  worker_finishes, worker_wakes, call_wakes, shuts_down,
}

length_out :
    {c : List Job} (xs : List Job) (job : Job) (ys : List Job)
    → c ≡ xs ++ (job ∷ ys)
    → length c ≡ suc (length (xs ++ ys))
length_out xs job ys e = ap length e ∙ length-mid xs job ys

call-IsAlive :
    {s : System} (job : Job) → IsAlive s → IsAlive (record s { calling = job ∷ s.calling })
call-IsAlive job v = record {
  jobs_seen = v.jobs_seen;
  worker_sleep = v.worker_sleep;
  room_seen = λ h. omega (arith, v.room_seen h);
  call_sleep = v.call_sleep;
  gone_empty = v.gone_empty;
  gone_stopped = v.gone_stopped;
  count = v.count;
}

-- A call leaves when the pool shuts down, and then no call sleeps.
submit_fails-IsAlive :
    {s : System} (c : List Job)
    → s.pool.shutting_down ≡ true
    → IsAlive s
    → IsAlive (record s { calling = c })
submit_fails-IsAlive c stop v = record {
  jobs_seen = v.jobs_seen;
  worker_sleep = v.worker_sleep;
  room_seen = λ h. ground (arith, stop, v.call_sleep h);
  call_sleep = v.call_sleep;
  gone_empty = v.gone_empty;
  gone_stopped = v.gone_stopped;
  count = v.count;
}

submit_sleeps-IsAlive :
    {s : System} (c : List Job) (job : Job)
    → s.pool.queue_size ≡ s.pool.queue_capacity
    → s.pool.shutting_down ≡ false
    → IsAlive s
    → IsAlive (record s { calling = c; blocked = job ∷ s.blocked })
submit_sleeps-IsAlive c job full run v = record {
  jobs_seen = v.jobs_seen;
  worker_sleep = v.worker_sleep;
  room_seen = λ h. omega (arith, full);
  call_sleep = λ h. run;
  gone_empty = v.gone_empty;
  gone_stopped = v.gone_stopped;
  count = v.count;
}

-- The counts of the workers after a signal.
wake_sum : {m n m2 n2 : ℕ} → WakeWorker m n m2 n2 → n2 + m2 ≡ n + m
wake_sum no_sleeper = refl
wake_sum one_sleeper = omega arith

wake_ready : {m n m2 n2 : ℕ} → WakeWorker m n m2 n2 → 0 < m2 → (0 < m) × (n2 ≡ suc n)
wake_ready no_sleeper h = absurd (omega arith)
wake_ready one_sleeper h = (omega arith, refl)

submit_returns-IsAlive :
    {s : System} (job : Job) (c g : List Job) (p : Pool) (a r : ℕ)
    → GivenTo s.pool job p
    → length s.calling ≡ suc (length c)
    → WakeWorker s.asleep s.ready a r
    → IsAlive s
    → IsAlive (record s { calling = c; pool = p; given = g; asleep = a; ready = r })
submit_returns-IsAlive {s} job c g p a r f e w v = record {
  jobs_seen = λ h. let k = wake_ready w h in omega (arith, v.jobs_seen k.0, k.1, f.size);
  worker_sleep = λ h. f.settings.stop ∙ f.not_stopped;
  room_seen = λ h. omega (arith, v.room_seen h, e, f.size, f.settings.capacity);
  call_sleep = λ h. f.settings.stop ∙ f.not_stopped;
  gone_empty = λ h. ground (arith, v.gone_stopped h, f.not_stopped);
  gone_stopped = λ h. f.settings.stop ∙ v.gone_stopped h;
  count = omega (arith, v.count, wake_sum w, f.settings.workers);
}

worker_sleeps-IsAlive :
    {s : System} (n : ℕ)
    → s.ready ≡ suc n
    → s.pool.queue_size ≡ 0
    → s.pool.shutting_down ≡ false
    → IsAlive s
    → IsAlive (record s { ready = n; asleep = suc s.asleep })
worker_sleeps-IsAlive n e empty run v = record {
  jobs_seen = λ h. omega (arith, empty);
  worker_sleep = λ h. run;
  room_seen = v.room_seen;
  call_sleep = v.call_sleep;
  gone_empty = v.gone_empty;
  gone_stopped = v.gone_stopped;
  count = omega (arith, v.count, e);
}

worker_exits-IsAlive :
    {s : System} (n : ℕ)
    → s.ready ≡ suc n
    → s.pool.queue_size ≡ 0
    → s.pool.shutting_down ≡ true
    → IsAlive s
    → IsAlive (record s { ready = n; exited = suc s.exited })
worker_exits-IsAlive n e empty stop v = record {
  jobs_seen = λ h. omega (arith, empty);
  worker_sleep = v.worker_sleep;
  room_seen = v.room_seen;
  call_sleep = v.call_sleep;
  gone_empty = λ h. empty;
  gone_stopped = λ h. stop;
  count = omega (arith, v.count, e);
}

-- The calls after a signal: one call more is awake, unless none was asleep.
wake_calls :
    {b c b2 c2 : List Job}
    → WakeCall b c b2 c2
    → 0 < length b2
    → (0 < length b) × (length c2 ≡ suc (length c))
wake_calls no_call h = absurd (omega arith)
wake_calls (one_call xs job ys) h = (omega (arith, length-mid xs job ys), refl)

worker_takes-IsAlive :
    {s : System} (n : ℕ) (job : Job) (p : Pool) (t b c : List Job)
    → s.ready ≡ suc n
    → TakenFrom s.pool job p
    → WakeCall s.blocked s.calling b c
    → IsAlive s
    → IsAlive (record s {
      ready = n;
      pool = p;
      running = job ∷ s.running;
      taken = t;
      blocked = b;
      calling = c;
    })
worker_takes-IsAlive n job p t b c e f w v = record {
  jobs_seen = λ h. omega (arith, v.jobs_seen h, e, f.size);
  worker_sleep = λ h. f.settings.stop ∙ v.worker_sleep h;
  room_seen = λ h.
      let k = wake_calls w h in omega (arith, v.room_seen k.0, k.1, f.size, f.settings.capacity);
  call_sleep = λ h. f.settings.stop ∙ v.call_sleep (wake_calls w h).0;
  gone_empty = λ h. omega (arith, v.gone_empty h, f.size);
  gone_stopped = λ h. f.settings.stop ∙ v.gone_stopped h;
  count = omega (arith, v.count, e, f.settings.workers);
}

worker_finishes-IsAlive :
    {s : System} (l : List Job)
    → length s.running ≡ suc (length l)
    → IsAlive s
    → IsAlive (record s { running = l; ready = suc s.ready })
worker_finishes-IsAlive l e v = record {
  jobs_seen = λ h. omega (arith, v.jobs_seen h);
  worker_sleep = v.worker_sleep;
  room_seen = v.room_seen;
  call_sleep = v.call_sleep;
  gone_empty = v.gone_empty;
  gone_stopped = v.gone_stopped;
  count = omega (arith, v.count, e);
}

worker_wakes-IsAlive :
    {s : System} (n : ℕ)
    → s.asleep ≡ suc n
    → IsAlive s
    → IsAlive (record s { asleep = n; ready = suc s.ready })
worker_wakes-IsAlive n e v = record {
  jobs_seen = λ h. omega (arith, v.jobs_seen (omega (arith, e)));
  worker_sleep = λ h. v.worker_sleep (omega (arith, e));
  room_seen = v.room_seen;
  call_sleep = v.call_sleep;
  gone_empty = v.gone_empty;
  gone_stopped = v.gone_stopped;
  count = omega (arith, v.count, e);
}

call_wakes-IsAlive :
    {s : System} (b : List Job) (job : Job)
    → length s.blocked ≡ suc (length b)
    → IsAlive s
    → IsAlive (record s { blocked = b; calling = job ∷ s.calling })
call_wakes-IsAlive b job e v = record {
  jobs_seen = v.jobs_seen;
  worker_sleep = v.worker_sleep;
  room_seen = λ h. omega (arith, v.room_seen (omega (arith, e)));
  call_sleep = λ h. v.call_sleep (omega (arith, e));
  gone_empty = v.gone_empty;
  gone_stopped = v.gone_stopped;
  count = v.count;
}

shuts_down-IsAlive :
    {s : System} (c : List Job)
    → IsAlive s
    → IsAlive (record s {
      pool = record (s.pool) { shutting_down = true };
      ready = s.ready + s.asleep;
      asleep = 0;
      calling = c;
      blocked = [];
    })
shuts_down-IsAlive c v = record {
  jobs_seen = λ h. absurd (omega arith);
  worker_sleep = λ h. absurd (omega arith);
  room_seen = λ h. absurd (omega arith);
  call_sleep = λ h. absurd (omega arith);
  gone_empty = v.gone_empty;
  gone_stopped = λ h. refl;
  count = omega (arith, v.count);
}

pub Step-IsAlive : {s t : System} → Step s t → IsSound s → IsAlive s → IsAlive t
Step-IsAlive (call job h) i v = call-IsAlive job v
Step-IsAlive {s = s} (submit_sleeps xs job ys e h) i v =
    let f =
      subst (SubmitFacts s.pool job) h
        (submit_facts s.pool job i.valid (socket_of s xs job ys i e).0) in
    submit_sleeps-IsAlive (xs ++ ys) job f.0 f.1 v
Step-IsAlive {s = s} (submit_fails xs job ys e h) i v =
    submit_fails-IsAlive (xs ++ ys)
      (subst (SubmitFacts s.pool job) h
        (submit_facts s.pool job i.valid (socket_of s xs job ys i e).0))
      v
Step-IsAlive {s = s} (submit_returns xs job ys p a r e h w) i v =
    submit_returns-IsAlive job (xs ++ ys) (s.given ++ (job ∷ [])) p a r
      (given_facts s xs job ys p i e h) (length_out xs job ys e) w v
Step-IsAlive {s = s} (worker_sleeps n e h) i v =
    let f = subst (TakeFacts s.pool) h (take_facts s.pool i.valid) in
    worker_sleeps-IsAlive n e f.0 f.1 v
Step-IsAlive {s = s} (worker_exits n e h) i v =
    let f = subst (TakeFacts s.pool) h (take_facts s.pool i.valid) in
    worker_exits-IsAlive n e f.0 f.1 v
Step-IsAlive {s = s} (worker_takes n job p b c e h w) i v =
    worker_takes-IsAlive n job p (s.taken ++ (job ∷ [])) b c e (taken_facts s job p i h) w v
Step-IsAlive (worker_finishes xs job ys e) i v =
    worker_finishes-IsAlive (xs ++ ys) (length_out xs job ys e) v
Step-IsAlive (worker_wakes n e) i v = worker_wakes-IsAlive n e v
Step-IsAlive (call_wakes xs job ys e) i v =
    call_wakes-IsAlive (xs ++ ys) job (length_out xs job ys e) v
Step-IsAlive {s = s} shuts_down i v =
    subst
      (λ p. IsAlive (record s {
        pool = p;
        ready = s.ready + s.asleep;
        asleep = 0;
        calling = s.blocked ++ s.calling;
        blocked = [];
      }))
      (sym (stopped_pool s i)) (shuts_down-IsAlive (s.blocked ++ s.calling) v)
