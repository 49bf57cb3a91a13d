-- ===== src/Threads/Tests.antt =====
-- One worker, a queue of one job, and a run of the pool from its creation to its end.
use concurrent_http_proxy_se.Base.{
  ◌<◌, ◌≡◌, refl, ◌⊎◌, true, false, some, [], ◌∷◌, ◌++◌, length, pos,
}
use concurrent_http_proxy_se.Bytes.{codes}
use concurrent_http_proxy_se.Threads.{
  Job, reset_job, Pool, create, start_threads, take_job, submit_locked, shutdown,
}
use concurrent_http_proxy_se.Threads.Fifo
use concurrent_http_proxy_se.Threads.Fifo.{map_taken, map_submitted}
use concurrent_http_proxy_se.Threads.Queue.{queue, fifo, IsPool, left, joined}
use concurrent_http_proxy_se.Threads.Refinement.{
  KeptByTake, KeptBySubmit, take_job_refines, submit_refines,
}
use concurrent_http_proxy_se.Threads.Create.{IsFresh, create-IsFresh}
use concurrent_http_proxy_se.Threads.Delivery.{delivery, no_lost_signal}
use concurrent_http_proxy_se.Threads.System.{
  System, started, no_sleeper, no_call, call, submit_returns, worker_exits, worker_takes,
  worker_finishes, shuts_down, Reachable, start, next,
}

abbrev request : Job
request = record {
  client_socket = some 7;
  client_host = codes "127.0.0.1";
  client_service = codes "40000";
}

abbrev p0 : Pool
p0 = record {
  jobs = λ _. reset_job;
  queue_capacity = 1;
  queue_size = 0;
  queue_head = 0;
  queue_tail = 0;
  worker_count = 1;
  shutting_down = false;
  threads_started = 1;
  sync_initialized = true;
}

made : create (pos 1) (pos 1) true true true true (λ _. true) ≡ some p0
unfolding create start_threads
made = refl

p0-IsFresh : IsFresh p0
p0-IsFresh = create-IsFresh (pos 1) (pos 1) true true true true (λ _. true) p0 made

-- The pool with the job in it, and after the worker has taken it.
abbrev p1 : Pool
p1 = joined p0 request

abbrev p2 : Pool
p2 = left p1

abbrev waiting : System
waiting = record (started p0) { pool = p1; given = request ∷ [] }

one_waits : Reachable (started p0) waiting
unfolding submit_locked
one_waits =
    next (next start (call request refl)) (submit_returns [] request [] p1 0 1 refl refl no_sleeper)

abbrev over : System
over = record (started p0) {
  pool = record p2 { shutting_down = true };
  ready = 0;
  exited = 1;
  given = request ∷ [];
  taken = request ∷ [];
}

all_done : Reachable (started p0) over
unfolding take_job shutdown
all_done =
    next
      (next
        (next (next one_waits (worker_takes 0 request p2 [] [] refl refl no_call))
          (worker_finishes [] request [] refl))
        shuts_down)
      (worker_exits 0 refl refl)

delivery_example : (request ∷ [] ≡ [] ++ queue p1) × IsPool p1
delivery_example =
    delivery (pos 1) (pos 1) true true true true (λ _. true) p0 waiting made one_waits

no_lost_signal_example :
    (0 < p1.queue_size → (0 < waiting.ready) ⊎ (0 < length waiting.running))
    × (0 < length waiting.blocked
        → (0 < length waiting.calling) ⊎ (p1.queue_size ≡ p1.queue_capacity))
no_lost_signal_example =
    no_lost_signal (pos 1) (pos 1) true true true true (λ _. true) p0 waiting made one_waits

take_job_refines_example :
    (map_taken fifo (take_job p1) ≡ Fifo.take (fifo p1)) × KeptByTake (take_job p1)
take_job_refines_example =
    take_job_refines p1
      (delivery (pos 1) (pos 1) true true true true (λ _. true) p0 waiting made one_waits).1

submit_refines_example :
    (map_submitted fifo (submit_locked p0 request) ≡ Fifo.submit (fifo p0) request)
    × KeptBySubmit (submit_locked p0 request)
submit_refines_example = submit_refines p0 request p0-IsFresh.valid refl
