-- ===== src/Run/Tests.antt =====
-- A server with one worker: it waits once, serves a client, and stops when a signal asks for it.
use concurrent_http_proxy_se.Base.{
  ◌≡◌, ◌≢◌, refl, ap, update, arith, ltb, length, ◌==◌, if◌then◌else◌, true, false, none, some, [],
  ◌∷◌, pos, done, List,
}
use concurrent_http_proxy_se.Bytes.{Bytes, codes, bytes_eq}
use concurrent_http_proxy_se.Cache.{Cache}
use concurrent_http_proxy_se.Cache.Refinement.{empty_cache, create-Holds}
use concurrent_http_proxy_se.Config
use concurrent_http_proxy_se.Config.{
  Config, parse_args, parse_from, defaults, set_flag, parse_int_arg, parse_size_arg,
}
use concurrent_http_proxy_se.Parser.{skip_space, read_sign, read_digits, read_number, strtol}
use concurrent_http_proxy_se.Run.Program.{main, exit_code, main-requested}
use concurrent_http_proxy_se.Decimal.{decimal, digits}
use concurrent_http_proxy_se.Logger.{info}
use concurrent_http_proxy_se.Lru.{Lru}
use concurrent_http_proxy_se.Metrics
use concurrent_http_proxy_se.Metrics.{Metrics}
use concurrent_http_proxy_se.Run.{
  Resource, library, counters, objects, workers, acquires, Host, Acts, started, cached, setup,
  leaves, goes_on, submits, round, teardown,
}
use concurrent_http_proxy_se.Run.Made.{run-delivers, run-submits}
use concurrent_http_proxy_se.Run.Progress.{GoesOn, run-GoesOn}
use concurrent_http_proxy_se.Run.Released.{IsSetUp, setup-IsSetUp, holds, IsPaired}
use concurrent_http_proxy_se.Run.Starts.{Grants, setup-starts}
use concurrent_http_proxy_se.Run.System.{
  Proxy, serving, submitting, returned, kind, waits, accepts, submitted, breaks, stops_pool, ends,
  pool_moves, Reachable, start, next,
}
use concurrent_http_proxy_se.Run.Opened.{with_clients}
use concurrent_http_proxy_se.Run.Teardown.{returned-released}
use concurrent_http_proxy_se.Sockets.{Trace, close, opened, closed, accepted}
use concurrent_http_proxy_se.Sockets.Open.{open_sockets, remove}
use concurrent_http_proxy_se.Sockets.Connect.{Connected}
use concurrent_http_proxy_se.Sockets.Example.{network}
use concurrent_http_proxy_se.Sockets.Listener.{
  Net, create_listener, create_listener-Connected, wait_for_readable, accept,
  populate_client_identity,
}
use concurrent_http_proxy_se.Threads
use concurrent_http_proxy_se.Threads.{
  Job, reset_job, Pool, start_threads, take_job, submit_locked, refused, shutdown, destroy,
  close_jobs,
}
use concurrent_http_proxy_se.Threads.System
use concurrent_http_proxy_se.Threads.System.{
  no_sleeper, no_call, call, submit_returns, worker_takes, worker_finishes, worker_exits,
  shuts_down,
}

abbrev net : Net
net = record {
  bind = λ t s port. true;
  listen = λ t s backlog. true;
  select = λ t s timeout_ms. (if length t == 4 then pos 0 else pos 1, true);
  accept = λ t s.
      some (2, record { is_inet = true; port = 40000; address_text = some (codes "127.0.0.1") });
}

abbrev memory : Lru
memory = record { head = none; tail = none; entry_count = 0; prev = λ _. none; next = λ _. none }

abbrev host : Host
host = record {
  os = network [] [];
  net = net;
  metrics_memory = some tt;
  cache_memory = true;
  cache_list = memory;
  cache_bytes = λ p. [];
  pool_memory = true;
  jobs_memory = true;
  threads_memory = true;
  starts = λ i. true;
  requested = λ t. ltb 6 (length t);
}

abbrev config : Config
config = record { port = 8080; worker_count = 1; cache_size_bytes = 1000; log_level = info }

setup-IsSetUp_example : IsSetUp [] (setup host [] (some config))
setup-IsSetUp_example = setup-IsSetUp [] host (some config)

abbrev pool : Pool
pool = record {
  jobs = λ i. reset_job;
  queue_capacity = 64;
  queue_size = 0;
  queue_head = 0;
  queue_tail = 0;
  worker_count = 1;
  shutting_down = false;
  threads_started = 1;
  sync_initialized = true;
}

abbrev listening : Trace
listening = accepted 1 ∷ accepted 1 ∷ accepted 1 ∷ opened 1 ∷ []

abbrev cache : Cache
cache = empty_cache 1000 1000 memory (λ p. [])

abbrev metrics : Metrics
metrics = Metrics.create (some tt)

abbrev acts : Acts
acts = acquires workers ∷ acquires objects ∷ acquires counters ∷ acquires library ∷ []

set_up : setup host [] (some config) ≡ started 1 metrics cache pool listening acts
unfolding setup create_listener Threads.create start_threads Metrics.create
set_up =
    ap (cached host config listening (acquires counters ∷ (acquires library ∷ [])) 1 metrics)
      (create-Holds 1000 1000 memory (λ p. []) (omega arith) (omega arith) (omega arith)).0

-- The client, and the pool with it and after a worker has taken it.
abbrev client : Job
client = record {
  client_socket = some 2;
  client_host = codes "127.0.0.1";
  client_service = codes "40000";
}

abbrev given : Pool
given = record pool { jobs = update pool.jobs 0 client; queue_tail = 1; queue_size = 1 }

abbrev taken : Pool
taken = record given { jobs = update given.jobs 0 reset_job; queue_head = 1; queue_size = 0 }

abbrev waited : Trace
waited = accepted 1 ∷ listening

abbrev served : Trace
served = opened 2 ∷ (accepted 1 ∷ waited)

waits_once : round host 1 listening ≡ goes_on waited
unfolding round wait_for_readable
waits_once = refl

accepts_client : round host 1 waited ≡ submits client served
unfolding round wait_for_readable accept populate_client_identity decimal digits
accepts_client = refl

asked : round host 1 served ≡ leaves done served
unfolding round
asked = refl

-- `thread_pool_submit` is called.
abbrev submitting_it : Proxy
submitting_it = record {
  main = submitting client;
  trace = served;
  acts = acts;
  system = record (System.started pool) { calling = client ∷ [] };
  clients = client ∷ [];
}

submitting-Reachable : Reachable host 1 metrics (serving pool listening acts) submitting_it
unfolding kind
submitting-Reachable =
    next (next start (waits waited refl waits_once))
      (accepts client served (call client refl) refl accepts_client refl)

run-submits_example : submit_locked submitting_it.system.pool client ≢ refused
run-submits_example =
    run-submits host config [] 1 metrics cache pool listening acts set_up client
      submitting-Reachable refl

-- After the submission the worker serves the client, and the server stops.
abbrev over : Proxy
over = record {
  main = returned done;
  trace = closed 1 ∷ served;
  acts = teardown metrics acts;
  system = record {
    pool = record taken { shutting_down = true };
    ready = 0;
    asleep = 0;
    running = [];
    exited = 1;
    calling = [];
    blocked = [];
    given = client ∷ [];
    taken = client ∷ [];
  };
  clients = client ∷ [];
}

over-Reachable : Reachable host 1 metrics (serving pool listening acts) over
unfolding kind take_job submit_locked shutdown destroy close_jobs
over-Reachable =
    next
      (next
        (next
          (next
            (next
              (next
                (next submitting-Reachable (
                  submitted client (submit_returns [] client [] given 0 1 refl refl no_sleeper) refl
                    refl))
                (pool_moves (worker_takes 0 client taken [] [] refl refl no_call) refl refl))
              (pool_moves (worker_finishes [] client [] refl) refl refl))
            (breaks done served refl asked))
          (stops_pool done shuts_down refl refl))
        (pool_moves (worker_exits 0 refl refl) refl refl))
      (ends done refl refl)

run-delivers_example :
    (over.system.taken ≡ over.clients)
    × (over.system.running ≡ [])
    × (destroy over.system.pool ≡ [])
run-delivers_example =
    run-delivers host config [] 1 metrics cache pool listening acts set_up done over-Reachable refl

returned-released_example :
    IsPaired over.acts
    × ((r : Resource) → holds r over.acts ≡ false)
    × (open_sockets over.trace ≡ remove 1 (with_clients (client ∷ []) (1 ∷ [])))
returned-released_example =
    returned-released host config [] 1 metrics cache pool listening acts done set_up over-Reachable
      refl

create_listener-Connected_example : Connected host.os [] (create_listener host.os net [] 8080 16)
create_listener-Connected_example = create_listener-Connected host.os net 8080 16 []

run-GoesOn_example : GoesOn host 1 metrics submitting_it
run-GoesOn_example =
    run-GoesOn host config [] 1 metrics cache pool listening acts set_up submitting-Reachable refl

abbrev args : List Bytes
args = codes "--workers" ∷ codes "1" ∷ codes "--cache-size" ∷ codes "1000" ∷ []

args_parsed : parse_args args ≡ Config.accepted config
unfolding parse_args parse_from defaults set_flag bytes_eq parse_int_arg parse_size_arg strtol
    skip_space read_sign read_number read_digits
args_parsed = refl

answers : main args done ≡ 0
unfolding main
answers = ap (λ q. exit_code q done) args_parsed

main-requested_example : (u : Trace) × (host.requested u ≡ true) × (over.trace ≡ close u 1)
main-requested_example =
    main-requested args config host [] 1 metrics cache pool listening acts done args_parsed set_up
      over-Reachable refl answers

granted : Grants host []
granted = record {
  listener = 1;
  socket = refl;
  options = λ t s. refl;
  binds = λ t s port. refl;
  listens = λ t s backlog. refl;
  metrics = refl;
  cache = refl;
  pool = refl;
  jobs = refl;
  threads = refl;
  starts = λ i. refl;
}

setup-starts_example :
    (m : Metrics) × (c : Cache) × (p : Pool) × (t : Trace) × (a : Acts) × (setup host []
        (some config)
      ≡ started granted.listener m c p t a)
setup-starts_example = setup-starts args config host [] args_parsed granted
