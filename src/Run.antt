-- ===== src/Run.antt =====
-- `proxy_server_run` of src/proxy_server.c: the setup, one round of the accept loop and the teardown.
-- Run.System puts the main thread together with the threads of the pool. What the system gives is a
-- parameter, `Host`. The start of the sockets on POSIX cannot fail. The lines of the log are left out.
pub mod System
pub mod Released
pub mod Opened
pub mod Teardown
pub mod Made
pub mod Starts
pub mod Progress
pub mod Program
pub mod Rounds
pub mod Effects
pub mod Clients
mod Tests
use concurrent_http_proxy_se.Base.{
  ℕ, zero, suc, ltb, if◌then◌else◌, Bool, true, false, Option, none, some, List, [], ◌∷◌, ℤ, pos,
  negsuc, Status, done, failed,
}
use concurrent_http_proxy_se.Bytes.{Bytes}
use concurrent_http_proxy_se.Cache
use concurrent_http_proxy_se.Cache.{Cache}
use concurrent_http_proxy_se.Config.{Config}
use concurrent_http_proxy_se.Lru.{Lru}
use concurrent_http_proxy_se.Metrics
use concurrent_http_proxy_se.Metrics.{Metrics}
use concurrent_http_proxy_se.Sockets.{Os, Trace, close}
use concurrent_http_proxy_se.Sockets.Listener.{Net, create_listener, wait_for_readable, accept}
use concurrent_http_proxy_se.Threads
use concurrent_http_proxy_se.Threads.{Pool, Job}

-- What is released again: the socket library, the counters, the cache, the pool.
pub data Resource : Type 0 where
  library counters objects workers : Resource

pub data Act : Type 0 where
  acquires releases : Resource → Act

-- The system calls, the allocations with what they find in memory, the threads that start, and
-- whether a signal has set `g_shutdown_requested` by now.
pub record Host : Type 0 where
  pub os : Os
  pub net : Net
  pub metrics_memory : Option (Unit {0})
  pub cache_memory : Bool
  pub cache_list : Lru
  pub cache_bytes : ℕ → Bytes
  pub pool_memory : Bool
  pub jobs_memory : Bool
  pub threads_memory : Bool
  pub starts : ℕ → Bool
  pub requested : Trace → Bool

-- What was done, the latest first.
abbrev pub Acts : Type 0
Acts = List Act

-- `metrics_destroy`
unfoldable pub destroy_metrics : Metrics → Acts → Acts
destroy_metrics none acts = acts
destroy_metrics (some m) acts = releases counters ∷ acts

pub data Startup : Type 0 where
  -- `return -1`
  start_failed : Trace → Acts → Startup
  -- the listener, the counters, the cache and the pool
  started : ℕ → Metrics → Cache → Pool → Trace → Acts → Startup

abbrev pub pooled : Trace → Acts → ℕ → Metrics → Cache → Option Pool → Startup
pooled t acts listener metrics cache none =
    start_failed (close t listener)
      (releases library ∷ destroy_metrics metrics (releases objects ∷ acts))
pooled t acts listener metrics cache (some pool) =
    started listener metrics cache pool t (acquires workers ∷ acts)

abbrev pub cached : Host → Config → Trace → Acts → ℕ → Metrics → Option Cache → Startup
cached host config t acts listener metrics none =
    start_failed (close t listener) (releases library ∷ destroy_metrics metrics acts)
cached host config t acts listener metrics (some cache) =
    pooled t (acquires objects ∷ acts) listener metrics cache (
      Threads.create (pos config.worker_count) (pos 64) true host.pool_memory host.jobs_memory
        host.threads_memory host.starts)

-- `max_object_size_bytes`
abbrev pub max_object_size : Config → ℕ
max_object_size config =
    if ltb config.cache_size_bytes 262144 then config.cache_size_bytes else 262144

abbrev pub listened : Host → Config → Acts → Metrics → Option ℕ × Trace → Startup
listened host config acts metrics (none, t) =
    start_failed t (releases library ∷ destroy_metrics metrics acts)
listened host config acts metrics (some listener, t) = cached host config t acts listener metrics (
    Cache.create config.cache_size_bytes (max_object_size config) host.cache_memory host.cache_list
      host.cache_bytes)

abbrev pub counted : Host → Config → Trace → Acts → Metrics → Startup
counted host config t acts none = start_failed t (releases library ∷ acts)
counted host config t acts (some m) =
    listened host config (acquires counters ∷ acts) (some m)
      (create_listener host.os host.net t config.port 16)

-- `proxy_server_run` up to the accept loop; a NULL configuration is `none`.
unfoldable pub setup : Host → Trace → Option Config → Startup
setup host t none = start_failed t []
setup host t (some config) =
    counted host config t (acquires library ∷ []) (Metrics.create host.metrics_memory)

-- How a round of the loop ends: the loop is left with this result, it goes on, or a job is submitted.
pub data Round : Type 0 where
  leaves : Status → Trace → Round
  goes_on : Trace → Round
  submits : Job → Trace → Round

abbrev pub accepted_client : Option (ℕ × Bytes × Bytes) × Trace → Round
accepted_client (none, t) = leaves failed t
accepted_client (some (client, host, service), t) =
    submits (record { client_socket = some client; client_host = host; client_service = service }) t

-- The sizes of the buffers in `client_job_t` are NI_MAXHOST and NI_MAXSERV.
abbrev pub polled : Host → ℕ → ℤ × Trace → Round
polled host listener (negsuc n, t) = leaves failed t
polled host listener (pos zero, t) = goes_on t
polled host listener (pos (suc n), t) = accepted_client (accept host.net t listener 1025 32)

-- One round, up to the call of `thread_pool_submit`.
unfoldable pub round : Host → ℕ → Trace → Round
round host listener t =
    if host.requested t
    then leaves done t
    else polled host listener (wait_for_readable host.net t listener 500)

-- The sockets of a list are closed, the first one first.
abbrev pub close_all : Trace → List ℕ → Trace
close_all t [] = t
close_all t (s ∷ l) = close_all (close t s) l

-- What follows `thread_pool_destroy`.
unfoldable pub teardown : Metrics → Acts → Acts
teardown metrics acts =
    releases library ∷ (releases objects ∷ destroy_metrics metrics (releases workers ∷ acts))
