-- ===== src/Lib.antt =====
-- Verification of the concurrent HTTP proxy server.
--
-- The program accepts connections (src/proxy_server.c), queues them for a pool of worker threads
-- (src/thread_pool.c), and a worker parses the request (src/request_parser.c), looks it up in a
-- shared object cache (src/cache.c over the list of src/lru.c), fetches a missing object from its
-- origin (src/response_forwarder.c) and counts what it does (src/metrics.c).
--
-- Base holds the shared names: tests on numbers, lists, C integers, and pointers. Bytes are C
-- strings and buffers as lists of numbers.
--
-- Metrics models src/metrics.c: a NULL module is `none`, each function of the file is one of the
-- model, and counters wrap at 2^64. Metrics.Counts runs any sequence of calls.
--
-- Lru models src/lru.c: the fields `prev` and `next` of all entries are functions from addresses,
-- and `Lru.Ordering.IsOrder s l` says that the list at `s` is well-formed and holds the addresses
-- `l`. Lru.Runs runs any sequence of calls.
--
-- Cache models src/cache.c over Lru: buckets, entries, and which addresses are allocated. Its
-- invariant is in Cache.Invariant, and `Cache.Spec.Holds` relates a cache to what it promises, a
-- list of keys with their bytes, the most recently used first. Cache.Runs runs any sequence of calls.
-- The walks along a bucket and the
-- eviction loop run on fuel: the number of entries, which the invariant makes enough; so does
-- cache_destroy. The calls of the allocator are arguments. The mutex makes each call one step.
-- Total limits stay below 2^63.
--
-- Threads models src/thread_pool.c (the POSIX branch; the Windows branch does the same with other
-- primitives). Threads has the functions, each with the mutex held; Threads.Fifo the queue that the
-- ring implements; Threads.System the steps of workers, submitters and shutdown, with the sleepers
-- of both condition variables. A signal wakes one sleeper, and sleepers may wake at any time. The
-- bodies of the handlers do not touch the pool and are left out. `int` additions on the ring's
-- indices stay at or below the capacity, so they do not overflow.
--
-- Parser models src/request_parser.c: a C string is its bytes without the NUL, a pointer into it
-- the rest of it, and a failed call is `none`. The C library's memchr, strstr, strncmp and strtol
-- are written out for the strings that the parser gives them.
--
-- Decimal is the `%d` of the C library's snprintf.
--
-- Sockets models src/socket_utils.c (Sockets.Listener its listening side). The operating system is
-- a parameter, `Os`: what it answers to a call is a function of everything that has happened
-- before, the trace. So every behaviour of the network is one `Os`. A call that changes something
-- is an event on the trace; Sockets.Open reads from a trace which sockets are open and what went
-- over them. A failing `send` is an answer; that it can raise SIGPIPE first is left out. The casts of
-- sizes to `int` are left out: no caller passes more than 262144 bytes.
--
-- Forwarder models src/response_forwarder.c; Forwarder.Fields describes a header block and the lines
-- that are replaced without reference to the code, as Parser.Url does a URL. The loop over the header
-- lines and the growth of the capture run on fuel that is enough: each round takes a byte of the
-- text, or doubles the capacity. The relay runs on fuel that the caller gives; `none` is a relay that
-- is not over.
--
-- Responses models src/error_response.c.
--
-- Server models src/proxy_server.c from the first byte of a connection to its end: `World` is what
-- the handler shares with the other threads, with the metrics, the cache and the trace, seen from
-- one worker; `process` is process_client_connection with its early returns. The allocations that
-- the cache makes are a parameter, `Allocator`. Reading a request runs on fuel, the size of the
-- buffer, since each round reads a byte. A buffer with NUL bytes is cut where the C functions stop.
--
-- Workers models the many workers of src/proxy_server.c over the shared counters and the shared
-- cache: `handle` is process_client_connection as a sequence of calls of src/metrics.c and
-- src/cache.c, each of which is one step because of its mutex; Workers.Shared lets any number of
-- handlers take their steps in any order. Between two calls a handler talks over sockets of its
-- own, to an `Os` of its own. Workers.Alone relates `handle` to `process` of Server.
--
-- Run models proxy_server_run: `setup`, one `round` of its accept loop, and `teardown`; Run.System
-- puts the main thread beside the threads of the pool, with their steps in any order. `Acts`
-- records what was acquired and released, Run.Opened says which sockets the main thread has open;
-- Run.Program is src/main.c. The handlers' own sockets are
-- not on the main thread's trace.
--
-- Logger models the names of the levels of src/logger.c, Config the arguments of the program in
-- src/config.c, with strtol and strtoull of the C library on 64 bits. A failure is `invalid`.
--
-- Report models what the program prints on stderr: the lines of src/logger.c with their level and
-- their timestamp, the messages of src/error.c, metrics_log_summary, and the texts of src/config.c.
-- At which moments the other parts print is left out of their models.
--
-- Not modelled: the moments of the output, the calls of src/logger.c that set and read its level,
-- and socket_utils_get_last_error, which serves messages only. What a handler does to the counters
-- and the cache is in Workers, what the threads do to the queue in Run: one relation of both is not
-- built. A signal is a flag that the accept loop reads. The Windows branches are left out.
pub mod Base
pub mod Bytes
pub mod Metrics
pub mod Lru
pub mod Cache
pub mod Threads
pub mod Config
pub mod Decimal
pub mod Forwarder
pub mod Logger
pub mod Parser
pub mod Report
pub mod Responses
pub mod Run
pub mod Server
pub mod Sockets
pub mod Workers
