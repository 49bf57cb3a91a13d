-- ===== src/Server.antt =====
-- src/proxy_server.c: what a worker does with one client connection. The configuration, the cache and
-- the job that it gets are not NULL: proxy_server_run starts no worker without them. What is logged
-- is left out.
pub mod Key
pub mod Input
pub mod Descriptors
pub mod Balance
pub mod Store
pub mod Replay
pub mod Miss
pub mod Finish
mod Tests
use concurrent_http_proxy_se.Base.{
  ℕ, zero, suc, ◌+◌, ◌-◌, ltb, leb, ◌==◌, length, take, if◌then◌else◌, Bool, true, false, not, ◌&&◌,
  ◌||◌, Option, none, some, List, [], ◌∷◌, ◌++◌, Status, done, failed,
}
use concurrent_http_proxy_se.Bytes.{Bytes, codes}
use concurrent_http_proxy_se.Cache
use concurrent_http_proxy_se.Cache.{Cache, Allocation, Value, no_value}
use concurrent_http_proxy_se.Decimal.{decimal}
use concurrent_http_proxy_se.Forwarder
use concurrent_http_proxy_se.Forwarder.{Forwarded}
use concurrent_http_proxy_se.Metrics.{
  Metrics, increment_total_requests, increment_active_connections, decrement_active_connections,
  increment_cache_hits, increment_cache_misses, increment_cache_evictions,
  increment_origin_fetch_failures, add_bytes_in, add_bytes_out,
}
use concurrent_http_proxy_se.Parser.{Request, contains, parse}
use concurrent_http_proxy_se.Responses.{error_response_send}
use concurrent_http_proxy_se.Sockets.{Os, Trace, close, read, write_all, set_timeout}

-- `"%s|%s|%d|%s"`; the port of a parsed request is not negative.
abbrev pub key_text : Request → Bytes
key_text r = r.method ++ (124 ∷ (r.host ++ (124 ∷ (decimal r.port ++ (124 ∷ r.path)))))

-- `none` is the failure: what `snprintf` printed does not fit the buffer.
unfoldable pub build_cache_key : Request → ℕ → Option Bytes
build_cache_key r buffer_size =
    if ltb (length (key_text r)) buffer_size then some (key_text r) else none

-- What is in the buffer afterwards: a key that does not fit is cut off.
abbrev pub key_buffer : Request → Option Bytes → Bytes
key_buffer r none = take 4095 (key_text r)
key_buffer r (some key) = key

-- A buffer read as a C string: the bytes before the first NUL.
unfoldable pub c_string : Bytes → Bytes
c_string [] = []
c_string (x ∷ xs) = let rest = c_string xs in if x == 0 then [] else x ∷ rest

unfoldable pub buffer_has_complete_headers : Bytes → Bool
buffer_has_complete_headers buffer =
    contains (13 ∷ 10 ∷ 13 ∷ 10 ∷ []) (c_string buffer) || contains (10 ∷ 10 ∷ []) (c_string buffer)

-- The results -1 and 1 of `read_request_bytes`, and 0 with the bytes that were read.
pub data Reading : Type 0 where
  broken too_large : Reading
  request_bytes : Bytes → Reading

-- What the last test of `read_request_bytes` makes of the buffer.
abbrev pub reading_of : ℕ → Bytes → Reading
reading_of size buffer = if leb (size - 1) (length buffer) then too_large else request_bytes buffer

-- What a round of the loop makes of what it read: it ends with a result, or goes on with the buffer.
pub data Round : Type 0 where
  ends : Reading → Round
  goes_on : Bytes → Round

unfoldable pub round_of : ℕ → Bytes → Option Bytes → Round
round_of size buffer none = ends broken
round_of size buffer (some []) = ends (reading_of size buffer)
round_of size buffer (some (x ∷ xs)) =
    let all = buffer ++ (x ∷ xs) in
    if buffer_has_complete_headers all then ends (request_bytes all) else goes_on all

-- The loop of `read_request_bytes`, with fuel; `buffer` is what has been read.
unfoldable pub read_loop : ℕ → Os → Trace → ℕ → ℕ → Bytes → Reading × Trace
read_loop zero os t client size buffer = (reading_of size buffer, t)
read_loop (suc fuel) os t client size buffer = elim (ltb (length buffer) (size - 1)) [
  | false ↦ (reading_of size buffer, t)
  | true ↦
      let (answer, t1) = read os t client (size - 1 - length buffer) in
      elim (round_of size buffer answer) [
        | ends reading ↦ (reading, t1)
        | goes_on all ↦ read_loop fuel os t1 client size all
      ]
]

-- Each round reads one byte at least.
unfoldable pub read_request_bytes : Os → Trace → ℕ → ℕ → Reading × Trace
read_request_bytes os t client size =
    if ltb size 2 then (broken, t) else read_loop size os t client size []

-- What the handler shares with the others, and what has happened. The mutexes of the two modules make
-- each call of them one step; here they are seen from one worker.
pub record World : Type 0 where
  pub metrics : Metrics
  pub cache : Cache
  pub trace : Trace

-- What the allocator answers to the cache: whether a copy gets memory, and the blocks of a new entry.
pub record Allocator : Type 0 where
  pub copy : World → Bool
  pub blocks : World → Allocation

-- The last two calls of every path.
abbrev pub finish : World → ℕ → World
finish w client = record w {
  trace = close w.trace client;
  metrics = decrement_active_connections w.metrics;
}

-- An error response, and the end.
unfoldable pub refuse : Os → World → ℕ → ℕ → Bytes → Bytes → World
refuse os w client status_code reason body =
    finish (record w { trace = (error_response_send os w.trace client status_code reason body).1 })
      client

-- `socket_utils_write_all` of a cached value; it refuses NULL.
abbrev pub write_cached : Os → Trace → ℕ → Option Bytes → ℕ → Status × Trace
write_cached os t client none size = (failed, t)
write_cached os t client (some b) size = write_all os t client (take size b)

-- A hit: the cached bytes go to the client.
unfoldable pub serve_cached : Os → World → ℕ → Value → World
serve_cached os w client value =
    let t = (write_cached os w.trace client value.bytes value.size_bytes).1 in
    finish
      (record w {
        trace = t;
        metrics = add_bytes_out (increment_cache_hits w.metrics) value.size_bytes;
      })
      client

-- After a `cache_put`: its status, whether it evicted, and the cache.
abbrev pub stored : World → Status × Bool × Cache → World
stored w (failed, evicted, cache) = record w { cache = cache }
stored w (done, evicted, cache) = record w {
  cache = cache;
  metrics = if evicted then increment_cache_evictions w.metrics else w.metrics;
}

-- The captured response goes into the cache.
unfoldable pub store : Allocator → World → Bytes → Option Bytes → World
store alloc w key none = w
store alloc w key (some bytes) =
    if ltb 0 (length key) && ltb 0 (length bytes)
    then stored w (Cache.put w.cache (some key) (some bytes) (length bytes) (alloc.blocks w) false)
    else w

-- What follows the forwarding, by its status.
unfoldable pub after_forward : Os → Allocator → World → ℕ → Bytes → Forwarded → Status → World
after_forward os alloc w client key f failed =
    refuse os (record w { metrics = increment_origin_fetch_failures w.metrics }) client 502
      (codes "Bad Gateway") (codes "failed to fetch response from origin server\n")
after_forward os alloc w client key f done =
    finish
      (store alloc (record w { metrics = add_bytes_out w.metrics f.origin_response_bytes }) key
        f.captured)
      client

abbrev pub forwarded :
    Os → Allocator → World → ℕ → Bytes → Option (Forwarded × Trace) → Option World
forwarded os alloc w client key none = none
forwarded os alloc w client key (some r) =
    some (after_forward os alloc (record w { trace = r.1 }) client key r.0 r.0.status)

-- A miss: the request is forwarded. `none` is a forwarding that is not over.
unfoldable pub serve_miss : ℕ → Os → Allocator → World → ℕ → Request → Bytes → Option World
serve_miss fuel os alloc w client request key =
    let w1 = record w {
      metrics = if ltb 0 (length key) then increment_cache_misses w.metrics else w.metrics;
    } in
    forwarded os alloc w1 client key (Forwarder.forward fuel os w1.trace client request 262144)

-- After the lookup: a hit, or a miss or a failure.
abbrev pub looked_up :
    ℕ → Os → Allocator → World → ℕ → Request → Bytes → Status × Value × Cache → Option World
looked_up fuel os alloc w client request key (done, value, cache) =
    some (serve_cached os (record w { cache = cache }) client value)
looked_up fuel os alloc w client request key (failed, value, cache) =
    serve_miss fuel os alloc (record w { cache = cache }) client request key

-- A key that does not fit its buffer is not looked up.
abbrev pub keyed : ℕ → Os → Allocator → World → ℕ → Request → Option Bytes → Option World
keyed fuel os alloc w client request none =
    serve_miss fuel os alloc w client request (key_buffer request none)
keyed fuel os alloc w client request (some key) =
    looked_up fuel os alloc w client request key
      (Cache.get w.cache (some key) no_value (alloc.copy w))

unfoldable pub serve_request : ℕ → Os → Allocator → World → ℕ → Request → Option World
serve_request fuel os alloc w client request =
    keyed fuel os alloc w client request (build_cache_key request 4096)

abbrev pub parsed : ℕ → Os → Allocator → World → ℕ → Option Request → Option World
parsed fuel os alloc w client none = some (
    refuse os w client 400 (codes "Bad Request") (codes "unsupported or malformed proxy request\n"))
parsed fuel os alloc w client (some request) = serve_request fuel os alloc w client request

-- What was read.
unfoldable pub serve_reading : ℕ → Os → Allocator → World → ℕ → Reading → Option World
serve_reading fuel os alloc w client broken =
    some (
      refuse os w client 408 (codes "Request Timeout") (codes "request read failed or timed out\n"))
serve_reading fuel os alloc w client too_large = some (
    refuse os w client 413 (codes "Payload Too Large")
      (codes "request headers exceed supported size\n"))
serve_reading fuel os alloc w client (request_bytes []) =
    some (refuse os w client 400 (codes "Bad Request") (codes "empty request received\n"))
serve_reading fuel os alloc w client (request_bytes (x ∷ xs)) =
    parsed fuel os alloc (record w { metrics = add_bytes_in w.metrics (length (x ∷ xs)) }) client
      (parse (some (c_string (x ∷ xs))))

-- After the timeout was set, or not.
abbrev pub timed : ℕ → Os → Allocator → World → ℕ → Status → Option World
timed fuel os alloc w client failed = some (finish w client)
timed fuel os alloc w client done =
    let (reading, t) = read_request_bytes os w.trace client 8192 in
    serve_reading fuel os alloc (record w { trace = t }) client reading

-- `process_client_connection`
unfoldable pub process : ℕ → Os → Allocator → World → ℕ → Option World
process fuel os alloc w client =
    let (status, t) = set_timeout os w.trace client in
    timed fuel os alloc
      (record w {
        metrics = increment_active_connections (increment_total_requests w.metrics);
        trace = t;
      })
      client status
