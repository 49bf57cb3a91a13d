-- ===== src/Workers.antt =====
-- Many workers of src/proxy_server.c at once. The counters and the cache are behind mutexes, so what
-- a worker does to them is a sequence of whole calls, and those of the others come in between.
-- Between two of its calls a worker talks over sockets of its own, to a system of its own: `Os` and
-- the trace are what this worker sees of the network.
pub mod Alone
pub mod Shared
pub mod Sequence
pub mod Sound
pub mod Reads
pub mod Invariant
mod Tests
use concurrent_http_proxy_se.Base.{
  ℕ, ltb, length, Bool, true, false, ◌&&◌, if◌then◌else◌, Option, none, some, [], ◌∷◌, Status, done,
  failed,
}
use concurrent_http_proxy_se.Bytes.{Bytes, codes}
use concurrent_http_proxy_se.Cache.{Value}
use concurrent_http_proxy_se.Forwarder
use concurrent_http_proxy_se.Forwarder.{Forwarded}
use concurrent_http_proxy_se.Metrics.Counts.{
  Event, request, connect, disconnect, hit, miss, eviction, failure, received, sent,
}
use concurrent_http_proxy_se.Parser.{Request, parse}
use concurrent_http_proxy_se.Responses.{error_response_send}
use concurrent_http_proxy_se.Server.{
  Reading, broken, too_large, request_bytes, read_request_bytes, c_string, build_cache_key,
  key_buffer, write_cached,
}
use concurrent_http_proxy_se.Sockets.{Os, Trace, close, set_timeout}

-- What a handler begins with: its fuel, its system, what happened before, and its client.
pub record Start : Type 0 where
  pub rounds : ℕ
  pub network : Os
  pub trace : Trace
  pub client : ℕ

-- What a worker still does: its next call of a shared module, and what follows by the answer. The
-- trace is what has happened on its sockets so far.
pub data Handler : Type 0 where
  -- the handler returns; or its forwarding runs on
  over : Trace → Handler
  unfinished : Handler
  -- a call of src/metrics.c
  counts : Event → Handler → Handler
  -- `cache_get` with this key
  looks_up : Trace → Bytes → (Status × Value → Handler) → Handler
  -- `cache_put` with this key and these bytes, and whether it evicted
  puts : Trace → Bytes → Bytes → (Status × Bool → Handler) → Handler

abbrev pub finish : Trace → ℕ → Handler
finish t client = counts disconnect (over (close t client))

-- An error response, and the end.
unfoldable pub refuse : Os → Trace → ℕ → ℕ → Bytes → Bytes → Handler
refuse os t client status_code reason body =
    finish (error_response_send os t client status_code reason body).1 client

-- A hit.
unfoldable pub serve_cached : Os → Trace → ℕ → Value → Handler
serve_cached os t client value = counts hit (
    counts (sent value.size_bytes)
      (finish (write_cached os t client value.bytes value.size_bytes).1 client))

-- After the put.
abbrev pub stored : Trace → ℕ → Status × Bool → Handler
stored t client (failed, evicted) = finish t client
stored t client (done, evicted) =
    if evicted then counts eviction (finish t client) else finish t client

unfoldable pub store : Trace → ℕ → Bytes → Option Bytes → Handler
store t client key none = finish t client
store t client key (some bytes) =
    if ltb 0 (length key) && ltb 0 (length bytes)
    then puts t key bytes (stored t client)
    else finish t client

unfoldable pub after_forward : Os → Trace → ℕ → Bytes → Forwarded → Status → Handler
after_forward os t client key f failed = counts failure (
    refuse os t client 502 (codes "Bad Gateway")
      (codes "failed to fetch response from origin server\n"))
after_forward os t client key f done =
    counts (sent f.origin_response_bytes) (store t client key f.captured)

abbrev pub forwarded : Os → ℕ → Bytes → Option (Forwarded × Trace) → Handler
forwarded os client key none = unfinished
forwarded os client key (some (f, t)) = after_forward os t client key f f.status

unfoldable pub serve_miss : ℕ → Os → Trace → ℕ → Request → Bytes → Handler
serve_miss fuel os t client r key =
    let rest = forwarded os client key (Forwarder.forward fuel os t client r 262144) in
    if ltb 0 (length key) then counts miss rest else rest

-- By the answer of the lookup.
abbrev pub looked_up : ℕ → Os → Trace → ℕ → Request → Bytes → Status × Value → Handler
looked_up fuel os t client r key (done, value) = serve_cached os t client value
looked_up fuel os t client r key (failed, value) = serve_miss fuel os t client r key

abbrev pub keyed : ℕ → Os → Trace → ℕ → Request → Option Bytes → Handler
keyed fuel os t client r none = serve_miss fuel os t client r (key_buffer r none)
keyed fuel os t client r (some key) = looks_up t key (looked_up fuel os t client r key)

abbrev pub parsed : ℕ → Os → Trace → ℕ → Option Request → Handler
parsed fuel os t client none =
    refuse os t client 400 (codes "Bad Request") (codes "unsupported or malformed proxy request\n")
parsed fuel os t client (some r) = keyed fuel os t client r (build_cache_key r 4096)

-- By what was read.
unfoldable pub serve_reading : ℕ → Os → Trace → ℕ → Reading → Handler
serve_reading fuel os t client broken =
    refuse os t client 408 (codes "Request Timeout") (codes "request read failed or timed out\n")
serve_reading fuel os t client too_large =
    refuse os t client 413 (codes "Payload Too Large")
      (codes "request headers exceed supported size\n")
serve_reading fuel os t client (request_bytes []) =
    refuse os t client 400 (codes "Bad Request") (codes "empty request received\n")
serve_reading fuel os t client (request_bytes (x ∷ xs)) =
    counts (received (length (x ∷ xs))) (parsed fuel os t client (parse (some (c_string (x ∷ xs)))))

abbrev pub timed : ℕ → Os → Trace → ℕ → Status → Handler
timed fuel os t client failed = finish t client
timed fuel os t client done =
    let (reading, t1) = read_request_bytes os t client 8192 in
    serve_reading fuel os t1 client reading

-- `process_client_connection` as a sequence of calls.
unfoldable pub handle : ℕ → Os → Trace → ℕ → Handler
handle fuel os t client =
    let (status, t1) = set_timeout os t client in
    counts request (counts connect (timed fuel os t1 client status))
