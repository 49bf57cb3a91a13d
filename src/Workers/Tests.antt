-- ===== src/Workers/Tests.antt =====
-- One worker fetches an object from the network of Sockets.Example, and the next request hits it.
use concurrent_http_proxy_se.Base.{
  Bool, ◌≡◌, refl, ap, arith, inr, some, none, Option, List, [], ◌∷◌, ◌++◌, true, false, failed,
  done, Status,
}
use concurrent_http_proxy_se.Bytes.{Bytes, codes, bytes_eq}
use concurrent_http_proxy_se.Cache
use concurrent_http_proxy_se.Cache.{Cache, Value, no_value}
use concurrent_http_proxy_se.Cache.Get.{get-touch, get_failed}
use concurrent_http_proxy_se.Cache.Put.{allocated}
use concurrent_http_proxy_se.Cache.Refinement.{empty_cache, create-Holds, put-room}
use concurrent_http_proxy_se.Cache.Spec.{Holds, lookup, remove, trim, room}
use concurrent_http_proxy_se.Decimal.{decimal, digits}
use concurrent_http_proxy_se.Forwarder
use concurrent_http_proxy_se.Lru.{Lru}
use concurrent_http_proxy_se.Metrics.Counts.{
  Event, miss, request, connect, received, sent, apply, active,
}
use concurrent_http_proxy_se.Metrics
use concurrent_http_proxy_se.Metrics.{Metrics}
use concurrent_http_proxy_se.Parser
use concurrent_http_proxy_se.Parser.{Request}
use concurrent_http_proxy_se.Parser.Shape.{IsRequest}
use concurrent_http_proxy_se.Server
use concurrent_http_proxy_se.Server.{World, Allocator}
use concurrent_http_proxy_se.Sockets
use concurrent_http_proxy_se.Sockets.{Os, Trace, opened}
use concurrent_http_proxy_se.Sockets.Example.{network}
use concurrent_http_proxy_se.Workers.{
  Start, Handler, counts, looks_up, puts, handle, serve_reading, looked_up, stored, store,
  after_forward, serve_miss,
}
use concurrent_http_proxy_se.Workers.Invariant.{Among, connected}
use concurrent_http_proxy_se.Workers.Reads.{value_of, active-connected, get-Fetched}
use concurrent_http_proxy_se.Workers.Shared.{
  Shared, fresh, Reachable, start, next, begins, calls_metrics, calls_get, calls_put,
}
use concurrent_http_proxy_se.Workers.Sound.{Fetched}

abbrev line_break : Bytes
line_break = 13 ∷ 10 ∷ []

abbrev response : Bytes
response = codes "HTTP/1.1 200 OK"

abbrev net : Os
net =
    network
      (codes "GET http://a/ HTTP/1.1"
        ++ (line_break ++ (codes "Host: a" ++ (line_break ++ line_break))))
      response

abbrev memory : Lru
memory = record { head = none; tail = none; entry_count = 0; prev = λ _. none; next = λ _. none }

abbrev empty : Cache
empty = empty_cache 1000 500 memory (λ _. [])

made : (Cache.create 1000 500 true memory (λ _. []) ≡ some empty) × Holds 1000 500 empty []
made = create-Holds 1000 500 memory (λ _. []) (omega arith) (omega arith) (omega arith)

abbrev asked : Request
asked = record {
  method = codes "GET";
  host = codes "a";
  port = 80;
  path = codes "/";
  version = codes "HTTP/1.1";
  raw_headers = codes "Host: a" ++ (line_break ++ line_break);
}

abbrev key : Bytes
key = codes "GET|a|80|/"

asked-IsRequest : IsRequest asked
unfolding Parser.contains_header_terminator Parser.contains Parser.starts_with
asked-IsRequest = record {
  method = refl;
  version = inr refl;
  target = record {
    host_filled = omega arith;
    host_fits = omega arith;
    no_colon = refl;
    no_slash = refl;
    port_from = omega arith;
    port_to = omega arith;
    rooted = ([], refl);
    path_fits = omega arith;
  };
  headers_fit = omega arith;
  headers_end = refl;
}

-- The trace when the request is read.
abbrev read : Trace
read = (Server.read_request_bytes net (Sockets.set_timeout net (opened 3 ∷ []) 3).1 3 8192).1

-- The first calls of the handler.
begun :
    handle 49 net (opened 3 ∷ []) 3
    ≡ counts request (
        counts connect
          (counts (received 35) (looks_up read key (looked_up 49 net read 3 asked key))))
unfolding handle serve_reading Server.read_request_bytes Server.read_loop Server.round_of
    Server.buffer_has_complete_headers Server.c_string Sockets.read Sockets.set_timeout
    Parser.contains Parser.starts_with Parser.parse Parser.copy_substring Parser.split_at
    Parser.find_line_end Parser.skip_line_break Parser.parse_request_line Parser.skip_space
    Parser.read_digits Parser.read_number Parser.read_sign Parser.strtol Parser.parse_port_value
    Parser.split_path Parser.split_port Parser.parse_absolute_url Parser.contains_header_terminator
    bytes_eq Server.build_cache_key decimal digits
begun = refl

trace_of : Option (Forwarder.Forwarded × Trace) → Trace
trace_of none = []
trace_of (some (f, t)) = t

-- The trace when the response is relayed.
abbrev relayed : Trace
relayed = trace_of (Forwarder.forward 49 net read 3 asked 262144)

-- Its calls after a miss.
missed :
    looked_up 49 net read 3 asked key (failed, no_value)
    ≡ counts miss (counts (sent 15) (puts relayed key response (stored relayed 3)))
unfolding trace_of serve_miss after_forward store Server.read_request_bytes Server.read_loop
    Server.round_of Server.buffer_has_complete_headers Server.c_string Parser.contains
    Parser.starts_with Forwarder.lower_eq Forwarder.header_name_equals Forwarder.should_skip
    Forwarder.split_line Forwarder.append_headers Forwarder.append_filtered_headers
    Forwarder.build_origin_request Forwarder.grow Forwarder.make_room Forwarder.capture_chunk
    Forwarder.relay Forwarder.forward_to Forwarder.forward Sockets.read Sockets.write_loop
    Sockets.write_all Sockets.set_timeout Sockets.connect_each Sockets.connect_to_host bytes_eq
    decimal digits Parser.split_at
missed = refl

-- What the worker begins with.
abbrev client : Start
client = record { rounds = 49; network = net; trace = opened 3 ∷ []; client = 3 }

abbrev counters : List Event → Metrics
counters [] = Metrics.create (some tt)
counters (e ∷ es) = apply e (counters es)

abbrev state : List Event → Cache → Handler → Shared
state es c h = record { metrics = counters es; cache = c; handlers = h ∷ []; begun = client ∷ [] }

-- The worker has read its request.
abbrev looking : Shared
looking =
    state (received 35 ∷ connect ∷ request ∷ []) empty
      (looks_up read key (looked_up 49 net read 3 asked key))

looking-Reachable : Reachable 4 (fresh empty) looking
looking-Reachable =
    next
      (next
        (next (next start (begins client (omega arith)))
          (calls_metrics [] request _ [] (ap (λ h. h ∷ []) begun)))
        (calls_metrics [] connect _ [] refl))
      (calls_metrics [] (received 35) _ [] refl)

active-connected_example : active looking.metrics ≡ connected looking.handlers
active-connected_example =
    active-connected 4 1000 500 memory (λ _. []) empty (omega arith) (omega arith) (omega arith)
      (omega arith) made.0 looking-Reachable

put : Status × Bool × Cache
put = Cache.put empty (some key) (some response) 15 (allocated 1) false

put-Holds : Holds 1000 500 put.2 ((key, response) ∷ [])
unfolding put room trim remove
put-Holds =
    (put-room key response 15 false made.1 1 refl (omega arith) (omega arith) (omega arith)).leaves

-- It has stored the response.
abbrev cached : Shared
cached =
    state (sent 15 ∷ miss ∷ received 35 ∷ connect ∷ request ∷ []) put.2
      (stored relayed 3 (put.0, put.1))

cached-Reachable : Reachable 4 (fresh empty) cached
unfolding put
cached-Reachable =
    next
      (next
        (next
          (next looking-Reachable (
            calls_get [] read key _ [] false failed no_value empty refl
              (get_failed key no_value made.1).0))
          (calls_metrics [] miss _ [] (ap (λ h. h ∷ []) missed)))
        (calls_metrics [] (sent 15) _ [] refl))
      (calls_put [] relayed key response (stored relayed 3) [] (allocated 1) put.0 put.1 put.2 refl
        refl refl)

-- Its key, looked up.
again : Status × Value × Cache
again = Cache.get put.2 (some key) no_value true

again_hits : again ≡ (done, value_of response, again.2)
unfolding again lookup bytes_eq
again_hits = ap (λ a. (a.0, a.1, again.2)) (get-touch key no_value put-Holds).0

asked_key : Server.build_cache_key asked 4096 ≡ some key
unfolding Server.build_cache_key decimal digits
asked_key = refl

get-Fetched_example :
    (bytes : Bytes) × (value_of response ≡ value_of bytes)
    × (b : Start) × Among b cached.begun
    × (f : Fetched b key bytes) × (f.asked.method ≡ asked.method)
    × (f.asked.host ≡ asked.host)
    × (f.asked.port ≡ asked.port)
    × (f.asked.path ≡ asked.path)
unfolding again
get-Fetched_example =
    get-Fetched 4 1000 500 memory (λ _. []) empty (omega arith) (omega arith) (omega arith)
      (omega arith) made.0 asked true cached-Reachable asked-IsRequest asked_key again_hits

abbrev world : World
world = record { metrics = Metrics.create (some tt); cache = empty; trace = opened 3 ∷ [] }

abbrev allocator : Allocator
allocator = record { copy = λ w. true; blocks = λ w. allocated 1 }
