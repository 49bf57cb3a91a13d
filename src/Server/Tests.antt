-- ===== src/Server/Tests.antt =====
-- A worker that serves one client, and the parts of its work.
use concurrent_http_proxy_se.Base.{
  ◌≡◌, Bool, false, done, refl, arith, inr, true, none, some, [], ◌∷◌, ◌++◌,
}
use concurrent_http_proxy_se.Bytes.{Bytes, bytes_eq, codes}
use concurrent_http_proxy_se.Cache.Put.{allocated}
use concurrent_http_proxy_se.Cache.Refinement.{empty_cache, create-Holds}
use concurrent_http_proxy_se.Lru.{Lru}
use concurrent_http_proxy_se.Metrics.{Metrics}
use concurrent_http_proxy_se.Parser.{Request, contains_header_terminator, contains, starts_with}
use concurrent_http_proxy_se.Parser.Shape.{IsRequest}
use concurrent_http_proxy_se.Server.{
  World, Allocator, key_text, read_request_bytes, process, after_forward, serve_request,
}
use concurrent_http_proxy_se.Server.Descriptors.{ClosesClient}
use concurrent_http_proxy_se.Server.Finish.{process_closes, process-SomeHolds}
use concurrent_http_proxy_se.Forwarder.Rounds.{EndsAfter}
use concurrent_http_proxy_se.Server.Input.{IsReading, read_request_bytes-IsReading}
use concurrent_http_proxy_se.Server.Miss.{Missed, serve_request-Missed}
use concurrent_http_proxy_se.Server.Key.{build_cache_key_fits, build_cache_key_injective}
use concurrent_http_proxy_se.Sockets.{Os, opened}
use concurrent_http_proxy_se.Sockets.Example.{
  network, network-BoundedRecv, network-NewSockets, network-EndsAfter,
}
use concurrent_http_proxy_se.Cache.{Cache, Allocation}
use concurrent_http_proxy_se.Cache.Failure.{IsUnused}
use concurrent_http_proxy_se.Cache.Memory.{SomeHolds}
use concurrent_http_proxy_se.Cache.Spec.{Holds, lookup, touch, room}
use concurrent_http_proxy_se.Decimal.{decimal, digits}
use concurrent_http_proxy_se.Forwarder.{Forwarded}
use concurrent_http_proxy_se.Server.Replay.{Replayed, serve_request_hit, after_forward_stores}

abbrev text : Bytes
text = codes "GET http://a/ HTTP/1.1" ++ (13 ∷ 10 ∷ codes "Host: a") ++ (13 ∷ 10 ∷ 13 ∷ 10 ∷ [])

abbrev net : Os
net = network text (codes "HTTP/1.1 200 OK")

abbrev memory : Lru
memory = record { head = none; tail = none; entry_count = 0; prev = λ _. none; next = λ _. none }

abbrev zeros : Metrics
zeros = some (record {
  total_requests = 0;
  active_connections = 0;
  cache_hits = 0;
  cache_misses = 0;
  cache_evictions = 0;
  origin_fetch_failures = 0;
  bytes_in = 0;
  bytes_out = 0;
})

abbrev world : World
world = record {
  metrics = zeros;
  cache = empty_cache 1000 500 memory (λ _. []);
  trace = opened 3 ∷ [];
}

-- The only block, if it is not in use.
abbrev block : Bool → Allocation
block true = record { entry = none; key = true; bytes = true }
block false = allocated 1

abbrev alloc : Allocator
alloc = record { copy = λ w. true; blocks = λ w. block (w.cache.alive 1) }

block-IsUnused : (c : Cache) (b : Bool) → c.alive 1 ≡ b → IsUnused c (block b).entry
block-IsUnused c true e = tt
block-IsUnused c false e = e

abbrev request : Request
request = record {
  method = codes "GET";
  host = codes "a";
  port = 80;
  path = codes "/";
  version = codes "HTTP/1.1";
  raw_headers = codes "Host: a" ++ (13 ∷ 10 ∷ 13 ∷ 10 ∷ []);
}

request-IsRequest : IsRequest request
unfolding contains_header_terminator contains starts_with
request-IsRequest = record {
  method = refl;
  version = inr refl;
  target = record {
    host_filled = omega arith;
    host_fits = omega arith;
    no_colon = refl;
    no_slash = refl;
    port_from = omega arith;
    port_to = omega arith;
    rooted = ([], refl);
    path_fits = omega arith;
  };
  headers_fit = omega arith;
  headers_end = refl;
}

build_cache_key_injective_example :
    (request.method ≡ request.method)
    × (request.host ≡ request.host)
    × (request.port ≡ request.port)
    × (request.path ≡ request.path)
build_cache_key_injective_example =
    build_cache_key_injective request request (key_text request) request-IsRequest request-IsRequest
      (build_cache_key_fits request request-IsRequest)
      (build_cache_key_fits request request-IsRequest)

read_request_bytes-IsReading_example :
    IsReading 3 8192 [] (read_request_bytes net (opened 3 ∷ []) 3 8192)
read_request_bytes-IsReading_example =
    read_request_bytes-IsReading net (opened 3 ∷ []) 3 8192
      (network-BoundedRecv text (codes "HTTP/1.1 200 OK")) (omega arith)

net-EndsAfter : EndsAfter net 48
net-EndsAfter t s x xs =
    network-EndsAfter text (codes "HTTP/1.1 200 OK") 48 t s x xs (omega arith) (omega arith)

process_closes_example :
    (v : World) × (process 49 net alloc world 3 ≡ some v) × ClosesClient 3 (opened 3 ∷ []) v.trace
process_closes_example =
    process_closes 49 net alloc 3 48 net-EndsAfter (omega arith) world
      (network-BoundedRecv text (codes "HTTP/1.1 200 OK"))
      (network-NewSockets text (codes "HTTP/1.1 200 OK")) refl

world-Holds : Holds 1000 500 world.cache []
world-Holds = (create-Holds 1000 500 memory (λ _. []) (omega arith) (omega arith) (omega arith)).1

serve_request-Missed_example :
    (v : World) × (serve_request 49 net alloc world 3 request ≡ some v)
    × Missed net 3 1000 500 [] request world v
unfolding lookup
serve_request-Missed_example =
    serve_request-Missed 49 net alloc world 3 48 net-EndsAfter (omega arith)
      (network-BoundedRecv text (codes "HTTP/1.1 200 OK"))
      (network-NewSockets text (codes "HTTP/1.1 200 OK")) refl 1000 500 [] request request-IsRequest
      world-Holds refl refl

process-SomeHolds_example :
    (v : World) × (process 49 net alloc world 3 ≡ some v) × SomeHolds 1000 500 v.cache
process-SomeHolds_example =
    process-SomeHolds 49 net alloc 3 48 net-EndsAfter (omega arith) 1000 500 world
      (λ u. block-IsUnused u.cache (u.cache.alive 1) refl) ([], world-Holds)

abbrev fetched : Forwarded
fetched = record {
  status = done;
  captured = some (codes "HTTP/1.1 200 OK");
  origin_response_bytes = 15;
  lost = none;
}

abbrev stored : World
stored = after_forward net alloc world 3 (key_text request) fetched done

stored-Holds : Holds 1000 500 stored.cache ((key_text request, codes "HTTP/1.1 200 OK") ∷ [])
unfolding room
stored-Holds =
    after_forward_stores 20 net alloc world 3 world-Holds (key_text request)
      (codes "HTTP/1.1 200 OK") fetched 1 refl (omega arith) (omega arith) (omega arith) refl refl

after_forward_stores_example :
    Holds 1000 500
      (after_forward net alloc world 3 (key_text request) fetched done).cache
      ((key_text request, codes "HTTP/1.1 200 OK") ∷ room 1000 (key_text request) 15 [])
after_forward_stores_example =
    after_forward_stores 20 net alloc world 3 world-Holds (key_text request)
      (codes "HTTP/1.1 200 OK") fetched 1 refl (omega arith) (omega arith) (omega arith) refl refl

-- The next request for the object.
serve_request_hit_example :
    (v : World) × (serve_request 20 net alloc stored 3 request ≡ some v)
    × Replayed 3 (codes "HTTP/1.1 200 OK") stored v
    × Holds 1000 500 v.cache
        (touch (key_text request) ((key_text request, codes "HTTP/1.1 200 OK") ∷ []))
unfolding lookup bytes_eq decimal digits
serve_request_hit_example =
    serve_request_hit 20 net alloc stored 3 stored-Holds request (codes "HTTP/1.1 200 OK")
      request-IsRequest refl refl
