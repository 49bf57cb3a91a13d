-- ===== src/Forwarder/Tests.antt =====
-- A request that is forwarded, and its parts.
use concurrent_http_proxy_se.Base.{◌≡◌, refl, arith, inr, true, some, none, List, [], ◌∷◌, ◌++◌}
use concurrent_http_proxy_se.Bytes.{Bytes, codes}
use concurrent_http_proxy_se.Parser
use concurrent_http_proxy_se.Parser.{contains_header_terminator, contains, starts_with}
use concurrent_http_proxy_se.Parser.Shape.{IsRequest}
use concurrent_http_proxy_se.Sockets.{Trace, opened, Os}
use concurrent_http_proxy_se.Sockets.Example.{
  network, network-BoundedRecv, network-NewSockets, network-EndsAfter,
}
use concurrent_http_proxy_se.Forwarder.{
  Capture, Forwarded, line_break, append_filtered_headers, build_origin_request, forward, relay,
}
use concurrent_http_proxy_se.Forwarder.Fields.{IsKept, IsHeader}
use concurrent_http_proxy_se.Forwarder.Headers.{print_lines, fitted, append_filtered_headers_lem}
use concurrent_http_proxy_se.Forwarder.Request.{origin_request, build_origin_request_fits}
use concurrent_http_proxy_se.Forwarder.Rounds.{relay_ends}
use concurrent_http_proxy_se.Forwarder.Forward.{Forwards}
use concurrent_http_proxy_se.Forwarder.Finish.{forward_delivers}

abbrev headers : Bytes
headers = codes "Host: a" ++ line_break ++ codes "Accept: x" ++ line_break ++ line_break

abbrev request : Parser.Request
request = record {
  method = codes "GET";
  host = codes "a";
  port = 80;
  path = codes "/";
  version = codes "HTTP/1.1";
  raw_headers = headers;
}

request-IsRequest : IsRequest request
unfolding contains_header_terminator contains starts_with
request-IsRequest = record {
  method = refl;
  version = inr refl;
  target = record {
    host_filled = omega arith;
    host_fits = omega arith;
    no_colon = refl;
    no_slash = refl;
    port_from = omega arith;
    port_to = omega arith;
    rooted = ([], refl);
    path_fits = omega arith;
  };
  headers_fit = omega arith;
  headers_end = refl;
}

abbrev start : Trace
start = opened 3 ∷ []

abbrev response : Bytes
response = codes "HTTP/1.1 200 OK"

abbrev net : Os
net = network [] response

abbrev blank : Capture
blank = record {
  capture_buffer = none;
  capture_size = 0;
  capture_capacity = 0;
  capture_enabled = true;
}

append_filtered_headers_lem_example :
    (lines left : List Bytes) × IsHeader headers lines
    × IsKept lines left
    × (append_filtered_headers 100 (codes "GET") headers
        ≡ fitted 100 (codes "GET" ++ print_lines left))
append_filtered_headers_lem_example =
    append_filtered_headers_lem 100 (codes "GET") headers (omega arith)

build_origin_request_fits_example :
    (lines left : List Bytes) × IsHeader headers lines
    × IsKept lines left
    × (build_origin_request request 12288 ≡ some (origin_request request left))
build_origin_request_fits_example = build_origin_request_fits request request-IsRequest

relay_ends_example :
    (r : Forwarded × Trace) × (relay 16 net (opened 4 ∷ start) 4 3 100 blank 0 ≡ some r)
relay_ends_example =
    relay_ends 16 net (opened 4 ∷ start) 4 3 100 blank 0 15
      (λ t s x xs. network-EndsAfter [] response 15 t s x xs (omega arith) (omega arith))
      (omega arith) (omega arith)

forward_delivers_example :
    (f : Forwarded × Trace) × (forward 16 net start 3 request 100 ≡ some f)
    × Forwards net start 3 100 f.0 f.1
forward_delivers_example =
    forward_delivers 16 net 3 100 15 request
      (λ t s x xs. network-EndsAfter [] response 15 t s x xs (omega arith) (omega arith))
      (omega arith) start (network-BoundedRecv [] response) (omega arith)
      (network-NewSockets [] response) refl
