-- ===== src/Forwarder/Request.antt =====
-- The request that `build_origin_request` of src/response_forwarder.c sends to the origin.
use concurrent_http_proxy_se.Base.{
  ℕ, ◌+◌, ◌≤◌, ◌<◌, ◌⊎◌, ◌≡◌, refl, ap, ◌∙◌, arith, ltb, lt→ltb, if◌then◌else◌, Option, none, some,
  ◌>>=◌, List, [], ◌∷◌, ◌++◌, length, length-append, inl, inr,
}
use concurrent_http_proxy_se.Bytes.{Bytes, codes}
use concurrent_http_proxy_se.Decimal.{decimal, length-decimal}
use concurrent_http_proxy_se.Parser
use concurrent_http_proxy_se.Parser.Shape.{IsRequest}
use concurrent_http_proxy_se.Forwarder.{
  line_break, append_text, request_head, append_filtered_headers, build_origin_request,
}
use concurrent_http_proxy_se.Forwarder.Fields.{IsKept, IsHeader}
use concurrent_http_proxy_se.Forwarder.Headers.{
  header_lines, kept, print_lines, fitted, length-print_lines, append_filtered_headers-kept,
  kept-IsKept, header_lines-IsHeader,
}

-- The whole text: the head with the headers of the proxy, the lines it passes on, an empty line.
abbrev pub origin_request : Parser.Request → List Bytes → Bytes
origin_request r lines = (request_head r ++ print_lines lines) ++ line_break

length-version : (v : Bytes) → (v ≡ codes "HTTP/1.0") ⊎ (v ≡ codes "HTTP/1.1") → length v ≡ 8
length-version v (inl e) = ap length e
length-version v (inr e) = ap length e

length-head : (r : Parser.Request) → IsRequest r → length (request_head r) ≤ 2400
length-head r v =
    let a = codes "Connection: close" ++ line_break in
    let b = 58 ∷ (decimal r.port ++ (line_break ++ a)) in
    let c = codes "Host: " ++ (r.host ++ b) in
    let d = 32 ∷ (r.version ++ (line_break ++ c)) in
    omega (
      arith,
      ap length v.method,
      length-version r.version v.version,
      v.target.host_fits,
      v.target.path_fits,
      length-decimal 4 r.port (omega (arith, v.target.port_to)),
      length-append (decimal r.port) (line_break ++ a),
      length-append r.host b,
      length-append r.version (line_break ++ c),
      length-append r.path d,
      length-append r.method (32 ∷ (r.path ++ d)),
    )

bind_fits :
    (size : ℕ) (out : Bytes) (f : Bytes → Option Bytes)
    → length out < size
    → (fitted size out >>= f) ≡ f out
bind_fits size out f h = rw (lt→ltb (length out) size h) refl

-- For every request that the parser accepts, the request for the origin fits its buffer. It is the
-- request line with the path alone, the headers Host and Connection of the proxy, the lines of the
-- client's header block up to the first empty one, where a line ends with CR LF, without those named
-- Host, Connection or Proxy-Connection in any case, and an empty line.
pub build_origin_request_fits :
    (r : Parser.Request)
    → IsRequest r
    → (lines left : List Bytes) × IsHeader r.raw_headers lines
      × IsKept lines left
      × (build_origin_request r 12288 ≡ some (origin_request r left))
unfolding build_origin_request
build_origin_request_fits r v = (
  header_lines r.raw_headers,
  kept (header_lines r.raw_headers),
  header_lines-IsHeader r.raw_headers,
  kept-IsKept (header_lines r.raw_headers),
  chain,
)
  where
    head : Bytes
    head = request_head r

    lines : Bytes
    lines = print_lines (kept (header_lines r.raw_headers))

    head_small : length head < 12288
    head_small = omega (arith, length-head r v)

    lines_small : length (head ++ lines) < 12285
    lines_small = omega (
      arith,
      length-head r v,
      length-append head lines,
      length-print_lines r.raw_headers,
      v.headers_fit,
    )

    all_small : length (head ++ lines) + length line_break < 12288
    all_small = omega (arith, lines_small)

    last : Bytes → Option Bytes
    last o = append_text 12288 o line_break

    rest : Bytes → Option Bytes
    rest h = append_filtered_headers 12288 h r.raw_headers >>= last

    chain :
        (append_text 12288 [] head >>= λ h. append_filtered_headers 12288 h r.raw_headers >>= last)
        ≡ some (origin_request r (kept (header_lines r.raw_headers)))
    chain =
        ap (λ n. (if ltb n 12288 then some head else none) >>= rest) {y = length head} (omega arith)
        ∙ bind_fits 12288 head rest head_small
        ∙ ap (λ o. o >>= last) (append_filtered_headers-kept 12288 head r.raw_headers head_small)
        ∙ bind_fits 12288 (head ++ lines) last (omega (arith, lines_small))
        ∙ rw (lt→ltb (length (head ++ lines) + length line_break) 12288 all_small) refl
