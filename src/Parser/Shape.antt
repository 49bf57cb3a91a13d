-- ===== src/Parser/Shape.antt =====
-- What a request that src/request_parser.c accepts looks like.
use concurrent_http_proxy_se.Base.{
  ◌<◌, ◌≡◌, sym, ap, subst, ◌∙◌, ◌⊎◌, inl, inr, ltb, length, true, ◌&&◌, ◌||◌, some, bind_then,
  if_some, and_both, or_either,
}
use concurrent_http_proxy_se.Bytes.{Bytes, codes, bytes_eq, eq_of_bytes_eq}
use concurrent_http_proxy_se.Parser.{
  Request, copy_substring, split_at, find_line_end, parse_request_line, parse_absolute_url,
  skip_line_break, contains_header_terminator, parse,
}
use concurrent_http_proxy_se.Parser.Parts.{
  copy_substring_lem, IsTarget, parse_absolute_url-IsTarget,
}

-- What the rest of the proxy relies on.
pub record IsRequest (r : Request) : Type 0 where
  pub method : r.method ≡ codes "GET"
  pub version : (r.version ≡ codes "HTTP/1.0") ⊎ (r.version ≡ codes "HTTP/1.1")
  pub target : IsTarget r.host r.port r.path
  pub headers_fit : length r.raw_headers < 8192
  pub headers_end : contains_header_terminator r.raw_headers ≡ true

-- The method and the version of a request line.
abbrev IsLine : Bytes × Bytes × Bytes → Type 0
IsLine l = (l.0 ≡ codes "GET") × ((l.2 ≡ codes "HTTP/1.0") ⊎ (l.2 ≡ codes "HTTP/1.1"))

known_version :
    (v : Bytes)
    → (bytes_eq v (codes "HTTP/1.0") || bytes_eq v (codes "HTTP/1.1")) ≡ true
    → (v ≡ codes "HTTP/1.0") ⊎ (v ≡ codes "HTTP/1.1")
known_version v e = elim (or_either (bytes_eq v (codes "HTTP/1.0")) _ e) [
  | inl a ↦ inl (eq_of_bytes_eq v (codes "HTTP/1.0") a)
  | inr b ↦ inr (eq_of_bytes_eq v (codes "HTTP/1.1") b)
]

parse_request_line_lem :
    (line : Bytes) (l : Bytes × Bytes × Bytes) → parse_request_line line ≡ some l → IsLine l
unfolding parse_request_line
parse_request_line_lem line l e = bind_then (split_at 32 line) _ e λ a _ e1.
    bind_then (split_at 32 a.1) _ e1 λ b _ e2. bind_then (copy_substring 8 a.0) _ e2 λ m _ e3.
      bind_then (copy_substring 16 b.1) _ e3 λ v _ e4.
        let (ok, same) = if_some _ e4 in
        let (first, known) = and_both (bytes_eq m (codes "GET") && ltb 0 (length b.0)) _ ok in
        let (get, _) = and_both (bytes_eq m (codes "GET")) _ first in
        subst IsLine same (eq_of_bytes_eq m (codes "GET") get, known_version v known)

-- An accepted request is a GET of version 1.0 or 1.1. Its host is not empty and has no colon and no
-- slash, its port is from 1 to 65535, its path begins with a slash, its header fields end with a
-- blank line, and each part fits its buffer.
pub parse-IsRequest : (text : Bytes) (r : Request) → parse (some text) ≡ some r → IsRequest r
unfolding parse
parse-IsRequest text r e = bind_then (find_line_end text) _ e λ a _ e1.
    bind_then (parse_request_line a.0) _ e1 λ l line e2.
      bind_then (parse_absolute_url l.1) _ e2 λ u url e3.
        bind_then (copy_substring 8192 (skip_line_break a.1)) _ e3 λ h copied e4.
          let (ok, same) = if_some _ e4 in
          let (_, ends) = and_both (ltb 0 (length a.0)) _ ok in
          let (kept, fits) = copy_substring_lem 8192 (skip_line_break a.1) h copied in
          let known = parse_request_line_lem a.0 l line in
          subst IsRequest same (record {
            method = known.0;
            version = known.1;
            target = parse_absolute_url-IsTarget l.1 u.0 u.1 u.2 url;
            headers_fit = fits;
            headers_end = ap contains_header_terminator (sym kept) ∙ ends;
          })
