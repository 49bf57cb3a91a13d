-- ===== src/Parser/Tests.antt =====
-- Requests of tests/test_request_parser.c, and some that are refused.
use concurrent_http_proxy_se.Base.{◌≡◌, refl, some, none, [], ◌∷◌, ◌++◌}
use concurrent_http_proxy_se.Bytes.{Bytes, codes, bytes_eq}
use concurrent_http_proxy_se.Parser.{
  Request, copy_substring, split_at, find_line_end, skip_line_break, parse_request_line, skip_space,
  read_digits, read_number, read_sign, strtol, parse_port_value, starts_with, split_path,
  split_port, parse_absolute_url, contains, contains_header_terminator, parse,
}
use concurrent_http_proxy_se.Parser.Shape.{IsRequest, parse-IsRequest}
use concurrent_http_proxy_se.Parser.Url.{IsUrl}
use concurrent_http_proxy_se.Parser.Text.{IsBreak, parse_keeps_text}

abbrev line_break : Bytes
line_break = 13 ∷ 10 ∷ []

abbrev headers : Bytes
headers = codes "Host: a.org" ++ line_break ++ line_break

abbrev text : Bytes
text = codes "GET http://a.org:8080/x HTTP/1.1" ++ line_break ++ headers

abbrev request : Request
request = record {
  method = codes "GET";
  host = codes "a.org";
  port = 8080;
  path = codes "/x";
  version = codes "HTTP/1.1";
  raw_headers = headers;
}

accepted : parse (some text) ≡ some request
unfolding copy_substring split_at find_line_end skip_line_break parse_request_line skip_space
    read_digits read_number read_sign strtol parse_port_value starts_with split_path split_port
    parse_absolute_url contains contains_header_terminator parse bytes_eq
accepted = refl

-- A request without header fields is refused, although a blank line ends it.
no_header_fields :
    parse (some (codes "GET http://a.org/ HTTP/1.0" ++ line_break ++ line_break)) ≡ none
unfolding copy_substring split_at find_line_end skip_line_break parse_request_line skip_space
    read_digits read_number read_sign strtol parse_port_value starts_with split_path split_port
    parse_absolute_url contains contains_header_terminator parse bytes_eq
no_header_fields = refl

parse-IsRequest_example : IsRequest request
parse-IsRequest_example = parse-IsRequest text request accepted

parse_keeps_text_example :
    (url brk : Bytes) × (text
      ≡ (request.method ++ (32 ∷ (url ++ (32 ∷ request.version)))) ++ (brk ++ request.raw_headers))
    × IsBreak brk
    × IsUrl url request.host request.port request.path
parse_keeps_text_example = parse_keeps_text text request accepted
