-- ===== src/Parser.antt =====
-- src/request_parser.c: a proxy request as text into its parts. A C string is its bytes without the
-- NUL, and a pointer into it is the rest of the string. A buffer that does not hold its part makes
-- the parser fail; a failed call leaves a struct that its caller does not read, so it is `none`.
pub mod Parts
pub mod Url
pub mod Shape
pub mod Text
mod Tests
use concurrent_http_proxy_se.Base.{
  ℕ, zero, suc, ◌+◌, ◌-◌, ◌*◌, ◌==◌, ltb, leb, length, drop, if◌then◌else◌, Bool, true, false, not,
  ◌&&◌, ◌||◌, Option, none, some, ◌>>=◌, List, [], ◌∷◌, ◌++◌,
}
use concurrent_http_proxy_se.Bytes.{Bytes, codes, bytes_eq}

-- `http_request_t`
pub record Request : Type 0 where
  pub method : Bytes
  pub host : Bytes
  pub port : ℕ
  pub path : Bytes
  pub version : Bytes
  pub raw_headers : Bytes

-- `copy_substring` of a part into a buffer of `size` bytes.
unfoldable pub copy_substring : ℕ → Bytes → Option Bytes
copy_substring size part = if ltb (length part) size then some part else none

-- The bytes before and after the first `ch`, which `memchr` finds.
unfoldable pub split_at : ℕ → Bytes → Option (Bytes × Bytes)
split_at ch [] = none
split_at ch (x ∷ xs) =
    let rest = split_at ch xs in
    if x == ch then some ([], xs) else do (before, after) ← rest; some (x ∷ before, after)

-- The line and what follows it, from its line break on.
unfoldable pub find_line_end : Bytes → Option (Bytes × Bytes)
find_line_end [] = none
find_line_end (x ∷ xs) =
    let rest = find_line_end xs in
    if (x == 13) || (x == 10)
    then some ([], x ∷ xs)
    else do (line, after) ← rest; some (x ∷ line, after)

unfoldable pub skip_line_break : Bytes → Bytes
skip_line_break [] = []
skip_line_break (x ∷ []) = if (x == 13) || (x == 10) then [] else x ∷ []
skip_line_break (x ∷ y ∷ xs) =
    if (x == 13) && (y == 10) then xs else if (x == 13) || (x == 10) then y ∷ xs else x ∷ y ∷ xs

-- The method, the URL and the version of a request line.
unfoldable pub parse_request_line : Bytes → Option (Bytes × Bytes × Bytes)
parse_request_line line = do
  (word, rest) ← split_at 32 line
  (url, last) ← split_at 32 rest
  method ← copy_substring 8 word
  version ← copy_substring 16 last
  if bytes_eq method (codes "GET")
        && ltb 0 (length url)
        && (bytes_eq version (codes "HTTP/1.0") || bytes_eq version (codes "HTTP/1.1"))
      then some (method, url, version)
      else none

-- `isspace` in the C locale, which `strtol` skips.
abbrev pub is_space : ℕ → Bool
is_space ch = (ch == 32) || (leb 9 ch && leb ch 13)

unfoldable pub skip_space : Bytes → Bytes
skip_space [] = []
skip_space (x ∷ xs) = let rest = skip_space xs in if is_space x then rest else x ∷ xs

abbrev pub is_digit : ℕ → Bool
is_digit ch = leb 48 ch && leb ch 57

-- The number that the digits in front continue, and what is behind them.
unfoldable pub read_digits : ℕ → Bytes → ℕ × Bytes
read_digits n [] = (n, [])
read_digits n (x ∷ xs) =
    let rest = read_digits (n * 10 + (x - 48)) xs in if is_digit x then rest else (n, x ∷ xs)

-- At least one digit, or `strtol` reads nothing.
unfoldable pub read_number : Bytes → Option (ℕ × Bytes)
read_number [] = none
read_number (x ∷ xs) = if is_digit x then some (read_digits 0 (x ∷ xs)) else none

-- The sign and the rest.
unfoldable pub read_sign : Bytes → Bool × Bytes
read_sign [] = (false, [])
read_sign (x ∷ xs) =
    if x == 45 then (true, xs) else if x == 43 then (false, xs) else (false, x ∷ xs)

-- `strtol(text, &end, 10)` on a text of at most 15 bytes, which a long holds: whether the sign is
-- a minus, the number and what is left at `end`.
unfoldable pub strtol : Bytes → Option (Bool × ℕ × Bytes)
strtol text = do
  let (negative, digits) = read_sign (skip_space text)
  (n, rest) ← read_number digits
  some (negative, n, rest)

unfoldable pub parse_port_value : Bytes → Option ℕ
parse_port_value text = do
  port_buffer ← copy_substring 16 text
  (negative, n, rest) ← strtol port_buffer
  if (length rest == 0) && not negative && leb 1 n && leb n 65535 then some n else none

-- `strncmp(s, prefix, strlen(prefix)) == 0`
unfoldable pub starts_with : Bytes → Bytes → Bool
starts_with [] s = true
starts_with (x ∷ prefix) [] = false
starts_with (x ∷ prefix) (y ∷ s) = (x == y) && starts_with prefix s

-- The authority and the path of what follows the scheme.
unfoldable pub split_path : Bytes → Bytes × Bytes
split_path s = elim (split_at 47 s) [
  | none ↦ (s, 47 ∷ [])
  | some (authority, rest) ↦ (authority, 47 ∷ rest)
]

-- The host and the port of an authority.
unfoldable pub split_port : Bytes → Option (Bytes × ℕ)
split_port authority = elim (split_at 58 authority) [
  | none ↦ some (authority, 80)
  | some (host, text) ↦ parse_port_value text >>= λ port. some (host, port)
]

-- The host, the port and the path.
unfoldable pub parse_absolute_url : Bytes → Option (Bytes × ℕ × Bytes)
parse_absolute_url url =
    if leb (length url) 7 || not (starts_with (codes "http://") url) then none else do
      let (authority, tail) = split_path (drop 7 url)
      path ← copy_substring 2048 tail
      (name, port) ← split_port authority
      host ← copy_substring 256 name
      if ltb 0 (length host) then some (host, port, path) else none

-- `strstr(s, needle) != NULL`
unfoldable pub contains : Bytes → Bytes → Bool
contains needle [] = starts_with needle []
contains needle (x ∷ xs) = starts_with needle (x ∷ xs) || contains needle xs

unfoldable pub contains_header_terminator : Bytes → Bool
contains_header_terminator headers =
    contains (13 ∷ 10 ∷ 13 ∷ 10 ∷ []) headers || contains (10 ∷ 10 ∷ []) headers

-- `request_parser_parse`; a NULL text is `none`.
unfoldable pub parse : Option Bytes → Option Request
parse none = none
parse (some text) = do
  (line, after) ← find_line_end text
  (method, url, version) ← parse_request_line line
  (host, port, path) ← parse_absolute_url url
  let headers = skip_line_break after
  raw_headers ← copy_substring 8192 headers
  if ltb 0 (length line) && contains_header_terminator headers
      then some (record {
        method = method;
        host = host;
        port = port;
        path = path;
        version = version;
        raw_headers = raw_headers;
      })
      else none
