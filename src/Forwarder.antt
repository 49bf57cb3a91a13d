-- ===== src/Forwarder.antt =====
-- src/response_forwarder.c: the request that goes to the origin, and the relay of its response with
-- a copy for the cache. The capture and the result that the caller passes are not NULL, as in the
-- only call. How many rounds the relay makes depends on the origin: it runs on fuel, and `none` is
-- a relay that is not over.
pub mod Fields
pub mod Headers
pub mod Request
pub mod Copy
pub mod Relay
pub mod Rounds
pub mod Steps
pub mod Forward
pub mod Finish
mod Tests
use concurrent_http_proxy_se.Base.{
  ℕ, zero, suc, ◌+◌, ◌*◌, ◌%◌, ◌^◌, ◌==◌, ltb, add_size, length, if◌then◌else◌, Bool, true, false,
  not, ◌&&◌, ◌||◌, Option, none, some, ◌>>=◌, List, [], ◌∷◌, ◌++◌, Status, done, failed,
}
use concurrent_http_proxy_se.Bytes.{Bytes, codes, bytes_eq}
use concurrent_http_proxy_se.Decimal.{decimal}
use concurrent_http_proxy_se.Parser
use concurrent_http_proxy_se.Parser.{split_at}
use concurrent_http_proxy_se.Sockets.{
  Os, Trace, close, read, write_all, set_timeout, connect_to_host,
}

-- An ASCII letter in lower case.
abbrev pub lower : ℕ → ℕ
lower ch = if ltb 64 ch && ltb ch 91 then ch + 32 else ch

unfoldable pub lower_eq : Bytes → Bytes → Bool
lower_eq [] [] = true
lower_eq [] (y ∷ ys) = false
lower_eq (x ∷ xs) [] = false
lower_eq (x ∷ xs) (y ∷ ys) = (lower x == lower y) && lower_eq xs ys

unfoldable pub header_name_equals : Bytes → Bytes → Bool
header_name_equals name expected = (length expected == length name) && lower_eq name expected

-- Whether a header line is left out: the name before its colon is one of three.
unfoldable pub should_skip : Bytes → Bool
should_skip line = elim (split_at 58 line) [
  | none ↦ false
  | some (name, rest) ↦
      header_name_equals name (codes "host")
      || header_name_equals name (codes "connection")
      || header_name_equals name (codes "proxy-connection")
]

-- The line up to the first CR LF, and what is behind that; `none` at the end of the string.
unfoldable pub split_line : Bytes → Bytes × Option Bytes
split_line [] = ([], none)
split_line (x ∷ []) = (x ∷ [], none)
split_line (x ∷ y ∷ xs) =
    let (line, rest) = split_line (y ∷ xs) in
    if (x == 13) && (y == 10) then ([], some xs) else (x ∷ line, rest)

-- `snprintf(buffer + offset, size - offset, ...)` behind `out`, of which `offset` is the length.
abbrev pub append_text : ℕ → Bytes → Bytes → Option Bytes
append_text size out text = if ltb (length out + length text) size then some (out ++ text) else none

abbrev pub line_break : Bytes
line_break = 13 ∷ 10 ∷ []

-- A line is copied unless its header is left out.
abbrev pub append_line : ℕ → Bytes → Bytes → Option Bytes
append_line size out line =
    if should_skip line then some out else append_text size out (line ++ line_break)

-- The loop of `append_filtered_headers`, with fuel; `out` is the buffer up to the offset.
unfoldable pub append_headers : ℕ → ℕ → Bytes → Bytes → Option Bytes
append_headers fuel size out [] = some out
append_headers zero size out (x ∷ xs) = some out
append_headers (suc fuel) size out (x ∷ xs) =
    let (line, rest) = split_line (x ∷ xs) in
    elim (length line == 0) [
      | true ↦ some out
      | false ↦ append_line size out line >>= λ o. elim rest [
        | none ↦ some o
        | some more ↦ append_headers fuel size o more
      ]
    ]

-- Each round takes a line and its break.
unfoldable pub append_filtered_headers : ℕ → Bytes → Bytes → Option Bytes
append_filtered_headers size out raw_headers =
    append_headers (length raw_headers) size out raw_headers

-- What the first `snprintf` of `build_origin_request` prints.
abbrev pub request_head : Parser.Request → Bytes
request_head r =
    r.method
    ++ (32
        ∷ (r.path
            ++ (32
                ∷ (r.version
                    ++ (line_break
                        ++ (codes "Host: "
                            ++ (r.host
                                ++ (58
                                    ∷ (decimal r.port
                                        ++ (line_break
                                            ++ (codes "Connection: close" ++ line_break)))))))))))

unfoldable pub build_origin_request : Parser.Request → ℕ → Option Bytes
build_origin_request r size = do
  head ← append_text size [] (request_head r)
  headers ← append_filtered_headers size head r.raw_headers
  append_text size headers line_break

-- The copy for the cache: what was copied so far, `none` before there is a buffer and after it is
-- given up; `capture_size` is the length of the copy.
pub record Capture : Type 0 where
  pub capture_buffer : Option Bytes
  pub capture_size : ℕ
  pub capture_capacity : ℕ
  pub capture_enabled : Bool

-- `while (next_capacity < needed) next_capacity *= 2`, with fuel.
unfoldable pub grow : ℕ → ℕ → ℕ → ℕ
grow zero needed capacity = capacity
grow (suc fuel) needed capacity = elim (ltb capacity needed) [
  | true ↦ grow fuel needed ((capacity * 2) % 2 ^ 64)
  | false ↦ capacity
]

-- The buffer is freed.
abbrev pub given_up : Capture
given_up = record {
  capture_buffer = none;
  capture_size = 0;
  capture_capacity = 0;
  capture_enabled = false;
}

-- Where the doubling starts.
abbrev pub start_capacity : Capture → ℕ → ℕ
start_capacity c bytes_read =
    if c.capture_capacity == 0 then bytes_read else (c.capture_capacity * 2) % 2 ^ 64

-- What `realloc` keeps; of NULL it makes a new block.
abbrev pub kept_bytes : Option Bytes → Option Bytes
kept_bytes none = some []
kept_bytes (some b) = some b

-- After a `realloc` to `capacity` bytes that succeeds or not.
abbrev pub reallocated : Capture → ℕ → Bool → Capture
reallocated c capacity true = record c {
  capture_buffer = kept_bytes c.capture_buffer;
  capture_capacity = capacity;
}
reallocated c capacity false = given_up

-- A buffer for `needed` bytes: the old one, or a larger one with the bytes of the old one.
unfoldable pub make_room : Os → Trace → Capture → ℕ → ℕ → Capture
make_room os t c bytes_read needed =
    if ltb c.capture_capacity needed
    then (let next_capacity = grow needed needed (start_capacity c bytes_read) in
        reallocated c next_capacity (os.memory t next_capacity))
    else c

-- The `memcpy` behind the bytes that are there.
abbrev pub copy_chunk : Capture → Bytes → Capture
copy_chunk c chunk =
    if c.capture_enabled
    then record c {
      capture_buffer = c.capture_buffer >>= λ b. some (b ++ chunk);
      capture_size = add_size c.capture_size (length chunk);
    }
    else c

-- What one round of the relay does with the copy.
unfoldable pub capture_chunk : Os → Trace → ℕ → Capture → Bytes → Capture
capture_chunk os t max c chunk =
    if c.capture_enabled
    then (let needed = add_size c.capture_size (length chunk) in
        if ltb max needed
        then given_up
        else copy_chunk (make_room os t c (length chunk) needed) chunk)
    else c

-- How a forwarding ended: its status, the capture and the byte count that the caller gets, and the
-- memory that is left allocated with nobody to free it.
pub record Forwarded : Type 0 where
  pub status : Status
  pub captured : Option Bytes
  pub origin_response_bytes : ℕ
  pub lost : Option Bytes

abbrev pub failure : ℕ → Forwarded
failure total = record {
  status = failed;
  captured = none;
  origin_response_bytes = total;
  lost = none;
}

-- The end of the relay: an enabled capture is handed over.
abbrev pub success : Capture → ℕ → Forwarded
success c total = record {
  status = done;
  captured = if c.capture_enabled then c.capture_buffer else none;
  origin_response_bytes = total;
  lost = none;
}

-- The loop of `response_forwarder_forward`, with fuel.
unfoldable pub relay :
    ℕ → Os → Trace → (origin client max : ℕ) → Capture → ℕ → Option (Forwarded × Trace)
relay zero os t origin client max c total = none
relay (suc fuel) os t origin client max c total =
    let (answer, t1) = read os t origin 8192 in
    elim answer [
      | none ↦ some (record (failure total) { lost = c.capture_buffer }, close t1 origin)
      | some [] ↦ some (success c total, close t1 origin)
      | some (x ∷ xs) ↦
          let c1 = capture_chunk os t1 max c (x ∷ xs) in
          let total1 = add_size total (length (x ∷ xs)) in
          let (status, t2) = write_all os t1 client (x ∷ xs) in
          elim status [
            | failed ↦ some (failure total1, close t2 origin)
            | done ↦ relay fuel os t2 origin client max c1 total1
          ]
    ]

-- From the connected socket on.
unfoldable pub forward_to :
    ℕ → Os → Trace → (origin client : ℕ) → Parser.Request → ℕ → Option (Forwarded × Trace)
forward_to fuel os t origin client request max =
    let (status, t1) = set_timeout os t origin in
    elim status [
      | failed ↦ some (failure 0, close t1 origin)
      | done ↦ elim (build_origin_request request 12288) [
        | none ↦ some (failure 0, close t1 origin)
        | some text ↦
            let (sent, t2) = write_all os t1 origin text in
            elim sent [
              | failed ↦ some (failure 0, close t2 origin)
              | done ↦
                  relay fuel os t2 origin client max
                    (record {
                      capture_buffer = none;
                      capture_size = 0;
                      capture_capacity = 0;
                      capture_enabled = ltb 0 max;
                    })
                    0
            ]
      ]
    ]

-- `response_forwarder_forward`
unfoldable pub forward : ℕ → Os → Trace → ℕ → Parser.Request → ℕ → Option (Forwarded × Trace)
forward fuel os t client request max =
    let (connected, t1) = connect_to_host os t request.host request.port in
    elim connected [
      | none ↦ some (failure 0, t1)
      | some origin ↦ forward_to fuel os t1 origin client request max
    ]
