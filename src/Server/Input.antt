-- ===== src/Server/Input.antt =====
-- src/proxy_server.c, reading a request: what is handed to the parser, and when the loop ends.
use concurrent_http_proxy_se.Base.{
  ℕ, zero, suc, ◌+◌, ◌-◌, ◌≤◌, ◌⊎◌, inl, inr, length-append, append_assoc, append-nil, ◌≡◌, refl,
  sym, ap, ◌∙◌, subst, arith, ltb, ltb→lt, ltb→ge, length, Bool, true, false, if◌then◌else◌, Option,
  none, some, [], ◌∷◌, ◌++◌,
}
use concurrent_http_proxy_se.Bytes.{Bytes}
use concurrent_http_proxy_se.Parser.{contains, starts_with}
use concurrent_http_proxy_se.Server.{
  Reading, broken, too_large, request_bytes, reading_of, ends, goes_on, round_of, read_loop,
  read_request_bytes, buffer_has_complete_headers, c_string,
}
use concurrent_http_proxy_se.Sockets.{Os, Trace, received, refused, read}
use concurrent_http_proxy_se.Sockets.Open.{input}
use concurrent_http_proxy_se.Forwarder.Relay.{BoundedRecv}

module _ (os : Os) (t : Trace) (client size : ℕ) (buffer : Bytes) where
  pub read_loop-zero : read_loop zero os t client size buffer ≡ (reading_of size buffer, t)
  unfolding read_loop
  read_loop-zero = refl

module _ (fuel : ℕ) (os : Os) (t : Trace) (client size : ℕ) (buffer : Bytes) where
  pub read_loop-full :
      ltb (length buffer) (size - 1) ≡ false
      → read_loop (suc fuel) os t client size buffer ≡ (reading_of size buffer, t)
  unfolding read_loop
  read_loop-full e = ground (arith, e)

  pub read_loop-ends :
      (reading : Reading)
      → ltb (length buffer) (size - 1) ≡ true
      → round_of size buffer (read os t client (size - 1 - length buffer)).0 ≡ ends reading
      → read_loop (suc fuel) os t client size buffer
        ≡ (reading, (read os t client (size - 1 - length buffer)).1)
  unfolding read_loop
  read_loop-ends reading e f = ground (arith, e, f)

  pub read_loop-goes_on :
      (all : Bytes)
      → ltb (length buffer) (size - 1) ≡ true
      → round_of size buffer (read os t client (size - 1 - length buffer)).0 ≡ goes_on all
      → read_loop (suc fuel) os t client size buffer
        ≡ read_loop fuel os (read os t client (size - 1 - length buffer)).1 client size all
  unfolding read_loop
  read_loop-goes_on all e f = ground (arith, e, f)

-- The three answers of a `recv` while there is room.
module _ (fuel : ℕ) (os : Os) (t : Trace) (client size : ℕ) (buffer : Bytes)
    (room : ltb (length buffer) (size - 1) ≡ true) where
  error_step :
      os.recv t client (size - 1 - length buffer) ≡ none
      → read_loop (suc fuel) os t client size buffer ≡ (broken, refused client ∷ t)
  unfolding read_loop round_of read
  error_step e = ground (arith, room, e)

  over_step :
      os.recv t client (size - 1 - length buffer) ≡ some []
      → read_loop (suc fuel) os t client size buffer
        ≡ (request_bytes buffer, received client [] ∷ t)
  unfolding read_loop round_of read
  over_step e = ground (arith, room, e)

  module _ (x : ℕ) (xs : Bytes)
      (e : os.recv t client (size - 1 - length buffer) ≡ some (x ∷ xs)) where
    complete_step :
        buffer_has_complete_headers (buffer ++ (x ∷ xs)) ≡ true
        → read_loop (suc fuel) os t client size buffer
          ≡ (request_bytes (buffer ++ (x ∷ xs)), received client (x ∷ xs) ∷ t)
    unfolding read_loop round_of read
    complete_step c = ground (arith, room, e, c)

    more_step :
        buffer_has_complete_headers (buffer ++ (x ∷ xs)) ≡ false
        → read_loop (suc fuel) os t client size buffer
          ≡ read_loop fuel os (received client (x ∷ xs) ∷ t) client size (buffer ++ (x ∷ xs))
    unfolding read_loop round_of read
    more_step c = ground (arith, room, e, c)

-- What is read, `start` being what the socket gave before: the bytes of a request are all the socket
-- gave since, at the end of the header or of the stream; too large is a full buffer without the end
-- of the header; broken is an error of the last `recv`.
abbrev pub IsReading : ℕ → ℕ → Bytes → Reading × Trace → Type 0
IsReading client size start (broken, u) = (v : Trace) × (u ≡ refused client ∷ v)
IsReading client size start (too_large, u) =
    (all : Bytes) × (input client u ≡ start ++ all)
    × (length all ≡ size - 1)
    × (buffer_has_complete_headers all ≡ false)
IsReading client size start (request_bytes b, u) =
    (input client u ≡ start ++ b)
    × (length b ≤ size - 1)
    × ((buffer_has_complete_headers b ≡ true) ⊎ ((v : Trace) × (u ≡ received client [] ∷ v)))

full-IsReading :
    (client size : ℕ) (start buffer : Bytes) (t : Trace)
    → size - 1 ≤ length buffer
    → length buffer ≤ size - 1
    → input client t ≡ start ++ buffer
    → buffer_has_complete_headers buffer ≡ false
    → IsReading client size start (reading_of size buffer, t)
full-IsReading client size start buffer t h g i c =
    subst (λ r. IsReading client size start (r, t)) (sym is_full)
      (buffer, i, omega (arith, h, g), c)
  where
    is_full : reading_of size buffer ≡ too_large
    is_full = ground (arith, h)

input-received : (s : ℕ) (b : Bytes) (t : Trace) → input s (received s b ∷ t) ≡ input s t ++ b
input-received s b t = ground arith

module _ (os : Os) (client size : ℕ) (start : Bytes) (br : BoundedRecv os) where
  read_loop-IsReading :
      (fuel : ℕ) (t : Trace) (buffer : Bytes)
      → size - 1 ≤ length buffer + fuel
      → length buffer ≤ size - 1
      → input client t ≡ start ++ buffer
      → buffer_has_complete_headers buffer ≡ false
      → IsReading client size start (read_loop fuel os t client size buffer)
  read_loop-IsReading zero t buffer h g i c =
      subst (IsReading client size start) (sym (read_loop-zero os t client size buffer))
        (full-IsReading client size start buffer t (omega (arith, h)) g i c)
  read_loop-IsReading (suc fuel) t buffer h g i c =
      by_room (ltb (length buffer) (size - 1)) refl λ u b. read_loop-IsReading fuel u b
    where
      Result : Type 0
      Result = IsReading client size start (read_loop (suc fuel) os t client size buffer)

      Next : Type 0
      Next =
          (u : Trace) (b : Bytes)
          → size - 1 ≤ length b + fuel
          → length b ≤ size - 1
          → input client u ≡ start ++ b
          → buffer_has_complete_headers b ≡ false
          → IsReading client size start (read_loop fuel os u client size b)

      by_end :
          (x : ℕ) (xs : Bytes)
          → ltb (length buffer) (size - 1) ≡ true
          → os.recv t client (size - 1 - length buffer) ≡ some (x ∷ xs)
          → Next
          → (b : Bool) → buffer_has_complete_headers (buffer ++ (x ∷ xs)) ≡ b
          → input client (received client (x ∷ xs) ∷ t) ≡ start ++ (buffer ++ (x ∷ xs))
          → length (buffer ++ (x ∷ xs)) ≤ size - 1
          → Result
      by_end x xs room e ih true d j l =
          subst (IsReading client size start)
            (sym (complete_step fuel os t client size buffer room x xs e d)) (j, l, inl d)
      by_end x xs room e ih false d j l =
          subst (IsReading client size start)
            (sym (more_step fuel os t client size buffer room x xs e d))
            (ih (received client (x ∷ xs) ∷ t) (buffer ++ (x ∷ xs))
              (omega (arith, h, length-append buffer (x ∷ xs))) l j d)

      by_answer :
          (a : Option Bytes)
          → ltb (length buffer) (size - 1) ≡ true
          → os.recv t client (size - 1 - length buffer) ≡ a
          → Next
          → Result
      by_answer none room e ih =
          subst (IsReading client size start) (sym (error_step fuel os t client size buffer room e))
            (t, refl)
      by_answer (some []) room e ih =
          subst (IsReading client size start) (sym (over_step fuel os t client size buffer room e))
            (input-received client [] t ∙ append-nil (input client t) ∙ i, g, inr (t, refl))
      by_answer (some (x ∷ xs)) room e ih =
          by_end x xs room e ih (buffer_has_complete_headers (buffer ++ (x ∷ xs))) refl
            (input-received client (x ∷ xs) t
              ∙ ap (λ o. o ++ (x ∷ xs)) i
              ∙ append_assoc start buffer (x ∷ xs))
            (omega (
              arith,
              g,
              ltb→lt (length buffer) (size - 1) room,
              length-append buffer (x ∷ xs),
              br t client (size - 1 - length buffer) (x ∷ xs) e,
            ))

      by_room : (b : Bool) → ltb (length buffer) (size - 1) ≡ b → Next → Result
      by_room false e ih =
          subst (IsReading client size start) (sym (read_loop-full fuel os t client size buffer e))
            (full-IsReading client size start buffer t (ltb→ge (length buffer) (size - 1) e) g i c)
      by_room true e ih = by_answer (os.recv t client (size - 1 - length buffer)) e refl ih

no_headers : buffer_has_complete_headers [] ≡ false
unfolding buffer_has_complete_headers c_string contains starts_with
no_headers = refl

-- With a buffer of two bytes at least and a `recv` that respects the size of its buffer, and whatever
-- else the network does: a request that read_request_bytes returns is all that the client's socket
-- gave during the call, fits the buffer with its terminating NUL, and is there because a complete
-- header is in it or because the stream was at its end. "Too large" is a buffer that is full of bytes of the client
-- and has no complete header. An error is one of the last `recv`. So the rounds of the loop are enough.
pub read_request_bytes-IsReading :
    (os : Os) (t : Trace) (client size : ℕ)
    → BoundedRecv os
    → 2 ≤ size
    → IsReading client size (input client t) (read_request_bytes os t client size)
unfolding read_request_bytes
read_request_bytes-IsReading os t client size br two = by_size (ltb size 2) refl
  where
    by_size :
        (b : Bool)
        → ltb size 2 ≡ b
        → IsReading client size
            (input client t)
            (if◌then◌else◌ {A = Reading × Trace} b (broken, t) (read_loop size os t client size []))
    by_size true e = absurd (omega (arith, two, ltb→lt size 2 e))
    by_size false e =
        read_loop-IsReading os client size (input client t) br size t [] (omega arith) (omega arith)
          (sym (append-nil (input client t))) no_headers
