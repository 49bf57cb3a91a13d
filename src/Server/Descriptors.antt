-- ===== src/Server/Descriptors.antt =====
-- The sockets that a worker of src/proxy_server.c leaves open, on every path.
use concurrent_http_proxy_se.Base.{
  ℕ, zero, suc, ◌-◌, ◌≡◌, refl, sym, ap, ◌∙◌, subst, arith, ltb, length, Bool, true, false, ◌&&◌,
  if◌then◌else◌, Option, none, some, [], ◌∷◌, Status, done, failed,
}
use concurrent_http_proxy_se.Bytes.{Bytes}
use concurrent_http_proxy_se.Cache
use concurrent_http_proxy_se.Cache.{Cache, Value, no_value}
use concurrent_http_proxy_se.Forwarder.{Forwarded}
use concurrent_http_proxy_se.Forwarder.Relay.{BoundedRecv}
use concurrent_http_proxy_se.Forwarder.Forward.{AllForwards, forward-Forwards}
use concurrent_http_proxy_se.Parser.{Request}
use concurrent_http_proxy_se.Responses.{response_text, error_response_send}
use concurrent_http_proxy_se.Server.{
  World, Allocator, Reading, broken, too_large, request_bytes, Round, ends, goes_on, round_of,
  read_loop, read_request_bytes, build_cache_key, refuse, write_cached, serve_cached, stored, store,
  after_forward, forwarded, serve_miss, looked_up, keyed, serve_request, parsed, serve_reading,
  timed, process,
}
use concurrent_http_proxy_se.Server.Input.{
  read_loop-zero, read_loop-full, read_loop-ends, read_loop-goes_on,
}
use concurrent_http_proxy_se.Sockets.{Os, Trace, close, read, write_all}
use concurrent_http_proxy_se.Sockets.Open.{
  IsOpen, IsProper, open_sockets, remove, Keeps, Keeps-refl, Keeps-trans, Keeps-IsOpen,
}
use concurrent_http_proxy_se.Sockets.Write.{write_all-Keeps}
use concurrent_http_proxy_se.Sockets.Connect.{NewSockets, set_timeout-Keeps, read-Keeps}

pub error_response_send-Keeps :
    (os : Os) (t : Trace) (client code : ℕ) (reason body : Bytes)
    → IsOpen client t
    → Keeps t (error_response_send os t client code reason body).1
unfolding error_response_send
error_response_send-Keeps os t client code reason body o =
    by_size (ltb (length (response_text code reason body)) 512)
  where
    by_size :
        (b : Bool)
        → Keeps t
            (if◌then◌else◌ {A = Status × Trace} b
              (write_all os t client (response_text code reason body))
              (failed, t)).1
    by_size true = write_all-Keeps os t client (response_text code reason body) o
    by_size false = Keeps-refl t

read_loop-Keeps :
    (fuel : ℕ) (os : Os) (t : Trace) (client size : ℕ) (buffer : Bytes)
    → IsOpen client t
    → Keeps t (read_loop fuel os t client size buffer).1
read_loop-Keeps zero os t client size buffer o =
    subst (λ r. Keeps t r.1) (sym (read_loop-zero os t client size buffer)) (Keeps-refl t)
read_loop-Keeps (suc fuel) os t client size buffer o =
    by_room (ltb (length buffer) (size - 1)) refl
      λ b. read_loop-Keeps fuel os answer.1 client size b (Keeps-IsOpen client k o)
  where
    answer : Option Bytes × Trace
    answer = read os t client (size - 1 - length buffer)

    k : Keeps t answer.1
    k = read-Keeps os t client (size - 1 - length buffer) o

    by_round :
        (r : Round)
        → ltb (length buffer) (size - 1) ≡ true
        → round_of size buffer answer.0 ≡ r
        → ((b : Bytes) → Keeps answer.1 (read_loop fuel os answer.1 client size b).1)
        → Keeps t (read_loop (suc fuel) os t client size buffer).1
    by_round (ends reading) room e ih =
        subst (λ r. Keeps t r.1) (sym (read_loop-ends fuel os t client size buffer reading room e))
          k
    by_round (goes_on all) room e ih =
        subst (λ r. Keeps t r.1) (sym (read_loop-goes_on fuel os t client size buffer all room e))
          (Keeps-trans k (ih all))

    by_room :
        (b : Bool)
        → ltb (length buffer) (size - 1) ≡ b
        → ((b : Bytes) → Keeps answer.1 (read_loop fuel os answer.1 client size b).1)
        → Keeps t (read_loop (suc fuel) os t client size buffer).1
    by_room false e ih =
        subst (λ r. Keeps t r.1) (sym (read_loop-full fuel os t client size buffer e))
          (Keeps-refl t)
    by_room true e ih = by_round (round_of size buffer answer.0) e refl ih

read_request_bytes-Keeps :
    (os : Os) (t : Trace) (client size : ℕ)
    → IsOpen client t
    → Keeps t (read_request_bytes os t client size).1
unfolding read_request_bytes
read_request_bytes-Keeps os t client size o = by_size (ltb size 2)
  where
    by_size :
        (b : Bool)
        → Keeps t
            (if◌then◌else◌ {A = Reading × Trace} b
              (broken, t)
              (read_loop size os t client size [])).1
    by_size true = Keeps-refl t
    by_size false = read_loop-Keeps size os t client size [] o

-- The socket of the client is closed, and that is all that changed.
pub record ClosesClient (client : ℕ) (t u : Trace) : Type 0 where
  pub still_open : open_sockets u ≡ remove client (open_sockets t)
  pub proper : IsProper t → IsProper u

abbrev pub AllClose : ℕ → Trace → Option World → Type 0
AllClose client t none = Unit
AllClose client t (some w) = ClosesClient client t w.trace

close-Keeps :
    {t u : Trace} (client : ℕ)
    → IsOpen client t
    → Keeps t u
    → ClosesClient client t (close u client)
close-Keeps client o k = record {
  still_open = ap (remove client) k.same_open;
  proper = λ p. (Keeps-IsOpen client k o, k.proper p);
}

after_Keeps :
    {t u : Trace} (client : ℕ) (r : Option World)
    → Keeps t u
    → AllClose client u r
    → AllClose client t r
after_Keeps client none k h = tt
after_Keeps client (some w) k h = record {
  still_open = h.still_open ∙ ap (remove client) k.same_open;
  proper = λ p. h.proper (k.proper p);
}

module _ (os : Os) (client : ℕ) where
  refuse-Closes :
      (w : World) (code : ℕ) (reason body : Bytes)
      → IsOpen client w.trace
      → ClosesClient client w.trace (refuse os w client code reason body).trace
  unfolding refuse
  refuse-Closes w code reason body o =
      close-Keeps client o (error_response_send-Keeps os w.trace client code reason body o)

  write_cached-Keeps :
      (t : Trace) (b : Option Bytes) (size : ℕ)
      → IsOpen client t
      → Keeps t (write_cached os t client b size).1
  write_cached-Keeps t none size o = Keeps-refl t
  write_cached-Keeps t (some b) size o = write_all-Keeps os t client _ o

  serve_cached-Closes :
      (w : World) (value : Value)
      → IsOpen client w.trace
      → ClosesClient client w.trace (serve_cached os w client value).trace
  unfolding serve_cached
  serve_cached-Closes w value o =
      close-Keeps client o (write_cached-Keeps w.trace value.bytes value.size_bytes o)

  stored-trace : (w : World) (r : Status × Bool × Cache) → (stored w r).trace ≡ w.trace
  stored-trace w (failed, e, c) = refl
  stored-trace w (done, e, c) = refl

  -- Storing talks to nobody.
  pub store-trace :
      (alloc : Allocator) (w : World) (key : Bytes) (b : Option Bytes)
      → (store alloc w key b).trace ≡ w.trace
  unfolding store
  store-trace alloc w key none = refl
  store-trace alloc w key (some bytes) = by_test (ltb 0 (length key) && ltb 0 (length bytes))
    where
      put : Status × Bool × Cache
      put = Cache.put w.cache (some key) (some bytes) (length bytes) (alloc.blocks w) false

      by_test : (b : Bool) → (if b then stored w put else w).trace ≡ w.trace
      by_test true = stored-trace w put
      by_test false = refl

  after_forward-Closes :
      (alloc : Allocator) (w : World) (key : Bytes) (f : Forwarded) (s : Status)
      → IsOpen client w.trace
      → ClosesClient client w.trace (after_forward os alloc w client key f s).trace
  unfolding after_forward
  after_forward-Closes alloc w key f failed o = refuse-Closes _ 502 _ _ o
  after_forward-Closes alloc w key f done o =
      subst (λ t. ClosesClient client w.trace (close t client))
        (sym (store-trace alloc _ key f.captured)) (close-Keeps client o (Keeps-refl w.trace))

  module _ (fuel : ℕ) (alloc : Allocator) (br : BoundedRecv os) (new : NewSockets os) where
    forwarded-Closes :
        (w : World) (key : Bytes) (r : Option (Forwarded × Trace))
        → IsOpen client w.trace
        → AllForwards os w.trace client 262144 r
        → AllClose client w.trace (forwarded os alloc w client key r)
    forwarded-Closes w key none o h = tt
    forwarded-Closes w key (some r) o h =
        after_Keeps client
          (some (after_forward os alloc (record w { trace = r.1 }) client key r.0 r.0.status))
          h.keeps
          (after_forward-Closes alloc (record w { trace = r.1 }) key r.0 r.0.status
            (Keeps-IsOpen client h.keeps o))

    serve_miss-Closes :
        (w : World) (request : Request) (key : Bytes)
        → IsOpen client w.trace
        → AllClose client w.trace (serve_miss fuel os alloc w client request key)
    unfolding serve_miss
    serve_miss-Closes w request key o =
        forwarded-Closes _ key _ o
          (forward-Forwards fuel os w.trace client 262144 request br (omega arith) new o)

    looked_up-Closes :
        (w : World) (request : Request) (key : Bytes) (r : Status × Value × Cache)
        → IsOpen client w.trace
        → AllClose client w.trace (looked_up fuel os alloc w client request key r)
    looked_up-Closes w request key (done, value, cache) o =
        serve_cached-Closes (record w { cache = cache }) value o
    looked_up-Closes w request key (failed, value, cache) o =
        serve_miss-Closes (record w { cache = cache }) request key o

    keyed-Closes :
        (w : World) (request : Request) (key : Option Bytes)
        → IsOpen client w.trace
        → AllClose client w.trace (keyed fuel os alloc w client request key)
    keyed-Closes w request none o = serve_miss-Closes w request _ o
    keyed-Closes w request (some key) o = looked_up-Closes w request key _ o

    parsed-Closes :
        (w : World) (r : Option Request)
        → IsOpen client w.trace
        → AllClose client w.trace (parsed fuel os alloc w client r)
    unfolding serve_request
    parsed-Closes w none o = refuse-Closes w 400 _ _ o
    parsed-Closes w (some request) o = keyed-Closes w request (build_cache_key request 4096) o

    serve_reading-Closes :
        (w : World) (r : Reading)
        → IsOpen client w.trace
        → AllClose client w.trace (serve_reading fuel os alloc w client r)
    unfolding serve_reading
    serve_reading-Closes w broken o = refuse-Closes w 408 _ _ o
    serve_reading-Closes w too_large o = refuse-Closes w 413 _ _ o
    serve_reading-Closes w (request_bytes []) o = refuse-Closes w 400 _ _ o
    serve_reading-Closes w (request_bytes (x ∷ xs)) o = parsed-Closes _ _ o

    timed-Closes :
        (w : World) (s : Status)
        → IsOpen client w.trace
        → AllClose client w.trace (timed fuel os alloc w client s)
    timed-Closes w failed o = close-Keeps client o (Keeps-refl w.trace)
    timed-Closes w done o =
        let k = read_request_bytes-Keeps os w.trace client 8192 o in
        after_Keeps client _ k (serve_reading-Closes _ _ (Keeps-IsOpen client k o))

    -- What a worker that is through has done with the sockets.
    pub process-Closes :
        (w : World)
        → IsOpen client w.trace
        → AllClose client w.trace (process fuel os alloc w client)
    unfolding process
    process-Closes w o =
        let k = set_timeout-Keeps os w.trace client o in
        after_Keeps client _ k (timed-Closes _ _ (Keeps-IsOpen client k o))
