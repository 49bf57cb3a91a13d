-- ===== src/Workers/Alone.antt =====
-- A worker that is alone does what `process` of the Server module says.
use concurrent_http_proxy_se.Base.{
  ℕ, ltb, length, ◌≡◌, refl, ◌∙◌, Bool, true, false, ◌&&◌, if◌then◌else◌, Option, none, some, [],
  ◌∷◌, Status, done, failed,
}
use concurrent_http_proxy_se.Bytes.{Bytes}
use concurrent_http_proxy_se.Cache
use concurrent_http_proxy_se.Cache.{Cache, Value, no_value}
use concurrent_http_proxy_se.Forwarder
use concurrent_http_proxy_se.Forwarder.{Forwarded}
use concurrent_http_proxy_se.Metrics.Counts.{miss, apply, run}
use concurrent_http_proxy_se.Metrics.{
  increment_total_requests, increment_active_connections, increment_cache_misses, add_bytes_in,
  add_bytes_out,
}
use concurrent_http_proxy_se.Parser.{Request}
use concurrent_http_proxy_se.Server
use concurrent_http_proxy_se.Server.{
  World, Allocator, Reading, broken, too_large, request_bytes, c_string, build_cache_key,
  read_request_bytes,
}
use concurrent_http_proxy_se.Sockets.{Os, Trace, set_timeout}
use concurrent_http_proxy_se.Workers.{
  Handler, over, unfinished, counts, looks_up, puts, finish, refuse, serve_cached, stored, store,
  after_forward, forwarded, serve_miss, looked_up, keyed, parsed, serve_reading, timed, handle,
}

-- Every call follows the one before; nobody else calls.
unfoldable pub alone : Allocator → World → Handler → Option World
unfolding run
alone alloc w (over t) = some (record w { trace = t })
alone alloc w unfinished = none
alone alloc w (counts e h) = alone alloc (record w { metrics = apply e w.metrics }) h
alone alloc w (looks_up t key f) =
    let u = record w { trace = t } in
    let r = Cache.get u.cache (some key) no_value (alloc.copy u) in
    alone alloc (record u { cache = r.2 }) (f (r.0, r.1))
alone alloc w (puts t key bytes f) =
    let u = record w { trace = t } in
    let r = Cache.put u.cache (some key) (some bytes) (length bytes) (alloc.blocks u) false in
    alone alloc (record u { cache = r.2 }) (f (r.0, r.1))

-- What the world says of the trace does not matter: the handler brings its own.
alone-trace :
    (alloc : Allocator) (h : Handler) (w : World) (t : Trace)
    → alone alloc w h ≡ alone alloc (record w { trace = t }) h
unfolding alone
alone-trace alloc (over u) w t = refl
alone-trace alloc unfinished w t = refl
alone-trace alloc (counts e h) w t =
    alone-trace alloc h (record w { metrics = apply e w.metrics }) t
alone-trace alloc (looks_up u key f) w t = refl
alone-trace alloc (puts u key bytes f) w t = refl

module _ (fuel : ℕ) (os : Os) (alloc : Allocator) (client : ℕ) where
  alone-stored :
      (w : World) (t : Trace) (r : Status × Bool × Cache)
      → alone alloc (record w { trace = t; cache = r.2 }) (stored t client (r.0, r.1))
        ≡ some (Server.finish (Server.stored (record w { trace = t }) r) client)
  unfolding alone
  alone-stored w t (failed, evicted, cache) = refl
  alone-stored w t (done, true, cache) = refl
  alone-stored w t (done, false, cache) = refl

  alone-store :
      (w : World) (key : Bytes) (b : Option Bytes)
      → alone alloc w (store w.trace client key b)
        ≡ some (Server.finish (Server.store alloc w key b) client)
  unfolding alone store Server.store
  alone-store w key none = refl
  alone-store w key (some bytes) = by_test (ltb 0 (length key) && ltb 0 (length bytes))
    where
      put : Status × Bool × Cache
      put = Cache.put w.cache (some key) (some bytes) (length bytes) (alloc.blocks w) false

      by_test :
          (b : Bool)
          → alone alloc w
              (if b then puts w.trace key bytes (stored w.trace client) else finish w.trace client)
            ≡ some (Server.finish (if b then Server.stored w put else w) client)
      by_test true = alone-stored w w.trace put
      by_test false = refl

  alone-after_forward :
      (w : World) (key : Bytes) (f : Forwarded) (s : Status)
      → alone alloc w (after_forward os w.trace client key f s)
        ≡ some (Server.after_forward os alloc w client key f s)
  unfolding alone after_forward Server.after_forward refuse Server.refuse
  alone-after_forward w key f failed = refl
  alone-after_forward w key f done =
      alone-store (record w { metrics = add_bytes_out w.metrics f.origin_response_bytes }) key
        f.captured

  alone-forwarded :
      (w : World) (key : Bytes) (r : Option (Forwarded × Trace))
      → alone alloc w (forwarded os client key r) ≡ Server.forwarded os alloc w client key r
  unfolding alone
  alone-forwarded w key none = refl
  alone-forwarded w key (some (f, t)) =
      alone-trace alloc (after_forward os t client key f f.status) w t
      ∙ alone-after_forward (record w { trace = t }) key f f.status

  alone-serve_miss :
      (w : World) (r : Request) (key : Bytes)
      → alone alloc w (serve_miss fuel os w.trace client r key)
        ≡ Server.serve_miss fuel os alloc w client r key
  unfolding alone serve_miss Server.serve_miss
  alone-serve_miss w r key = by_key (ltb 0 (length key))
    where
      result : Option (Forwarded × Trace)
      result = Forwarder.forward fuel os w.trace client r 262144

      by_key :
          (b : Bool)
          → alone alloc w (
              if b
              then counts miss (forwarded os client key result)
              else forwarded os client key result)
            ≡ Server.forwarded os alloc
                (record w { metrics = if b then increment_cache_misses w.metrics else w.metrics })
                client
                key
                result
      by_key true =
          alone-forwarded (record w { metrics = increment_cache_misses w.metrics }) key result
      by_key false = alone-forwarded w key result

  alone-looked_up :
      (w : World) (r : Request) (key : Bytes) (l : Status × Value × Cache)
      → alone alloc (record w { cache = l.2 }) (looked_up fuel os w.trace client r key (l.0, l.1))
        ≡ Server.looked_up fuel os alloc w client r key l
  unfolding alone serve_cached Server.serve_cached
  alone-looked_up w r key (done, value, cache) = refl
  alone-looked_up w r key (failed, value, cache) =
      alone-serve_miss (record w { cache = cache }) r key

  alone-keyed :
      (w : World) (r : Request) (key : Option Bytes)
      → alone alloc w (keyed fuel os w.trace client r key)
        ≡ Server.keyed fuel os alloc w client r key
  unfolding alone
  alone-keyed w r none = alone-serve_miss w r _
  alone-keyed w r (some key) = alone-looked_up w r key _

  alone-parsed :
      (w : World) (r : Option Request)
      → alone alloc w (parsed fuel os w.trace client r) ≡ Server.parsed fuel os alloc w client r
  unfolding alone refuse Server.refuse Server.serve_request
  alone-parsed w none = refl
  alone-parsed w (some r) = alone-keyed w r (build_cache_key r 4096)

  alone-serve_reading :
      (w : World) (r : Reading)
      → alone alloc w (serve_reading fuel os w.trace client r)
        ≡ Server.serve_reading fuel os alloc w client r
  unfolding alone serve_reading Server.serve_reading refuse Server.refuse
  alone-serve_reading w broken = refl
  alone-serve_reading w too_large = refl
  alone-serve_reading w (request_bytes []) = refl
  alone-serve_reading w (request_bytes (x ∷ xs)) =
      alone-parsed (record w { metrics = add_bytes_in w.metrics (length (x ∷ xs)) }) _

  alone-timed :
      (w : World) (s : Status)
      → alone alloc w (timed fuel os w.trace client s) ≡ Server.timed fuel os alloc w client s
  unfolding alone
  alone-timed w failed = refl
  alone-timed w done =
      let (reading, t) = read_request_bytes os w.trace client 8192 in
      alone-trace alloc (serve_reading fuel os t client reading) w t
      ∙ alone-serve_reading (record w { trace = t }) reading

  -- A worker whose calls nobody else interrupts does what process_client_connection does as a whole:
  -- the calls of the shared modules, their order and what follows by their answers are the handler's.
  pub alone-handle :
      (w : World)
      → alone alloc w (handle fuel os w.trace client) ≡ Server.process fuel os alloc w client
  unfolding alone handle Server.process
  alone-handle w =
      let (status, t) = set_timeout os w.trace client in
      let m = increment_active_connections (increment_total_requests w.metrics) in
      alone-trace alloc (timed fuel os t client status) (record w { metrics = m }) t
      ∙ alone-timed (record w { metrics = m; trace = t }) status
