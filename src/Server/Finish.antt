-- ===== src/Server/Finish.antt =====
-- A worker of src/proxy_server.c gets through with every connection.
use concurrent_http_proxy_se.Base.{
  ℕ, ◌<◌, ◌≡◌, refl, ap, subst, ltb, if◌then◌else◌, length, Option, none, some, [], ◌∷◌, Status,
  done, failed,
}
use concurrent_http_proxy_se.Bytes.{Bytes}
use concurrent_http_proxy_se.Cache.{Cache, Value}
use concurrent_http_proxy_se.Forwarder.{Forwarded}
use concurrent_http_proxy_se.Forwarder.Finish.{forward_ends}
use concurrent_http_proxy_se.Forwarder.Relay.{BoundedRecv}
use concurrent_http_proxy_se.Forwarder.Rounds.{EndsAfter}
use concurrent_http_proxy_se.Metrics.{increment_cache_misses}
use concurrent_http_proxy_se.Parser.{Request}
use concurrent_http_proxy_se.Server.{
  World, Allocator, Reading, broken, too_large, request_bytes, forwarded, serve_miss, looked_up,
  keyed, serve_request, parsed, serve_reading, timed, process,
}
use concurrent_http_proxy_se.Cache.Failure.{IsUnused}
use concurrent_http_proxy_se.Cache.Memory.{SomeHolds}
use concurrent_http_proxy_se.Server.Store.{AllHold, process-AllHold}
use concurrent_http_proxy_se.Server.Descriptors.{ClosesClient, AllClose, process-Closes}
use concurrent_http_proxy_se.Sockets.Open.{IsOpen}
use concurrent_http_proxy_se.Sockets.Connect.{NewSockets}
use concurrent_http_proxy_se.Sockets.{Os, Trace}

-- The handler is through.
abbrev pub IsThrough : Option World → Type 0
IsThrough r = (w : World) × (r ≡ some w)

module _ (fuel : ℕ) (os : Os) (alloc : Allocator) (client n : ℕ) (ends : EndsAfter os n)
    (enough : n < fuel) where
  forwarded-IsThrough :
      (w : World) (key : Bytes) (r : Option (Forwarded × Trace))
      → ((f : Forwarded × Trace) × (r ≡ some f))
      → IsThrough (forwarded os alloc w client key r)
  forwarded-IsThrough w key r (f, e) = (_, ap (forwarded os alloc w client key) e)

  serve_miss-IsThrough :
      (w : World) (r : Request) (key : Bytes) → IsThrough (serve_miss fuel os alloc w client r key)
  unfolding serve_miss
  serve_miss-IsThrough w r key =
      forwarded-IsThrough
        (record w {
          metrics = if ltb 0 (length key) then increment_cache_misses w.metrics else w.metrics;
        })
        key _ (forward_ends fuel os client 262144 n r ends enough w.trace)

  looked_up-IsThrough :
      (w : World) (r : Request) (key : Bytes) (l : Status × Value × Cache)
      → IsThrough (looked_up fuel os alloc w client r key l)
  looked_up-IsThrough w r key (done, value, cache) = (_, refl)
  looked_up-IsThrough w r key (failed, value, cache) = serve_miss-IsThrough _ r key

  keyed-IsThrough :
      (w : World) (r : Request) (key : Option Bytes)
      → IsThrough (keyed fuel os alloc w client r key)
  keyed-IsThrough w r none = serve_miss-IsThrough w r _
  keyed-IsThrough w r (some key) = looked_up-IsThrough w r key _

  parsed-IsThrough : (w : World) (r : Option Request) → IsThrough (parsed fuel os alloc w client r)
  unfolding serve_request
  parsed-IsThrough w none = (_, refl)
  parsed-IsThrough w (some r) = keyed-IsThrough w r _

  serve_reading-IsThrough :
      (w : World) (r : Reading) → IsThrough (serve_reading fuel os alloc w client r)
  unfolding serve_reading
  serve_reading-IsThrough w broken = (_, refl)
  serve_reading-IsThrough w too_large = (_, refl)
  serve_reading-IsThrough w (request_bytes []) = (_, refl)
  serve_reading-IsThrough w (request_bytes (x ∷ xs)) = parsed-IsThrough _ _

  timed-IsThrough : (w : World) (s : Status) → IsThrough (timed fuel os alloc w client s)
  timed-IsThrough w failed = (_, refl)
  timed-IsThrough w done = serve_reading-IsThrough _ _

  process-IsThrough : (w : World) → IsThrough (process fuel os alloc w client)
  unfolding process
  process-IsThrough w = timed-IsThrough _ _

  -- For a client whose socket is open, when `recv` respects the size of its buffer, `socket` gives new
  -- descriptors and no connection gives more than `n` bytes before its end or an error, and whatever
  -- else the network, the allocator and the cache do: a worker gets through with a connection in at
  -- most `n` + 1 rounds of the relay. It has closed the client's socket and no other that was open, has
  -- left none of its own open, and has used no socket that was not open.
  pub process_closes :
      (w : World)
      → BoundedRecv os
      → NewSockets os
      → IsOpen client w.trace
      → (v : World) × (process fuel os alloc w client ≡ some v)
        × ClosesClient client w.trace v.trace
  process_closes w br new o =
      let (v, over) = process-IsThrough w in
      (
        v,
        over,
        subst (AllClose client w.trace) over (process-Closes os client fuel alloc br new w o),
      )

  -- When no connection gives more than `n` bytes before its end or an error and the allocator gives no
  -- block that is in use, but whatever else the network does and whether allocations succeed or not: a
  -- worker gets through and leaves a well-formed cache with the same limits.
  pub process-SomeHolds :
      (total object : ℕ) (w : World)
      → ((u : World) → IsUnused u.cache (alloc.blocks u).entry)
      → SomeHolds total object w.cache
      → (v : World) × (process fuel os alloc w client ≡ some v) × SomeHolds total object v.cache
  process-SomeHolds total object w unused h =
      let (v, over) = process-IsThrough w in
      (
        v,
        over,
        subst (AllHold total object) over
            (process-AllHold total object fuel os alloc client unused w h),
      )
