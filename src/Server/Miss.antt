-- ===== src/Server/Miss.antt =====
-- What a worker of src/proxy_server.c does for a request whose object is not in the cache.
use concurrent_http_proxy_se.Base.{
  ℕ, ◌<◌, ◌≡◌, ◌⊎◌, inl, inr, refl, sym, ap, ◌∙◌, subst, arith, lt→ltb, length, length-append,
  if◌then◌else◌, Bool, true, Option, none, some, [], ◌∷◌, ◌++◌, Status, failed,
}
use concurrent_http_proxy_se.Bytes.{codes}
use concurrent_http_proxy_se.Cache
use concurrent_http_proxy_se.Cache.{Cache, Value, no_value}
use concurrent_http_proxy_se.Cache.Get.{answer, found, get-touch}
use concurrent_http_proxy_se.Cache.Spec.{Contents, Holds, lookup, touch-none}
use concurrent_http_proxy_se.Decimal.{decimal}
use concurrent_http_proxy_se.Forwarder.{Forwarded, forward}
use concurrent_http_proxy_se.Forwarder.Finish.{forward_delivers}
use concurrent_http_proxy_se.Forwarder.Forward.{Forwards, Delivered}
use concurrent_http_proxy_se.Forwarder.Relay.{BoundedRecv}
use concurrent_http_proxy_se.Forwarder.Rounds.{EndsAfter}
use concurrent_http_proxy_se.Metrics.Counts.{miss, eviction, failure, sent, disconnect, run}
use concurrent_http_proxy_se.Parser.{Request}
use concurrent_http_proxy_se.Parser.Shape.{IsRequest}
use concurrent_http_proxy_se.Responses.{error_response_send}
use concurrent_http_proxy_se.Server.{
  World, Allocator, key_text, refuse, after_forward, forwarded, serve_miss, looked_up, keyed,
  serve_request,
}
use concurrent_http_proxy_se.Server.Balance.{noted, store_events, run-noted}
use concurrent_http_proxy_se.Server.Descriptors.{store-trace}
use concurrent_http_proxy_se.Server.Key.{build_cache_key_fits}
use concurrent_http_proxy_se.Sockets.{Os, Trace, close}
use concurrent_http_proxy_se.Sockets.Connect.{NewSockets}
use concurrent_http_proxy_se.Sockets.Open.{IsOpen}

-- How a miss ends, with the trace `u` after the forwarding. Either the client got the response of the
-- origin, and its bytes are counted and at most one eviction; or the forwarding failed, the client is
-- told so, a failure is counted, and the cache holds what it held.
pub data Missed (os : Os) (client total object : ℕ) (m : Contents) (r : Request) (w v : World)
    : Type 0 where
  fetched :
      (f : Forwarded) (u : Trace) (evicted : Bool)
      → Delivered os w.trace client 262144 f u
      → v.trace ≡ close u client
      → v.metrics
        ≡ run
            (miss ∷ sent f.origin_response_bytes ∷ noted eviction evicted (disconnect ∷ []))
            w.metrics
      → Missed os client total object m r w v
  not_fetched :
      (fuel : ℕ) (f : Forwarded) (u : Trace)
      → forward fuel os w.trace client r 262144 ≡ some (f, u)
      → f.status ≡ failed
      → v.trace
        ≡ close
            (error_response_send os u client 502
              (codes "Bad Gateway")
              (codes "failed to fetch response from origin server\n")).1
            client
      → v.metrics ≡ run (miss ∷ failure ∷ disconnect ∷ []) w.metrics
      → Holds total object v.cache m
      → Missed os client total object m r w v

filled : (r : Request) → 0 < length (key_text r)
filled r =
    omega
      (arith, length-append r.method (124 ∷ (r.host ++ (124 ∷ (decimal r.port ++ (124 ∷ r.path))))))

module _ (fuel : ℕ) (os : Os) (alloc : Allocator) (w : World) (client n : ℕ) (ends : EndsAfter os n)
    (enough : n < fuel) (bounded : BoundedRecv os) (new : NewSockets os) (o : IsOpen client w.trace)
    (total object : ℕ) (m : Contents) where
  -- Behind the forwarding.
  Ends : Request → Option World → Type 0
  Ends r result = (v : World) × (result ≡ some v) × Missed os client total object m r w v

  -- The miss is counted and the forwarding is over.
  before : Cache → Trace → World
  before c u = record { metrics = run (miss ∷ []) w.metrics; cache = c; trace = u }

  after :
      (r : Request) (c : Cache) (f : Forwarded) (u : Trace)
      → Holds total object c m
      → forward fuel os w.trace client r 262144 ≡ some (f, u)
      → Forwards os w.trace client 262144 f u
      → Missed os client total object m r w
          (after_forward os alloc (before c u) client (key_text r) f f.status)
  unfolding before run after_forward refuse
  after r c f u h e forwards = by_outcome forwards.outcome
    where
      Result : Status → Type 0
      Result s =
          Missed os client total object m r w
            (after_forward os alloc (before c u) client (key_text r) f s)

      by_outcome :
          ((f.status ≡ failed) × (f.captured ≡ none)) ⊎ Delivered os w.trace client 262144 f u
          → Result f.status
      by_outcome (inl (fails, nothing)) =
          subst Result (sym fails) (not_fetched fuel f u e fails refl refl h)
      by_outcome (inr d) =
          let (evicted, kept) =
            store_events alloc
              (record (before c u) {
                metrics = run (miss ∷ sent f.origin_response_bytes ∷ []) w.metrics;
              })
              (key_text r) f.captured in
          subst Result (sym (ap (λ g. g.status) d.is)) (
            fetched f u evicted d
              (ap (λ t. close t client) (store-trace os client alloc _ (key_text r) f.captured))
              (ap (run (disconnect ∷ [])) kept ∙ run-noted eviction evicted (disconnect ∷ []) _))

  missed_at :
      (r : Request) (l : Status × Value × Cache)
      → answer l ≡ found none
      → Holds total object l.2 m
      → Ends r (looked_up fuel os alloc w client r (key_text r) l)
  unfolding Ends before serve_miss run
  missed_at r l e h =
      let (f, over, forwards) =
        forward_delivers fuel os client 262144 n r ends enough w.trace bounded (omega arith) new
          o in
      (
        _,
        ap (λ x. looked_up fuel os alloc w client r (key_text r) (x.0, x.1, l.2)) e
            ∙ ap
                (λ b.
                  forwarded os alloc
                    (record w {
                      cache = l.2;
                      metrics = if b then run (miss ∷ []) w.metrics else w.metrics;
                    })
                    client (key_text r) (forward fuel os w.trace client r 262144))
                (lt→ltb 0 (length (key_text r)) (filled r))
            ∙ ap (forwarded os alloc (before l.2 w.trace) client (key_text r)) over,
        after r l.2 f.0 f.1 h over forwards,
      )

  -- For an open client and an accepted request whose key the cache does not have, when `recv` respects
  -- the size of its buffer, `socket` gives new descriptors and no connection gives more than `n` bytes
  -- before its end or an error, and whatever else the system answers: the worker gets through and
  -- counts one miss. Either the client got what a socket gave that was not open before, up to the end
  -- of its stream, and the worker counts its bytes and at most one eviction; or the forwarding failed,
  -- the client is answered with 502, the worker counts one failure, and nothing is stored. It closes
  -- the client's socket and counts the end of the connection.
  pub serve_request-Missed :
      (r : Request)
      → IsRequest r
      → Holds total object w.cache m
      → lookup (key_text r) m ≡ none
      → alloc.copy w ≡ true
      → (v : World) × (serve_request fuel os alloc w client r ≡ some v)
        × Missed os client total object m r w v
  unfolding serve_request Ends
  serve_request-Missed r valid h lacks copied =
      let (answers, kept) = get-touch (key_text r) no_value h in
      let (v, over, how) =
        missed_at r (Cache.get w.cache (some (key_text r)) no_value true) (answers ∙ ap found lacks)
          (subst (Holds total object _) (touch-none (key_text r) m lacks) kept) in
      (
        v,
        ap (keyed fuel os alloc w client r) (build_cache_key_fits r valid)
            ∙ ap
                (λ b.
                  looked_up fuel os alloc w client r (key_text r)
                    (Cache.get w.cache (some (key_text r)) no_value b))
                copied
            ∙ over,
        how,
      )
