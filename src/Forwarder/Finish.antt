-- ===== src/Forwarder/Finish.antt =====
-- `response_forwarder_forward` of src/response_forwarder.c comes to an end.
use concurrent_http_proxy_se.Base.{
  ℕ, ◌<◌, ◌≡◌, refl, sym, ap, ◌∙◌, subst, ◌^◌, arith, length, Option, none, some, [], Status, done,
  failed,
}
use concurrent_http_proxy_se.Bytes.{Bytes}
use concurrent_http_proxy_se.Parser
use concurrent_http_proxy_se.Sockets.{Trace, Os, write_all, set_timeout, connect_to_host}
use concurrent_http_proxy_se.Sockets.Open.{since, IsOpen}
use concurrent_http_proxy_se.Sockets.Write.{since-write_all}
use concurrent_http_proxy_se.Sockets.Connect.{
  NewSockets, Connected, connect_to_host-Connected, since-set_timeout,
}
use concurrent_http_proxy_se.Forwarder.{Forwarded, build_origin_request, forward_to, forward}
use concurrent_http_proxy_se.Forwarder.Relay.{BoundedRecv}
use concurrent_http_proxy_se.Forwarder.Rounds.{EndsAfter, relay_ends}
use concurrent_http_proxy_se.Forwarder.Forward.{Forwards, AllForwards, forward-Forwards}
use concurrent_http_proxy_se.Forwarder.Steps.{
  blank, no_timeout, no_request, not_sent, goes_out, no_origin, an_origin,
}

module _ (fuel : ℕ) (os : Os) (client max n : ℕ) (request : Parser.Request) (ends : EndsAfter os n)
    (enough : n < fuel) where
  module _ (origin : ℕ) (t1 : Trace) (nothing : since origin t1 ≡ []) where
    IsOver : Type 0
    IsOver = (r : Forwarded × Trace) × (forward_to fuel os t1 origin client request max ≡ some r)

    by_sending :
        (u : Trace) (text : Bytes) (r : Status × Trace)
        → set_timeout os t1 origin ≡ (done, u)
        → build_origin_request request 12288 ≡ some text
        → since origin u ≡ []
        → write_all os u origin text ≡ r
        → IsOver
    unfolding IsOver
    by_sending u text (failed, v) e b i w =
        (_, not_sent fuel os t1 origin client max request u v text e b w)
    by_sending u text (done, v) e b i w =
        let still : length (since origin v) ≡ 0 =
          ap (λ r. length (since origin r.1)) (sym w)
          ∙ ap length (since-write_all origin os u origin text)
          ∙ ap length i in
        let (r, over) =
          relay_ends fuel os v origin client max (blank max) 0 n ends (omega (arith, still))
            (omega (arith, still, enough)) in
        (r, goes_out fuel os t1 origin client max request u v text e b w ∙ over)

    by_text :
        (u : Trace) (b : Option Bytes)
        → set_timeout os t1 origin ≡ (done, u)
        → since origin u ≡ []
        → build_origin_request request 12288 ≡ b
        → IsOver
    unfolding IsOver
    by_text u none e i b = (_, no_request fuel os t1 origin client max request u e b)
    by_text u (some text) e i b = by_sending u text (write_all os u origin text) e b i refl

    by_timeout : (r : Status × Trace) → set_timeout os t1 origin ≡ r → IsOver
    unfolding IsOver
    by_timeout (failed, u) e = (_, no_timeout fuel os t1 origin client max request u e)
    by_timeout (done, u) e =
        by_text u (build_origin_request request 12288) e
          (ap (λ r. since origin r.1) (sym e) ∙ since-set_timeout origin os t1 origin ∙ nothing)
          refl

  by_connection :
      (t : Trace) (r : Option ℕ × Trace)
      → connect_to_host os t request.host request.port ≡ r
      → Connected os t r
      → (f : Forwarded × Trace) × (forward fuel os t client request max ≡ some f)
  unfolding IsOver
  by_connection t (none, u) e c = (_, no_origin fuel os t client max request u e)
  by_connection t (some origin, u) e c =
      let (r, over) = by_timeout origin u c.0.nothing_yet (set_timeout os u origin) refl in
      (r, an_origin fuel os t client max request u origin e ∙ over)

  -- When no connection gives more than `n` bytes before its end or an error, response_forwarder_forward
  -- is over after at most `n` + 1 rounds of its relay, whatever else the network does.
  pub forward_ends :
      (t : Trace) → (f : Forwarded × Trace) × (forward fuel os t client request max ≡ some f)
  forward_ends t =
      by_connection t (connect_to_host os t request.host request.port) refl
        (connect_to_host-Connected os t request.host request.port)

  -- For an open client, when `recv` respects the size of its buffer, `socket` gives new descriptors and
  -- no connection gives more than `n` bytes before its end or an error, and whatever else the system
  -- answers: response_forwarder_forward is over after at most `n` + 1 rounds of its relay, the open
  -- sockets are those before, and no closed one was used. If it succeeds, the client got what a socket
  -- gave that was not open before, every byte in order, the last read of that socket found the end of
  -- its stream, the count is the length modulo 2^64, and the copy is all of it or absent, the latter
  -- when it is empty, longer than `max` or an allocation failed. If it fails, no copy is handed over.
  pub forward_delivers :
      (t : Trace)
      → BoundedRecv os
      → max < 2 ^ 62
      → NewSockets os
      → IsOpen client t
      → (f : Forwarded × Trace) × (forward fuel os t client request max ≡ some f)
        × Forwards os t client max f.0 f.1
  forward_delivers t br small new o =
      let (f, over) = forward_ends t in
      (
        f,
        over,
        subst (AllForwards os t client max) over
            (forward-Forwards fuel os t client max request br small new o),
      )
