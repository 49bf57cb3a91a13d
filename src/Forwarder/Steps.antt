-- ===== src/Forwarder/Steps.antt =====
-- The steps of `response_forwarder_forward` of src/response_forwarder.c: what it does next, by what
-- the calls of the sockets answer.
use concurrent_http_proxy_se.Base.{ℕ, ◌≡◌, arith, ltb, none, some, done, failed}
use concurrent_http_proxy_se.Bytes.{Bytes}
use concurrent_http_proxy_se.Parser
use concurrent_http_proxy_se.Sockets.{Trace, Os, close, write_all, set_timeout, connect_to_host}
use concurrent_http_proxy_se.Forwarder.{
  Capture, failure, relay, build_origin_request, forward_to, forward,
}

-- The capture before the first byte.
abbrev pub blank : ℕ → Capture
blank max = record {
  capture_buffer = none;
  capture_size = 0;
  capture_capacity = 0;
  capture_enabled = ltb 0 max;
}

module _ (fuel : ℕ) (os : Os) (t1 : Trace) (origin client max : ℕ) (request : Parser.Request) where
  pub no_timeout :
      (u : Trace)
      → set_timeout os t1 origin ≡ (failed, u)
      → forward_to fuel os t1 origin client request max ≡ some (failure 0, close u origin)
  unfolding forward_to
  no_timeout u e = ground (arith, e)

  pub no_request :
      (u : Trace)
      → set_timeout os t1 origin ≡ (done, u)
      → build_origin_request request 12288 ≡ none
      → forward_to fuel os t1 origin client request max ≡ some (failure 0, close u origin)
  unfolding forward_to
  no_request u e b = ground (arith, e, b)

  pub not_sent :
      (u v : Trace) (text : Bytes)
      → set_timeout os t1 origin ≡ (done, u)
      → build_origin_request request 12288 ≡ some text
      → write_all os u origin text ≡ (failed, v)
      → forward_to fuel os t1 origin client request max ≡ some (failure 0, close v origin)
  unfolding forward_to
  not_sent u v text e b w = ground (arith, e, b, w)

  pub goes_out :
      (u v : Trace) (text : Bytes)
      → set_timeout os t1 origin ≡ (done, u)
      → build_origin_request request 12288 ≡ some text
      → write_all os u origin text ≡ (done, v)
      → forward_to fuel os t1 origin client request max
        ≡ relay fuel os v origin client max (blank max) 0
  unfolding forward_to
  goes_out u v text e b w = ground (arith, e, b, w)

module _ (fuel : ℕ) (os : Os) (t : Trace) (client max : ℕ) (request : Parser.Request) where
  pub no_origin :
      (u : Trace)
      → connect_to_host os t request.host request.port ≡ (none, u)
      → forward fuel os t client request max ≡ some (failure 0, u)
  unfolding forward
  no_origin u e = ground (arith, e)

  pub an_origin :
      (u : Trace) (origin : ℕ)
      → connect_to_host os t request.host request.port ≡ (some origin, u)
      → forward fuel os t client request max ≡ forward_to fuel os u origin client request max
  unfolding forward
  an_origin u origin e = ground (arith, e)
