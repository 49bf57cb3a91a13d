-- ===== src/Workers/Sound.antt =====
-- What every handler keeps to, whatever it is answered: it disconnects once after it connected, and
-- it puts nothing into the cache but what it fetched under the key of its request.
use concurrent_http_proxy_se.Base.{
  ℕ, ◌≡◌, refl, sym, subst, ◌∙◌, ltb, length, Bool, true, false, ◌&&◌, if◌then◌else◌, Option, none,
  some, [], ◌∷◌, Status, done, failed,
}
use concurrent_http_proxy_se.Bytes.{Bytes}
use concurrent_http_proxy_se.Cache.{Value, no_value}
use concurrent_http_proxy_se.Forwarder
use concurrent_http_proxy_se.Forwarder.{Forwarded}
use concurrent_http_proxy_se.Metrics.Counts.{connect, disconnect, miss}
use concurrent_http_proxy_se.Parser.{Request, parse}
use concurrent_http_proxy_se.Parser.Shape.{parse-IsRequest}
use concurrent_http_proxy_se.Server.{
  Reading, broken, too_large, request_bytes, read_request_bytes, c_string, key_text,
}
use concurrent_http_proxy_se.Server.Key.{build_cache_key_fits}
use concurrent_http_proxy_se.Sockets.{Os, Trace, set_timeout}
use concurrent_http_proxy_se.Workers.{
  Start, Handler, over, unfinished, counts, looks_up, puts, finish, refuse, serve_cached, stored,
  store, after_forward, forwarded, serve_miss, looked_up, keyed, parsed, serve_reading, timed,
  handle,
}

-- Whether the handler is between its connect and its disconnect.
unfoldable pub is_connected : Handler → Bool
is_connected (over t) = false
is_connected unfinished = true
is_connected (counts connect h) = false
is_connected (counts disconnect h) = true
is_connected (counts e h) = is_connected h
is_connected (looks_up t key f) = is_connected (f (failed, no_value))
is_connected (puts t key bytes f) = is_connected (f (failed, false))

-- The handler that began so read a request with this key from its client, the parser accepted it, and
-- its forwarding succeeded and captured these bytes.
pub record Fetched (begin : Start) (key bytes : Bytes) : Type 0 where
  pub text : Bytes
  pub before : Trace
  pub reads :
      read_request_bytes begin.network
        (set_timeout begin.network begin.trace begin.client).1
        begin.client
        8192
      ≡ (request_bytes text, before)
  pub asked : Request
  pub accepts : parse (some (c_string text)) ≡ some asked
  pub named : key ≡ key_text asked
  pub after : Trace
  pub result : Forwarded
  pub forwards :
      Forwarder.forward begin.rounds begin.network before begin.client asked 262144
      ≡ some (result, after)
  pub succeeds : result.status ≡ done
  pub copies : result.captured ≡ some bytes

unfoldable pub IsSound : Start → Handler → Type 0
unfolding is_connected
IsSound b (over t) = Unit
IsSound b unfinished = Unit
IsSound b (counts connect h) = (is_connected h ≡ true) × IsSound b h
IsSound b (counts disconnect h) = (is_connected h ≡ false) × IsSound b h
IsSound b (counts e h) = IsSound b h
IsSound b (looks_up t key f) =
    (a : Status × Value)
    → (is_connected (f a) ≡ is_connected (f (failed, no_value))) × IsSound b (f a)
IsSound b (puts t key bytes f) =
    Fetched b key bytes
    × ((a : Status × Bool)
        → (is_connected (f a) ≡ is_connected (f (failed, false))) × IsSound b (f a))

-- A handler that is connected and keeps to it.
abbrev IsServing : Start → Handler → Type 0
IsServing b h = (is_connected h ≡ true) × IsSound b h

stored-IsServing :
    (b : Start) (t : Trace) (client : ℕ) (a : Status × Bool) → IsServing b (stored t client a)
unfolding is_connected IsSound
stored-IsServing b t client (failed, e) = (refl, (refl, tt))
stored-IsServing b t client (done, true) = (refl, (refl, tt))
stored-IsServing b t client (done, false) = (refl, (refl, tt))

store-IsServing :
    (b : Start) (t : Trace) (client : ℕ) (key : Bytes) (o : Option Bytes)
    → ((bytes : Bytes) → o ≡ some bytes → Fetched b key bytes)
    → IsServing b (store t client key o)
unfolding store is_connected IsSound
store-IsServing b t client key none got = (refl, (refl, tt))
store-IsServing b t client key (some bytes) got =
    by_test (ltb 0 (length key) && ltb 0 (length bytes))
  where
    by_test :
        (f : Bool) → IsServing b (if f then puts t key bytes (stored t client) else finish t client)
    by_test true = (
      refl,
      (got bytes refl, λ a. ((stored-IsServing b t client a).0, (stored-IsServing b t client a).1)),
    )
    by_test false = (refl, (refl, tt))

-- A handler that only counts, and ends.
finish-IsServing : (b : Start) (t : Trace) (client : ℕ) → IsServing b (finish t client)
unfolding is_connected IsSound
finish-IsServing b t client = (refl, (refl, tt))

module _ (fuel : ℕ) (os : Os) (t0 : Trace) (client : ℕ) where
  abbrev begin : Start
  begin = record { rounds = fuel; network = os; trace = t0; client = client }

  refuse-IsServing :
      (t : Trace) (status_code : ℕ) (reason body : Bytes)
      → IsServing begin (refuse os t client status_code reason body)
  unfolding refuse
  refuse-IsServing t status_code reason body = finish-IsServing begin _ client

  serve_cached-IsServing :
      (t : Trace) (value : Value) → IsServing begin (serve_cached os t client value)
  unfolding serve_cached is_connected IsSound
  serve_cached-IsServing t value = (refl, (refl, tt))

  -- A request that was read and parsed.
  module _ (text : Bytes) (before : Trace)
      (reads : read_request_bytes os (set_timeout os t0 client).1 client 8192
        ≡ (request_bytes text, before)) where
    module _ (r : Request) (accepts : parse (some (c_string text)) ≡ some r) (key : Bytes)
        (named : key ≡ key_text r) where
      after_forward-IsServing :
          (after : Trace) (f : Forwarded) (s : Status)
          → Forwarder.forward fuel os before client r 262144 ≡ some (f, after)
          → f.status ≡ s
          → IsServing begin (after_forward os after client key f s)
      unfolding after_forward is_connected IsSound
      after_forward-IsServing after f failed e es = refuse-IsServing after 502 _ _
      after_forward-IsServing after f done e es =
          store-IsServing begin after client key f.captured λ bytes copies. record {
            text = text;
            before = before;
            reads = reads;
            asked = r;
            accepts = accepts;
            named = named;
            after = after;
            result = f;
            forwards = e;
            succeeds = es;
            copies = copies;
          }

      forwarded-IsServing :
          (o : Option (Forwarded × Trace))
          → Forwarder.forward fuel os before client r 262144 ≡ o
          → IsServing begin (forwarded os client key o)
      unfolding is_connected IsSound
      forwarded-IsServing none e = (refl, tt)
      forwarded-IsServing (some (f, t)) e = after_forward-IsServing t f f.status e refl

      serve_miss-IsServing : IsServing begin (serve_miss fuel os before client r key)
      unfolding serve_miss is_connected IsSound
      serve_miss-IsServing = by_key (ltb 0 (length key))
        where
          rest : Handler
          rest = forwarded os client key (Forwarder.forward fuel os before client r 262144)

          by_key : (b : Bool) → IsServing begin (if b then counts miss rest else rest)
          by_key true = forwarded-IsServing _ refl
          by_key false = forwarded-IsServing _ refl

      looked_up-IsServing :
          (a : Status × Value) → IsServing begin (looked_up fuel os before client r key a)
      looked_up-IsServing (done, value) = serve_cached-IsServing before value
      looked_up-IsServing (failed, value) = serve_miss-IsServing

      keyed-IsServing : IsServing begin (keyed fuel os before client r (some key))
      unfolding is_connected IsSound
      keyed-IsServing = (
        (looked_up-IsServing (failed, no_value)).0,
        λ a. (
          (looked_up-IsServing a).0 ∙ sym (looked_up-IsServing (failed, no_value)).0,
          (looked_up-IsServing a).1,
        ),
      )

    parsed-IsServing :
        (o : Option Request)
        → parse (some (c_string text)) ≡ o
        → IsServing begin (parsed fuel os before client o)
    parsed-IsServing none e = refuse-IsServing before 400 _ _
    parsed-IsServing (some r) e =
        subst (λ k. IsServing begin (keyed fuel os before client r k))
          (sym (build_cache_key_fits r (parse-IsRequest (c_string text) r e)))
          (keyed-IsServing r e (key_text r) refl)

  serve_reading-IsServing :
      (r : Reading) (t : Trace)
      → read_request_bytes os (set_timeout os t0 client).1 client 8192 ≡ (r, t)
      → IsServing begin (serve_reading fuel os t client r)
  unfolding serve_reading is_connected IsSound
  serve_reading-IsServing broken t e = refuse-IsServing t 408 _ _
  serve_reading-IsServing too_large t e = refuse-IsServing t 413 _ _
  serve_reading-IsServing (request_bytes []) t e = refuse-IsServing t 400 _ _
  serve_reading-IsServing (request_bytes (x ∷ xs)) t e = parsed-IsServing (x ∷ xs) t e _ refl

  timed-IsServing :
      (s : Status) → IsServing begin (timed fuel os (set_timeout os t0 client).1 client s)
  timed-IsServing failed = finish-IsServing begin _ client
  timed-IsServing done = serve_reading-IsServing _ _ refl

  -- A handler that has not begun is not connected and keeps to it.
  pub handle-IsSound :
      (is_connected (handle fuel os t0 client) ≡ false) × IsSound begin (handle fuel os t0 client)
  unfolding handle is_connected IsSound
  handle-IsSound = (refl, timed-IsServing (set_timeout os t0 client).0)
