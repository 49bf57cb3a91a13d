-- ===== src/Forwarder/Forward.antt =====
-- What `response_forwarder_forward` of src/response_forwarder.c promises its caller.
use concurrent_http_proxy_se.Base.{
  ℕ, ◌%◌, ◌^◌, ◌<◌, ◌≡◌, ◌≢◌, refl, sym, ap, ◌∙◌, subst, arith, ◌⊎◌, inl, inr, ltb, length, Bool,
  true, false, mem, Option, none, some, [], ◌++◌, Status, done, failed,
}
use concurrent_http_proxy_se.Bytes.{Bytes}
use concurrent_http_proxy_se.Parser
use concurrent_http_proxy_se.Sockets.{Trace, Os, close, write_all, set_timeout, connect_to_host}
use concurrent_http_proxy_se.Sockets.Open.{
  IsOpen, IsProper, open_sockets, remove, output, input, Keeps, Keeps-trans, Keeps-IsOpen, mem-head,
  remove-head,
}
use concurrent_http_proxy_se.Sockets.Write.{write_all-Keeps, output-write_all, input-write_all}
use concurrent_http_proxy_se.Sockets.Connect.{
  NewSockets, Silent, Opens, Connected, connect_to_host-Connected, set_timeout-Keeps,
  set_timeout-Silent,
}
use concurrent_http_proxy_se.Forwarder.{
  Capture, Forwarded, failure, success, relay, build_origin_request, forward_to, forward,
}
use concurrent_http_proxy_se.Forwarder.Steps.{
  blank, no_timeout, no_request, not_sent, goes_out, no_origin, an_origin,
}
use concurrent_http_proxy_se.Forwarder.Copy.{IsCopy, fresh, off}
use concurrent_http_proxy_se.Forwarder.Relay.{BoundedRecv, IsAtEnd, Relayed, AllEnds, relay-Ends}

-- A success: the client got `response`, which is what a socket gave that was not open before, up to
-- the end of its stream, and the copy that is handed over is all of it, if there is one.
pub record Delivered (os : Os) (t : Trace) (client max : ℕ) (f : Forwarded) (u : Trace)
    : Type 0 where
  pub response : Bytes
  pub origin : ℕ
  pub was_closed : mem origin (open_sockets t) ≡ false
  pub copy : Capture
  pub is : f ≡ success copy (length response % 2 ^ 64)
  pub copied : IsCopy os max response copy
  pub relayed : output client u ≡ output client t ++ response
  pub came : input origin u ≡ input origin t ++ response
  pub complete : IsAtEnd os origin u

-- Forwarding leaves no socket open and the client's alone. A failure hands nothing over.
pub record Forwards (os : Os) (t : Trace) (client max : ℕ) (f : Forwarded) (u : Trace)
    : Type 0 where
  pub keeps : Keeps t u
  pub outcome : ((f.status ≡ failed) × (f.captured ≡ none)) ⊎ Delivered os t client max f u

abbrev pub AllForwards : Os → Trace → ℕ → ℕ → Option (Forwarded × Trace) → Type 0
AllForwards os t client max none = Unit
AllForwards os t client max (some r) = Forwards os t client max r.0 r.1

module _ (fuel : ℕ) (os : Os) (t : Trace) (client max : ℕ) (request : Parser.Request)
    (br : BoundedRecv os) (small : max < 2 ^ 62) (new : NewSockets os) (o : IsOpen client t) where
  -- What happens with the socket of the origin, opened at `t1`.
  module _ (origin : ℕ) (t1 : Trace) (c : Opens os origin t t1) (q : Silent t t1) where
    apart : origin ≢ client
    apart e = ground (arith, o, c.new new, e)

    origin-IsOpen : IsOpen origin t1
    origin-IsOpen = ap (mem origin) c.added ∙ mem-head origin (open_sockets t)

    client-IsOpen : IsOpen client t1
    client-IsOpen = ap (mem client) c.added ∙ ground (arith, o, apart)

    -- Once the socket is closed, the open ones are those before.
    closed_again :
        {u : Trace}
        → open_sockets u ≡ remove origin (open_sockets t1)
        → (IsProper t1 → IsProper u)
        → Keeps t u
    closed_again e p = record {
      same_open = e ∙ ap (remove origin) c.added ∙ remove-head origin (open_sockets t);
      proper = λ h. p (c.proper h);
    }

    gives_up : (u : Trace) → Keeps t1 u → Forwards os t client max (failure 0) (close u origin)
    gives_up u k = record {
      keeps =
          closed_again (ap (remove origin) k.same_open)
            (λ p. (Keeps-IsOpen origin k origin-IsOpen, k.proper p));
      outcome = inl (refl, refl);
    }

    -- The relay starts at `u`, with the request sent and nothing sent to the client.
    relays :
        (u : Trace)
        → Keeps t1 u
        → output client u ≡ output client t
        → input origin u ≡ input origin t
        → (r : Option (Forwarded × Trace)) → AllEnds os u origin client max [] 0 r
        → AllForwards os t client max r
    relays u k out inp none e = tt
    relays u k out inp (some (f, v)) e = record {
      keeps =
          closed_again (e.still_open ∙ ap (remove origin) k.same_open) (λ p. e.proper (k.proper p));
      outcome = hands e.outcome;
    }
      where
        hands :
            ((f.status ≡ failed) × (f.captured ≡ none)) ⊎ Relayed os u origin client max [] 0 f v
            → ((f.status ≡ failed) × (f.captured ≡ none)) ⊎ Delivered os t client max f v
        hands (inl x) = inl x
        hands (inr x) = inr (record {
          response = x.rest;
          origin = origin;
          was_closed = c.new new;
          copy = x.copy;
          is = x.is ∙ ap (success x.copy) (x.counted ∙ omega arith);
          copied = x.copied;
          relayed = x.relayed ∙ ap (λ w. w ++ x.rest) out;
          came = x.came ∙ ap (λ w. w ++ x.rest) inp;
          complete = x.complete;
        })

    blank-IsCopy : IsCopy os max [] (blank max)
    blank-IsCopy = by_max (ltb 0 max) refl
      where
        by_max :
            (b : Bool)
            → ltb 0 max ≡ b
            → IsCopy os max [] (record {
              capture_buffer = none;
              capture_size = 0;
              capture_capacity = 0;
              capture_enabled = b;
            })
        by_max true e = fresh refl refl refl refl refl
        by_max false e = off refl refl (inl (ground (arith, e)))

    Result : Type 0
    Result = AllForwards os t client max (forward_to fuel os t1 origin client request max)

    by_sending :
        (u : Trace) (text : Bytes)
        → set_timeout os t1 origin ≡ (done, u)
        → build_origin_request request 12288 ≡ some text
        → Keeps t1 u
        → Silent t1 u
        → (r : Status × Trace) → write_all os u origin text ≡ r
        → Result
    unfolding Result
    by_sending u text e b k l (failed, v) w =
        subst (AllForwards os t client max)
          (sym (not_sent fuel os t1 origin client max request u v text e b w))
          (gives_up v (
            Keeps-trans k (
              subst (λ r. Keeps u r.1) w
                (write_all-Keeps os u origin text (Keeps-IsOpen origin k origin-IsOpen)))))
    by_sending u text e b k l (done, v) w =
        let keeps = Keeps-trans k (
          subst (λ r. Keeps u r.1) w
            (write_all-Keeps os u origin text (Keeps-IsOpen origin k origin-IsOpen))) in
        let out =
          ap (λ r. output client r.1) (sym w)
          ∙ output-write_all client os u origin text apart
          ∙ l.same_output client
          ∙ q.same_output client in
        let inp =
          ap (λ r. input origin r.1) (sym w)
          ∙ input-write_all origin os u origin text
          ∙ l.same_input origin
          ∙ q.same_input origin in
        subst (AllForwards os t client max)
          (sym (goes_out fuel os t1 origin client max request u v text e b w))
          (relays v keeps out inp (relay fuel os v origin client max (blank max) 0) (
            relay-Ends fuel os v origin client max [] (blank max) 0 br small
              (Keeps-IsOpen origin keeps origin-IsOpen) (Keeps-IsOpen client keeps client-IsOpen)
              blank-IsCopy (omega arith)))

    by_text :
        (u : Trace)
        → set_timeout os t1 origin ≡ (done, u)
        → Keeps t1 u
        → Silent t1 u
        → (b : Option Bytes) → build_origin_request request 12288 ≡ b
        → Result
    unfolding Result
    by_text u e k l none b =
        subst (AllForwards os t client max)
          (sym (no_request fuel os t1 origin client max request u e b)) (gives_up u k)
    by_text u e k l (some text) b = by_sending u text e b k l (write_all os u origin text) refl

    by_timeout :
        (r : Status × Trace) → set_timeout os t1 origin ≡ r → Keeps t1 r.1 → Silent t1 r.1 → Result
    unfolding Result
    by_timeout (failed, u) e k l =
        subst (AllForwards os t client max)
          (sym (no_timeout fuel os t1 origin client max request u e)) (gives_up u k)
    by_timeout (done, u) e k l = by_text u e k l (build_origin_request request 12288) refl

    forward_to-Forwards : Result
    forward_to-Forwards =
        by_timeout (set_timeout os t1 origin) refl (set_timeout-Keeps os t1 origin origin-IsOpen)
          (set_timeout-Silent os t1 origin)

  by_connection :
      (r : Option ℕ × Trace)
      → connect_to_host os t request.host request.port ≡ r
      → Connected os t r
      → AllForwards os t client max (forward fuel os t client request max)
  unfolding Result
  by_connection (none, u) e (k, l) =
      subst (AllForwards os t client max) (sym (no_origin fuel os t client max request u e))
        (record { keeps = k; outcome = inl (refl, refl) })
  by_connection (some origin, u) e (c, l) =
      subst (AllForwards os t client max) (sym (an_origin fuel os t client max request u origin e))
        (forward_to-Forwards origin u c l)

  -- What a forwarding has done when it is over.
  pub forward-Forwards : AllForwards os t client max (forward fuel os t client request max)
  forward-Forwards =
      by_connection (connect_to_host os t request.host request.port) refl
        (connect_to_host-Connected os t request.host request.port)
