-- ===== src/Forwarder/Relay.antt =====
-- What the relay of src/response_forwarder.c has done when it is over.
use native.Mathlib.Nat.{mod-eq_of_lt}
use concurrent_http_proxy_se.Base.{
  ℕ, zero, suc, ◌+◌, ◌%◌, ◌^◌, ◌≤◌, ◌<◌, ◌≡◌, refl, sym, ap, ◌∙◌, subst, arith, ◌⊎◌, inl, inr,
  add_size, length, length-append, Option, none, some, [], ◌∷◌, ◌++◌, append_assoc, append-nil,
  Status, done, failed,
}
use concurrent_http_proxy_se.Bytes.{Bytes}
use concurrent_http_proxy_se.Sockets.{received, refused, Trace, Os, close, read, write_all}
use concurrent_http_proxy_se.Sockets.Open.{
  IsOpen, IsProper, open_sockets, remove, output, input, Keeps, Keeps-trans, Keeps-IsOpen,
}
use concurrent_http_proxy_se.Sockets.Write.{
  Written, write_all-Written, write_all-Keeps, input-write_all,
}
use concurrent_http_proxy_se.Forwarder.{Capture, Forwarded, failure, success, capture_chunk, relay}
use concurrent_http_proxy_se.Forwarder.Copy.{IsCopy, capture_chunk-IsCopy}

-- `recv` gives no more bytes than were asked for.
abbrev pub BoundedRecv : Os → Type 0
BoundedRecv os = (t : Trace) (s n : ℕ) (b : Bytes) → os.recv t s n ≡ some b → length b ≤ n

-- The last that was done with the socket before it was closed: a read that the system answered with
-- the end of the stream.
abbrev pub IsAtEnd : Os → ℕ → Trace → Type 0
IsAtEnd os s u = (v : Trace) × (os.recv v s 8192 ≡ some []) × (u ≡ close (received s [] ∷ v) s)

-- A relay that succeeds has sent the client what came from the origin up to the end of its stream,
-- `rest`, and has counted and copied it behind what came before, `got`.
pub record Relayed (os : Os) (t : Trace) (origin client max : ℕ) (got : Bytes) (total : ℕ)
    (f : Forwarded) (u : Trace) : Type 0 where
  pub rest : Bytes
  pub copy : Capture
  pub count : ℕ
  pub is : f ≡ success copy count
  pub counted : count ≡ (total + length rest) % 2 ^ 64
  pub copied : IsCopy os max (got ++ rest) copy
  pub relayed : output client u ≡ output client t ++ rest
  pub came : input origin u ≡ input origin t ++ rest
  pub complete : IsAtEnd os origin u

-- It ends with the origin's socket closed. A failure hands nothing over.
pub record Ends (os : Os) (t : Trace) (origin client max : ℕ) (got : Bytes) (total : ℕ)
    (f : Forwarded) (u : Trace) : Type 0 where
  pub still_open : open_sockets u ≡ remove origin (open_sockets t)
  pub proper : IsProper t → IsProper u
  pub outcome :
      ((f.status ≡ failed) × (f.captured ≡ none)) ⊎ Relayed os t origin client max got total f u

abbrev pub AllEnds :
    (os : Os) (t : Trace) (origin client max : ℕ) (got : Bytes) (total : ℕ)
    → Option (Forwarded × Trace)
    → Type 0
AllEnds os t origin client max got total none = Unit
AllEnds os t origin client max got total (some r) = Ends os t origin client max got total r.0 r.1

-- The socket of the origin is closed as the last thing.
closing :
    {t u : Trace} (origin : ℕ)
    → IsOpen origin t
    → Keeps t u
    → (open_sockets (close u origin) ≡ remove origin (open_sockets t))
      × (IsProper t → IsProper (close u origin))
closing origin o k = (ap (remove origin) k.same_open, λ p. (Keeps-IsOpen origin k o, k.proper p))

fails :
    (os : Os) (t u : Trace) (origin client max : ℕ) (got : Bytes) (total : ℕ) (f : Forwarded)
    → IsOpen origin t
    → Keeps t u
    → f.status ≡ failed
    → f.captured ≡ none
    → Ends os t origin client max got total f (close u origin)
fails os t u origin client max got total f o k s c =
    let (a, b) = closing origin o k in record { still_open = a; proper = b; outcome = inl (s, c) }

-- One round: `chunk` came in and went out, and the rest followed.
after_round :
    (os : Os) (t u : Trace) (origin client max : ℕ) (got chunk : Bytes) (total : ℕ)
    (r : Option (Forwarded × Trace))
    → Keeps t u
    → output client u ≡ output client t ++ chunk
    → input origin u ≡ input origin t ++ chunk
    → AllEnds os u origin client max (got ++ chunk) (add_size total (length chunk)) r
    → AllEnds os t origin client max got total r
after_round os t u origin client max got chunk total none k out inp h = tt
after_round os t u origin client max got chunk total (some (f, v)) k out inp h = record {
  still_open = h.still_open ∙ ap (remove origin) k.same_open;
  proper = λ p. h.proper (k.proper p);
  outcome = extend h.outcome;
}
  where
    extend :
        ((f.status ≡ failed) × (f.captured ≡ none))
          ⊎ Relayed os u origin client max (got ++ chunk) (add_size total (length chunk)) f v
        → ((f.status ≡ failed) × (f.captured ≡ none)) ⊎ Relayed os t origin client max got total f v
    extend (inl x) = inl x
    extend (inr x) = inr (record {
      rest = chunk ++ x.rest;
      copy = x.copy;
      count = x.count;
      is = x.is;
      counted = omega (arith, x.counted, length-append chunk x.rest);
      copied = subst (λ g. IsCopy os max g x.copy) (append_assoc got chunk x.rest) x.copied;
      relayed = x.relayed ∙ ap (λ o. o ++ x.rest) out ∙ append_assoc (output client t) chunk x.rest;
      came = x.came ∙ ap (λ o. o ++ x.rest) inp ∙ append_assoc (input origin t) chunk x.rest;
      complete = x.complete;
    })

module _ (fuel : ℕ) (os : Os) (t : Trace) (origin client max : ℕ) (c : Capture) (total : ℕ) where
  pub relay_broken :
      os.recv t origin 8192 ≡ none
      → relay (suc fuel) os t origin client max c total
        ≡ some
            (record (failure total) { lost = c.capture_buffer }, close (refused origin ∷ t) origin)
  unfolding relay read
  relay_broken e = ground (arith, e)

  pub relay_over :
      os.recv t origin 8192 ≡ some []
      → relay (suc fuel) os t origin client max c total
        ≡ some (success c total, close (received origin [] ∷ t) origin)
  unfolding relay read
  relay_over e = ground (arith, e)

  module _ (x : ℕ) (xs : Bytes) where
    pub relay_refused :
        (u : Trace)
        → os.recv t origin 8192 ≡ some (x ∷ xs)
        → write_all os (received origin (x ∷ xs) ∷ t) client (x ∷ xs) ≡ (failed, u)
        → relay (suc fuel) os t origin client max c total
          ≡ some (failure (add_size total (length (x ∷ xs))), close u origin)
    unfolding relay read
    relay_refused u e w = ground (arith, e, w)

    pub relay_next :
        (u : Trace)
        → os.recv t origin 8192 ≡ some (x ∷ xs)
        → write_all os (received origin (x ∷ xs) ∷ t) client (x ∷ xs) ≡ (done, u)
        → relay (suc fuel) os t origin client max c total
          ≡ relay fuel os u origin client max
              (capture_chunk os (received origin (x ∷ xs) ∷ t) max c (x ∷ xs))
              (add_size total (length (x ∷ xs)))
    unfolding relay read
    relay_next u e w = ground (arith, e, w)

received-Keeps : (t : Trace) (s : ℕ) (b : Bytes) → IsOpen s t → Keeps t (received s b ∷ t)
received-Keeps t s b o = record { same_open = refl; proper = λ p. (o, p) }

input-received : (s : ℕ) (b : Bytes) (t : Trace) → input s (received s b ∷ t) ≡ input s t ++ b
input-received s b t = ground arith

-- The last read finds the end of the stream.
over-Ends :
    (os : Os) (t : Trace) (origin client max : ℕ) (got : Bytes) (total : ℕ) (c : Capture)
    → IsOpen origin t
    → IsCopy os max got c
    → total < 2 ^ 64
    → os.recv t origin 8192 ≡ some []
    → Ends os t origin client max got total
        (success c total)
        (close (received origin [] ∷ t) origin)
over-Ends os t origin client max got total c o copy fits ended =
    let (a, b) = closing origin o (received-Keeps t origin [] o) in
    record {
      still_open = a;
      proper = b;
      outcome = inr (record {
        rest = [];
        copy = c;
        count = total;
        is = refl;
        counted =
            sym (mod-eq_of_lt {n = total + 0} {m = 2 ^ 64} (omega (arith, fits)) ∙ omega arith);
        copied = subst (λ g. IsCopy os max g c) (sym (append-nil got)) copy;
        relayed = sym (append-nil (output client t));
        came = input-received origin [] t;
        complete = (t, ended, refl);
      });
    }

pub relay-Ends :
    (fuel : ℕ) (os : Os) (t : Trace) (origin client max : ℕ) (got : Bytes) (c : Capture) (total : ℕ)
    → BoundedRecv os
    → max < 2 ^ 62
    → IsOpen origin t
    → IsOpen client t
    → IsCopy os max got c
    → total < 2 ^ 64
    → AllEnds os t origin client max got total (relay fuel os t origin client max c total)
unfolding relay
relay-Ends zero os t origin client max got c total br w o k copy fits = tt
relay-Ends (suc fuel) os t origin client max got c total br w o k copy fits =
    by_answer (os.recv t origin 8192) refl λ u got2 c2 total2 o2 k2 copy2 fits2.
      relay-Ends fuel os u origin client max got2 c2 total2 br w o2 k2 copy2 fits2
  where
    Result : Option (Forwarded × Trace) → Type 0
    Result = AllEnds os t origin client max got total

    Next : Type 0
    Next =
        (u : Trace) (got2 : Bytes) (c2 : Capture) (total2 : ℕ)
        → IsOpen origin u
        → IsOpen client u
        → IsCopy os max got2 c2
        → total2 < 2 ^ 64
        → AllEnds os u origin client max got2 total2 (relay fuel os u origin client max c2 total2)

    by_write :
        (x : ℕ) (xs : Bytes)
        → os.recv t origin 8192 ≡ some (x ∷ xs)
        → Next
        → (r : Status × Trace) → write_all os (received origin (x ∷ xs) ∷ t) client (x ∷ xs) ≡ r
        → Result (relay (suc fuel) os t origin client max c total)
    by_write x xs e ih (failed, u) we =
        subst Result (sym (relay_refused fuel os t origin client max c total x xs u e we)) (
          fails os t u origin client max got total (failure (add_size total (length (x ∷ xs)))) o
            (Keeps-trans (received-Keeps t origin (x ∷ xs) o) (
              subst (λ r. Keeps (received origin (x ∷ xs) ∷ t) r.1) we
                (write_all-Keeps os (received origin (x ∷ xs) ∷ t) client (x ∷ xs) k)))
            refl refl)
    by_write x xs e ih (done, u) we =
        let keeps = Keeps-trans (received-Keeps t origin (x ∷ xs) o) (
          subst (λ r. Keeps (received origin (x ∷ xs) ∷ t) r.1) we
            (write_all-Keeps os (received origin (x ∷ xs) ∷ t) client (x ∷ xs) k)) in
        let out =
          subst (Written client (x ∷ xs) (received origin (x ∷ xs) ∷ t)) we
            (write_all-Written os (received origin (x ∷ xs) ∷ t) client (x ∷ xs)) in
        let inp =
          ap (λ r. input origin r.1) (sym we)
          ∙ input-write_all origin os (received origin (x ∷ xs) ∷ t) client (x ∷ xs)
          ∙ input-received origin (x ∷ xs) t in
        subst Result (sym (relay_next fuel os t origin client max c total x xs u e we)) (
          after_round os t u origin client max got (x ∷ xs) total
            (relay fuel os u origin client max
              (capture_chunk os (received origin (x ∷ xs) ∷ t) max c (x ∷ xs))
              (add_size total (length (x ∷ xs))))
            keeps out inp
            (ih u (got ++ (x ∷ xs)) (capture_chunk os (received origin (x ∷ xs) ∷ t) max c (x ∷ xs))
              (add_size total (length (x ∷ xs))) (Keeps-IsOpen origin keeps o)
              (Keeps-IsOpen client keeps k)
              (capture_chunk-IsCopy os (received origin (x ∷ xs) ∷ t) max got (x ∷ xs) c copy
                (omega arith) (omega (arith, br t origin 8192 (x ∷ xs) e)) w)
              (omega arith)))

    by_answer :
        (a : Option Bytes)
        → os.recv t origin 8192 ≡ a
        → Next
        → Result (relay (suc fuel) os t origin client max c total)
    by_answer none e ih = subst Result (sym (relay_broken fuel os t origin client max c total e)) (
        fails os t (refused origin ∷ t) origin client max got total
          (record (failure total) { lost = c.capture_buffer }) o
          (record { same_open = refl; proper = λ p. (o, p) }) refl refl)
    by_answer (some []) e ih =
        subst Result (sym (relay_over fuel os t origin client max c total e))
          (over-Ends os t origin client max got total c o copy fits e)
    by_answer (some (x ∷ xs)) e ih =
        by_write x xs e ih (write_all os (received origin (x ∷ xs) ∷ t) client (x ∷ xs)) refl
