-- ===== src/Forwarder/Rounds.antt =====
-- How many rounds the relay of src/response_forwarder.c makes.
use concurrent_http_proxy_se.Base.{
  ℕ, zero, suc, ◌+◌, ◌≤◌, ◌<◌, ◌≡◌, refl, sym, ap, ◌∙◌, arith, add_size, length, length-append,
  Option, none, some, [], ◌∷◌, ◌++◌, Status, done, failed,
}
use concurrent_http_proxy_se.Bytes.{Bytes}
use concurrent_http_proxy_se.Sockets.{received, Trace, Os, write_all}
use concurrent_http_proxy_se.Sockets.Open.{since}
use concurrent_http_proxy_se.Sockets.Write.{since-write_all}
use concurrent_http_proxy_se.Forwarder.{Capture, Forwarded, capture_chunk, relay}
use concurrent_http_proxy_se.Forwarder.Relay.{relay_broken, relay_over, relay_refused, relay_next}

-- How many bytes a connection gives at most: behind that many its stream is at the end or fails.
abbrev pub EndsAfter : Os → ℕ → Type 0
EndsAfter os n =
    (t : Trace) (s x : ℕ) (xs : Bytes)
    → os.recv t s 8192 ≡ some (x ∷ xs)
    → length (since s t) + length (x ∷ xs) ≤ n

since-received : (s : ℕ) (b : Bytes) (t : Trace) → since s (received s b ∷ t) ≡ since s t ++ b
since-received s b t = ground arith

-- From an origin that sends a bounded number of bytes, the relay needs a round for each byte at most
-- and one for the end: with that fuel it is over.
pub relay_ends :
    (fuel : ℕ) (os : Os) (t : Trace) (origin client max : ℕ) (c : Capture) (total n : ℕ)
    → EndsAfter os n
    → length (since origin t) ≤ n
    → n < length (since origin t) + fuel
    → (r : Forwarded × Trace) × (relay fuel os t origin client max c total ≡ some r)
unfolding relay
relay_ends zero os t origin client max c total n ends b h = absurd (omega (arith, b, h))
relay_ends (suc fuel) os t origin client max c total n ends b h =
    by_answer (os.recv t origin 8192) refl
      λ u c2 total2 b2 h2. relay_ends fuel os u origin client max c2 total2 n ends b2 h2
  where
    Result : Type 0
    Result = (r : Forwarded × Trace) × (relay (suc fuel) os t origin client max c total ≡ some r)

    Next : Type 0
    Next =
        (u : Trace) (c2 : Capture) (total2 : ℕ)
        → length (since origin u) ≤ n
        → n < length (since origin u) + fuel
        → (r : Forwarded × Trace) × (relay fuel os u origin client max c2 total2 ≡ some r)

    by_write :
        (x : ℕ) (xs : Bytes)
        → os.recv t origin 8192 ≡ some (x ∷ xs)
        → Next
        → (r : Status × Trace) → write_all os (received origin (x ∷ xs) ∷ t) client (x ∷ xs) ≡ r
        → Result
    by_write x xs e ih (failed, u) we =
        (_, relay_refused fuel os t origin client max c total x xs u e we)
    by_write x xs e ih (done, u) we =
        let inp =
          ap (λ r. length (since origin r.1)) (sym we)
          ∙ ap length (since-write_all origin os (received origin (x ∷ xs) ∷ t) client (x ∷ xs))
          ∙ ap length (since-received origin (x ∷ xs) t)
          ∙ length-append (since origin t) (x ∷ xs) in
        let (r, ends_so) =
          ih u (capture_chunk os (received origin (x ∷ xs) ∷ t) max c (x ∷ xs))
            (add_size total (length (x ∷ xs))) (omega (arith, inp, ends t origin x xs e))
            (omega (arith, inp, h)) in
        (r, relay_next fuel os t origin client max c total x xs u e we ∙ ends_so)

    by_answer : (a : Option Bytes) → os.recv t origin 8192 ≡ a → Next → Result
    by_answer none e ih = (_, relay_broken fuel os t origin client max c total e)
    by_answer (some []) e ih = (_, relay_over fuel os t origin client max c total e)
    by_answer (some (x ∷ xs)) e ih =
        by_write x xs e ih (write_all os (received origin (x ∷ xs) ∷ t) client (x ∷ xs)) refl
