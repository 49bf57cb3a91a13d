-- ===== src/Run/Rounds.antt =====
-- How the rounds of the accept loop of src/proxy_server.c end.
use concurrent_http_proxy_se.Base.{
  ℕ, zero, suc, ◌≡◌, ◌≢◌, refl, ap, subst, is_some, Bool, true, false, if◌then◌else◌, Option, none,
  some, ℤ, pos, negsuc, Status, done,
}
use concurrent_http_proxy_se.Bytes.{Bytes}
use concurrent_http_proxy_se.Run.{
  Host, Round, leaves, goes_on, submits, accepted_client, polled, round,
}
use concurrent_http_proxy_se.Sockets.{Trace}
use concurrent_http_proxy_se.Sockets.Listener.{accept, wait_for_readable}

-- The loop is left with 0 only when a signal asked for it.
accepted_client-leaves :
    (r : Option (ℕ × Bytes × Bytes) × Trace) (t : Trace) → accepted_client r ≢ leaves done t
accepted_client-leaves (none, u) t e = absurd (cc e)
accepted_client-leaves (some (c, h, s), u) t e = absurd (cc e)

polled-leaves :
    (host : Host) (listener : ℕ) (r : ℤ × Trace) (t : Trace)
    → polled host listener r ≢ leaves done t
polled-leaves host listener (negsuc n, u) t e = absurd (cc e)
polled-leaves host listener (pos zero, u) t e = absurd (cc e)
polled-leaves host listener (pos (suc n), u) t e =
    accepted_client-leaves (accept host.net u listener 1025 32) t e

trace_of : Trace → Round → Trace
trace_of t (leaves r u) = u
trace_of t r = t

leaves_trace : {r q : Status} {t u : Trace} → leaves r t ≡ leaves q u → t ≡ u
unfolding trace_of
leaves_trace {t = t} e = ap (trace_of t) e

pub round-requested :
    (host : Host) (listener : ℕ) (t u : Trace)
    → round host listener t ≡ leaves done u
    → host.requested u ≡ true
unfolding round
round-requested host listener t u e = by_flag (host.requested t) refl e
  where
    by_flag :
        (b : Bool)
        → host.requested t ≡ b
        → (if b
            then leaves done t
            else polled host listener (wait_for_readable host.net t listener 500))
          ≡ leaves done u
        → host.requested u ≡ true
    by_flag true f e = subst (λ v. host.requested v ≡ true) (leaves_trace e) f
    by_flag false f e =
        absurd (polled-leaves host listener (wait_for_readable host.net t listener 500) u e)

-- A job that a round submits has a socket.
abbrev pub SubmitsSocket : Round → Type 0
SubmitsSocket (leaves r t) = Unit
SubmitsSocket (goes_on t) = Unit
SubmitsSocket (submits job t) = is_some job.client_socket ≡ true

accepted_client-SubmitsSocket :
    (r : Option (ℕ × Bytes × Bytes) × Trace) → SubmitsSocket (accepted_client r)
accepted_client-SubmitsSocket (none, t) = tt
accepted_client-SubmitsSocket (some (c, h, s), t) = refl

polled-SubmitsSocket :
    (host : Host) (listener : ℕ) (r : ℤ × Trace) → SubmitsSocket (polled host listener r)
polled-SubmitsSocket host listener (negsuc n, t) = tt
polled-SubmitsSocket host listener (pos zero, t) = tt
polled-SubmitsSocket host listener (pos (suc n), t) =
    accepted_client-SubmitsSocket (accept host.net t listener 1025 32)

pub round-SubmitsSocket :
    (host : Host) (listener : ℕ) (t : Trace) → SubmitsSocket (round host listener t)
unfolding round
round-SubmitsSocket host listener t = by_flag (host.requested t)
  where
    by_flag :
        (b : Bool)
        → SubmitsSocket (
            if b
            then leaves done t
            else polled host listener (wait_for_readable host.net t listener 500))
    by_flag true = tt
    by_flag false = polled-SubmitsSocket host listener (wait_for_readable host.net t listener 500)
