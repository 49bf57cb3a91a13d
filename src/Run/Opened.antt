-- ===== src/Run/Opened.antt =====
-- The sockets that the main thread of src/proxy_server.c has open.
use concurrent_http_proxy_se.Base.{
  ℕ, zero, suc, ◌≡◌, ◌≢◌, refl, sym, ap, ◌∙◌, subst, Bool, true, false, if◌then◌else◌, Option, none,
  some, List, [], ◌∷◌, ◌++◌, ℤ, pos, negsuc, Status,
}
use concurrent_http_proxy_se.Metrics.{Metrics}
use concurrent_http_proxy_se.Run.{
  Host, Acts, Round, leaves, goes_on, submits, accepted_client, polled, round, close_all,
}
use concurrent_http_proxy_se.Run.Clients.{never_fails, returned-taken}
use concurrent_http_proxy_se.Run.System.{
  Main, looping, submitting, leaving, joining, returned, is_back, Proxy, serving, fails, kind, Step,
  waits, accepts, submitted, not_submitted, breaks, stops_pool, ends, pool_moves, Reachable, start,
  next,
}
use concurrent_http_proxy_se.Sockets.{Trace}
use concurrent_http_proxy_se.Sockets.Listener.{
  Address, accept, client_of, wait_for_readable, readiness,
}
use concurrent_http_proxy_se.Sockets.Open.{open_sockets, remove}
use concurrent_http_proxy_se.Threads.{Job, Pool, create, destroy}
use concurrent_http_proxy_se.Threads.System
use concurrent_http_proxy_se.Threads.System.{System}

-- Sockets that are open, and those of clients that are accepted after them, the last one first.
abbrev pub with_clients : List Job → List ℕ → List ℕ
with_clients [] l = l
with_clients (job ∷ jobs) l =
    with_clients jobs (elim job.client_socket [ none ↦ l | some s ↦ s ∷ l ])

with_clients-snoc :
    (jobs : List Job) (job : Job) (l : List ℕ) {q : List ℕ}
    → q ≡ elim job.client_socket [ none ↦ with_clients jobs l | some s ↦ s ∷ with_clients jobs l ]
    → q ≡ with_clients (jobs ++ (job ∷ [])) l
with_clients-snoc [] job l e = e
with_clients-snoc (j ∷ jobs) job l e = with_clients-snoc jobs job _ e

-- What a round of the loop opens: the client that it submits.
IsRound : Trace → Round → Type 0
IsRound t (leaves result u) = open_sockets u ≡ open_sockets t
IsRound t (goes_on u) = open_sockets u ≡ open_sockets t
IsRound t (submits job u) =
    open_sockets u ≡ elim job.client_socket [ none ↦ open_sockets t | some s ↦ s ∷ open_sockets t ]

client-IsRound :
    (t : Trace) (listener n k : ℕ) (o : Option (ℕ × Address))
    → IsRound t (accepted_client (client_of t listener n k o))
unfolding IsRound
client-IsRound t listener n k none = refl
client-IsRound t listener n k (some (client, address)) = refl

polled-IsRound :
    (host : Host) (listener : ℕ) (t : Trace) (r : ℤ × Bool)
    → IsRound t (polled host listener (readiness t listener r))
unfolding IsRound accept
polled-IsRound host listener t (negsuc n, b) = refl
polled-IsRound host listener t (pos zero, b) = refl
polled-IsRound host listener t (pos (suc n), true) = by_client (host.net.accept _ listener)
  where
    by_client :
        (o : Option (ℕ × Address))
        → IsRound t
            (accepted_client (client_of (readiness t listener (pos 1, true)).1 listener 1025 32 o))
    by_client none = refl
    by_client (some (client, address)) = refl
polled-IsRound host listener t (pos (suc n), false) = refl

round-IsRound : (host : Host) (listener : ℕ) (t : Trace) → IsRound t (round host listener t)
unfolding IsRound round wait_for_readable
round-IsRound host listener t = by_flag (host.requested t)
  where
    by_flag :
        (b : Bool)
        → IsRound t (
            if b
            then leaves Status.done t
            else polled host listener (readiness t listener (host.net.select t listener 500)))
    by_flag true = refl
    by_flag false = polled-IsRound host listener t (host.net.select t listener 500)

module _ (host : Host) (listener : ℕ) (metrics : Metrics) (first : List ℕ) where
  -- The sockets that are open at each point of the main thread.
  IsOpenAt : Main → Proxy → Type 0
  IsOpenAt (joining result) s =
      open_sockets s.trace ≡ remove listener (with_clients s.clients first)
  IsOpenAt (returned result) s =
      (u : Trace) × (open_sockets u ≡ remove listener (with_clients s.clients first))
      × (s.trace ≡ close_all u (destroy s.system.pool))
  IsOpenAt main s = open_sockets s.trace ≡ with_clients s.clients first

  pool_moved :
      (s : Proxy) (u : System) (m : Main)
      → is_back m ≡ false
      → IsOpenAt m s
      → IsOpenAt m (record s { system = u })
  unfolding IsOpenAt
  pool_moved s u looping h i = i
  pool_moved s u (submitting job) h i = i
  pool_moved s u (leaving r) h i = i
  pool_moved s u (joining r) h i = i
  pool_moved s u (returned r) h i = absurd (cc h)

  Step-IsOpenAt :
      {s t : Proxy}
      → ((job : Job) (u : System) (e : System.Step s.system u)
          → s.main ≡ submitting job
          → kind e ≢ fails job)
      → IsOpenAt s.main s
      → Step host listener metrics s t
      → IsOpenAt t.main t
  unfolding IsOpenAt IsRound
  Step-IsOpenAt {s} never i (waits t at r) =
      subst (λ m. IsOpenAt m (record s { trace = t })) (sym at)
        (subst (IsRound s.trace) r (round-IsRound host listener s.trace)
          ∙ subst (λ m. IsOpenAt m s) at i)
  Step-IsOpenAt {s} never i (accepts job t e at r k) = with_clients-snoc s.clients job first (
      subst (IsRound s.trace) r (round-IsRound host listener s.trace)
      ∙ ap (λ l. elim job.client_socket [ none ↦ l | some c ↦ c ∷ l ])
          (subst (λ m. IsOpenAt m s) at i))
  Step-IsOpenAt {s} never i (submitted job e at k) = subst (λ m. IsOpenAt m s) at i
  Step-IsOpenAt {s} never i (not_submitted job e at k) = absurd (never job _ e at k)
  Step-IsOpenAt {s} never i (breaks result t at r) =
      subst (IsRound s.trace) r (round-IsRound host listener s.trace)
      ∙ subst (λ m. IsOpenAt m s) at i
  Step-IsOpenAt {s} never i (stops_pool result e at k) =
      ap (remove listener) (subst (λ m. IsOpenAt m s) at i)
  Step-IsOpenAt {s} never i (ends result at out) = (s.trace, subst (λ m. IsOpenAt m s) at i, refl)
  Step-IsOpenAt {s} never i (pool_moves {u} e front k) = pool_moved s u s.main front i

module _ (workers capacity : ℤ) (handler pool_memory jobs_memory threads_memory : Bool)
    (starts : ℕ → Bool) (p : Pool)
    (made : create workers capacity handler pool_memory jobs_memory threads_memory starts ≡ some p)
    (host : Host) (listener : ℕ) (metrics : Metrics) where
  reached-IsOpenAt :
      {t : Trace} {acts : Acts} {s : Proxy}
      → Reachable host listener metrics (serving p t acts) s
      → IsOpenAt host listener metrics (open_sockets t) s.main s
  unfolding IsOpenAt
  reached-IsOpenAt start = refl
  reached-IsOpenAt (next r step) =
      Step-IsOpenAt host listener metrics _
        (λ job u e at.
          never_fails workers capacity handler pool_memory jobs_memory threads_memory starts p made
            host listener metrics job e r at)
        (reached-IsOpenAt r) step

  -- When proxy_server_run is back, the sockets that are open on the trace of its main thread are those
  -- at its start and the accepted clients', but for the listener.
  pub returned-open :
      {t : Trace} {acts : Acts} {s : Proxy} (result : Status)
      → Reachable host listener metrics (serving p t acts) s
      → s.main ≡ returned result
      → open_sockets s.trace ≡ remove listener (with_clients s.clients (open_sockets t))
  unfolding IsOpenAt
  returned-open {t} {acts} {s} result r back =
      let (u, left_open, closes) =
        subst (λ m. IsOpenAt host listener metrics (open_sockets t) m s) back
          (reached-IsOpenAt r) in
      let (taken, idle, nothing_left) =
        returned-taken workers capacity handler pool_memory jobs_memory threads_memory starts p made
          host listener metrics result r back in
      ap open_sockets (closes ∙ ap (close_all u) nothing_left) ∙ left_open
