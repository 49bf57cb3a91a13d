-- ===== src/Sockets/Listener.antt =====
-- The listening side of src/socket_utils.c: the listener, waiting for clients, and accepting them.
-- What the system answers to these calls is a parameter, as in `Os`.
use concurrent_http_proxy_se.Base.{
  ℕ, zero, suc, ◌-◌, ◌%◌, ◌^◌, ◌≡◌, refl, ap, ◌∙◌, arith, mem, take, if◌then◌else◌, Bool, true,
  false, Option, none, some, ◌∷◌, ℤ, pos, negsuc, Status, done, failed,
}
use concurrent_http_proxy_se.Bytes.{Bytes, codes}
use concurrent_http_proxy_se.Decimal.{decimal}
use concurrent_http_proxy_se.Sockets.{
  opened, accepted, refused, no_socket, Trace, Os, close, answered, set_option,
}
use concurrent_http_proxy_se.Sockets.Connect.{Connected, Opens, Silent}
use concurrent_http_proxy_se.Sockets.Open.{IsOpen, open_sockets, remove, mem-head, remove-head}

-- The address of a client: whether it is of AF_INET, its port, and what `inet_ntoa` prints.
pub record Address : Type 0 where
  pub is_inet : Bool
  pub port : ℕ
  pub address_text : Option Bytes

-- `bind` with a port, `listen` with a backlog, `select` with a timeout, its number of ready sockets
-- and whether this one is set, and `accept`.
pub record Net : Type 0 where
  pub bind : Trace → ℕ → ℕ → Bool
  pub listen : Trace → ℕ → ℕ → Bool
  pub select : Trace → ℕ → ℕ → ℤ × Bool
  pub accept : Trace → ℕ → Option (ℕ × Address)

-- The socket that the calls prepare, by the last of them: it is closed when one fails.
abbrev pub checked : ℕ → Status × Trace → (Trace → Option ℕ × Trace) → Option ℕ × Trace
checked s (failed, t) rest = (none, close t s)
checked s (done, t) rest = rest t

abbrev pub listening : Net → ℕ → ℕ → Trace → Option ℕ × Trace
listening net s backlog t = checked s (answered t s (net.listen t s backlog)) λ u. (some s, u)

abbrev pub bound : Net → ℕ → ℕ → ℕ → Trace → Option ℕ × Trace
bound net s port backlog t =
    checked s (answered t s (net.bind t s (port % 2 ^ 16))) (listening net s backlog)

abbrev pub prepared : Os → Net → ℕ → ℕ → Trace → Option ℕ → Option ℕ × Trace
prepared os net port backlog t none = (none, no_socket ∷ t)
prepared os net port backlog t (some s) =
    checked s (set_option os (opened s ∷ t) s) (bound net s port backlog)

-- `socket_utils_create_listener`; the cast of the port to `unsigned short` is the remainder.
unfoldable pub create_listener : Os → Net → Trace → ℕ → ℕ → Option ℕ × Trace
create_listener os net t port backlog = prepared os net port backlog t (os.socket t)

abbrev pub readiness : Trace → ℕ → ℤ × Bool → ℤ × Trace
readiness t s (negsuc n, is_set) = (negsuc n, refused s ∷ t)
readiness t s (pos zero, is_set) = (pos zero, accepted s ∷ t)
readiness t s (pos (suc n), true) = (pos 1, accepted s ∷ t)
readiness t s (pos (suc n), false) = (pos 0, accepted s ∷ t)

-- `socket_utils_wait_for_readable`: negative for an error, 0 when the time is over, 1 when there is
-- something to read.
unfoldable pub wait_for_readable : Net → Trace → ℕ → ℕ → ℤ × Trace
wait_for_readable net t s timeout_ms = readiness t s (net.select t s timeout_ms)

-- `snprintf` into a buffer of this size, as a C string.
abbrev pub printed : ℕ → Bytes → Bytes
printed size text = take (size - 1) text

abbrev pub host_text : Address → Bytes
host_text a =
    if a.is_inet
    then elim a.address_text [ none ↦ codes "unknown" | some text ↦ text ]
    else codes "unknown"

-- `populate_client_identity` with buffers that are not NULL: the host and the service.
unfoldable pub populate_client_identity : Address → ℕ → ℕ → Bytes × Bytes
populate_client_identity a client_host_size client_service_size = (
  printed client_host_size (host_text a),
  printed client_service_size (decimal (if a.is_inet then a.port else 0)),
)

-- `socket_utils_accept`: the client, its host and its service.
abbrev pub client_of : Trace → ℕ → ℕ → ℕ → Option (ℕ × Address) → Option (ℕ × Bytes × Bytes) × Trace
client_of t listener host_size service_size none = (none, refused listener ∷ t)
client_of t listener host_size service_size (some (client, address)) =
    let (host, service) = populate_client_identity address host_size service_size in
    (some (client, host, service), opened client ∷ t)

unfoldable pub accept : Net → Trace → ℕ → ℕ → ℕ → Option (ℕ × Bytes × Bytes) × Trace
accept net t listener host_size service_size =
    client_of t listener host_size service_size (net.accept t listener)

-- A socket in preparation.
abbrev IsPrepared : Os → ℕ → Trace → Trace → Type 0
IsPrepared os s t u = Opens os s t u × Silent t u

module _ (os : Os) (s : ℕ) (t : Trace) where
  is_open : (u : Trace) → IsPrepared os s t u → IsOpen s u
  is_open u (o, q) = ap (mem s) o.added ∙ mem-head s (open_sockets t)

  checked-Connected :
      (u : Trace) (b : Bool) (rest : Trace → Option ℕ × Trace)
      → IsPrepared os s t u
      → ((v : Trace) → IsPrepared os s t v → Connected os t (rest v))
      → Connected os t (checked s (answered u s b) rest)
  checked-Connected u true rest (o, q) goes_on = goes_on (accepted s ∷ u) (
    record {
      added = o.added;
      proper = λ p. (is_open u (o, q), o.proper p);
      new = o.new;
      nothing_yet = o.nothing_yet;
    },
    record { same_output = q.same_output; same_input = q.same_input },
  )
  checked-Connected u false rest (o, q) goes_on = (
    record {
      same_open = ap (remove s) o.added ∙ remove-head s (open_sockets t);
      proper = λ p. (is_open u (o, q), (is_open u (o, q), o.proper p));
    },
    record { same_output = q.same_output; same_input = q.same_input },
  )

module _ (os : Os) (net : Net) (port backlog : ℕ) (t : Trace) where
  prepared-Connected :
      (o : Option ℕ) → os.socket t ≡ o → Connected os t (prepared os net port backlog t o)
  prepared-Connected none e = (
    record { same_open = refl; proper = λ p. p },
    record { same_output = λ q. refl; same_input = λ q. refl },
  )
  prepared-Connected (some s) e =
      checked-Connected os s t (opened s ∷ t) (os.set_option (opened s ∷ t) s)
        (bound net s port backlog) begins
        λ u optioned.
          checked-Connected os s t u (net.bind u s (port % 2 ^ 16)) (listening net s backlog)
            optioned
            λ v named.
              checked-Connected os s t v (net.listen v s backlog) (λ w. (some s, w)) named
                λ w ready. ready
    where
      begins : IsPrepared os s t (opened s ∷ t)
      begins = (
        record { added = refl; proper = λ p. p; new = λ n. n t s e; nothing_yet = ground arith },
        record { same_output = λ q. refl; same_input = λ q. refl },
      )

  -- socket_utils_create_listener leaves open the socket that it returns and no other: when an option,
  -- bind or listen fails, the socket is closed again. It uses and closes no socket but the one it
  -- opened, and sends and receives nothing.
  pub create_listener-Connected : Connected os t (create_listener os net t port backlog)
  unfolding create_listener
  create_listener-Connected = prepared-Connected (os.socket t) refl
