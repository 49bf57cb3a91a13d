-- ===== src/Sockets.antt =====
-- src/socket_utils.c (its POSIX branch) over the system calls it makes. What the system answers is
-- a parameter: a function of everything that has happened, so that any behaviour of the network and
-- of the other side is one. A call that changes something is an event on the trace. The casts of sizes to
-- `int` are left out: no caller passes more than 262144 bytes.
pub mod Open
pub mod Write
pub mod Connect
pub mod Listener
pub mod Example
mod Tests
use concurrent_http_proxy_se.Base.{
  ℕ, zero, suc, ◌==◌, ltb, length, take, drop, if◌then◌else◌, Bool, true, false, ◌||◌, Option, none,
  some, List, [], ◌∷◌, ◌++◌, Status, done, failed,
}
use concurrent_http_proxy_se.Bytes.{Bytes}

pub data Event : Type 0 where
  -- `socket` gave a socket; `close`
  opened closed : ℕ → Event
  -- `recv` gave bytes, none of them at the end of the stream; `send` took bytes
  received sent : ℕ → Bytes → Event
  -- a call on a socket that the system accepted, and one that it refused
  accepted refused : ℕ → Event
  -- `socket` gave none
  no_socket : Event

-- What has happened, the latest first.
abbrev pub Trace : Type 0
Trace = List Event

-- The system. A byte count that `send` answers is never negative; its error is `none`, as is the
-- error of `recv`. The addresses that `getaddrinfo` finds are numbers. `memory` is whether an
-- allocation of that many bytes succeeds.
pub record Os : Type 0 where
  pub recv : Trace → ℕ → ℕ → Option Bytes
  pub send : Trace → ℕ → Bytes → Option ℕ
  pub set_option : Trace → ℕ → Bool
  pub resolve : Bytes → ℕ → Option (List ℕ)
  pub socket : Trace → Option ℕ
  pub connect : Trace → ℕ → ℕ → Bool
  pub memory : Trace → ℕ → Bool

-- `socket_utils_close` of a valid socket.
abbrev pub close : Trace → ℕ → Trace
close t s = closed s ∷ t

-- What a call gives that the system accepts or refuses.
abbrev pub answered : Trace → ℕ → Bool → Status × Trace
answered t s true = (done, accepted s ∷ t)
answered t s false = (failed, refused s ∷ t)

abbrev pub read_answer : Trace → ℕ → Option Bytes → Option Bytes × Trace
read_answer t s none = (none, refused s ∷ t)
read_answer t s (some bytes) = (some bytes, received s bytes ∷ t)

-- `socket_utils_read` into a buffer that is not NULL.
unfoldable pub read : Os → Trace → ℕ → ℕ → Option Bytes × Trace
read os t s size = if size == 0 then (none, t) else read_answer t s (os.recv t s size)

-- The loop of `socket_utils_write_all`, with fuel; `bytes` is what is still to be sent.
unfoldable pub write_loop : ℕ → Os → Trace → ℕ → Bytes → Status × Trace
write_loop fuel os t s [] = (done, t)
write_loop zero os t s (x ∷ xs) = (failed, t)
write_loop (suc fuel) os t s (x ∷ xs) = elim (os.send t s (x ∷ xs)) [
  | none ↦ (failed, refused s ∷ t)
  | some zero ↦ (failed, refused s ∷ t)
  | some (suc n) ↦ write_loop fuel os (sent s (take (suc n) (x ∷ xs)) ∷ t) s (drop (suc n) (x ∷ xs))
]

-- `socket_utils_write_all`: each round sends one byte at least.
unfoldable pub write_all : Os → Trace → ℕ → Bytes → Status × Trace
write_all os t s bytes = write_loop (length bytes) os t s bytes

-- One `setsockopt`.
abbrev pub set_option : Os → Trace → ℕ → Status × Trace
set_option os t s = answered t s (os.set_option t s)

abbrev pub second_option : Os → ℕ → Status × Trace → Status × Trace
second_option os s (failed, t) = (failed, t)
second_option os s (done, t) = set_option os t s

-- `socket_utils_set_timeout`: the timeout for receiving, then the one for sending.
unfoldable pub set_timeout : Os → Trace → ℕ → Status × Trace
set_timeout os t s = second_option os s (set_option os t s)

-- The loop of `socket_utils_connect_to_host` over the addresses.
unfoldable pub connect_each : Os → Trace → List ℕ → Option ℕ × Trace
connect_each os t [] = (none, t)
connect_each os t (address ∷ addresses) = elim (os.socket t) [
  | none ↦ connect_each os (no_socket ∷ t) addresses
  | some s ↦ elim (os.connect (opened s ∷ t) s address) [
    | true ↦ (some s, accepted s ∷ opened s ∷ t)
    | false ↦ connect_each os (close (refused s ∷ opened s ∷ t) s) addresses
  ]
]

-- `socket_utils_connect_to_host` of a host that is not NULL; SOCKET_HANDLE_INVALID is `none`.
unfoldable pub connect_to_host : Os → Trace → Bytes → ℕ → Option ℕ × Trace
connect_to_host os t host port =
    if ltb port 1 || ltb 65535 port then (none, t) else elim (os.resolve host port) [
      | none ↦ (none, t)
      | some addresses ↦ connect_each os t addresses
    ]
