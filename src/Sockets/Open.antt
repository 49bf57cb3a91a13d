-- ===== src/Sockets/Open.antt =====
-- Which sockets are open, what went over them, and when a trace uses only open ones.
use concurrent_http_proxy_se.Base.{
  ℕ, ◌≡◌, refl, ap, ◌∙◌, arith, ◌==◌, if◌then◌else◌, true, List, [], ◌∷◌, ◌++◌, mem,
}
use concurrent_http_proxy_se.Bytes.{Bytes}
use concurrent_http_proxy_se.Sockets.{
  opened, closed, received, sent, accepted, refused, no_socket, Trace,
}

-- A list without the first occurrence of a number.
abbrev pub remove : ℕ → List ℕ → List ℕ
remove s [] = []
remove s (x ∷ l) = if s == x then l else x ∷ remove s l

-- The open sockets, the last opened first.
abbrev pub open_sockets : Trace → List ℕ
open_sockets [] = []
open_sockets (opened s ∷ t) = s ∷ open_sockets t
open_sockets (closed s ∷ t) = remove s (open_sockets t)
open_sockets (received s b ∷ t) = open_sockets t
open_sockets (sent s b ∷ t) = open_sockets t
open_sockets (accepted s ∷ t) = open_sockets t
open_sockets (refused s ∷ t) = open_sockets t
open_sockets (no_socket ∷ t) = open_sockets t

abbrev pub IsOpen : ℕ → Trace → Type 0
IsOpen s t = mem s (open_sockets t) ≡ true

-- No socket is used or closed that is not open.
abbrev pub IsProper : Trace → Type 0
IsProper [] = Unit
IsProper (opened s ∷ t) = IsProper t
IsProper (closed s ∷ t) = IsOpen s t × IsProper t
IsProper (received s b ∷ t) = IsOpen s t × IsProper t
IsProper (sent s b ∷ t) = IsOpen s t × IsProper t
IsProper (accepted s ∷ t) = IsOpen s t × IsProper t
IsProper (refused s ∷ t) = IsOpen s t × IsProper t
IsProper (no_socket ∷ t) = IsProper t

-- The bytes that were sent over a socket, in order.
abbrev pub output : ℕ → Trace → Bytes
output q [] = []
output q (opened s ∷ t) = output q t
output q (closed s ∷ t) = output q t
output q (received s b ∷ t) = output q t
output q (sent s b ∷ t) = if s == q then output q t ++ b else output q t
output q (accepted s ∷ t) = output q t
output q (refused s ∷ t) = output q t
output q (no_socket ∷ t) = output q t

-- The bytes that were received from it.
abbrev pub input : ℕ → Trace → Bytes
input q [] = []
input q (opened s ∷ t) = input q t
input q (closed s ∷ t) = input q t
input q (received s b ∷ t) = if s == q then input q t ++ b else input q t
input q (sent s b ∷ t) = input q t
input q (accepted s ∷ t) = input q t
input q (refused s ∷ t) = input q t
input q (no_socket ∷ t) = input q t

-- The bytes that were received from it since it was opened last.
abbrev pub since : ℕ → Trace → Bytes
since q [] = []
since q (opened s ∷ t) = if s == q then [] else since q t
since q (closed s ∷ t) = since q t
since q (received s b ∷ t) = if s == q then since q t ++ b else since q t
since q (sent s b ∷ t) = since q t
since q (accepted s ∷ t) = since q t
since q (refused s ∷ t) = since q t
since q (no_socket ∷ t) = since q t

-- From one moment to a later one the open sockets stay as they are, and open ones only are used.
pub record Keeps (t u : Trace) : Type 0 where
  pub same_open : open_sockets u ≡ open_sockets t
  pub proper : IsProper t → IsProper u

pub Keeps-refl : (t : Trace) → Keeps t t
Keeps-refl t = record { same_open = refl; proper = λ p. p }

pub Keeps-trans : {t u v : Trace} → Keeps t u → Keeps u v → Keeps t v
Keeps-trans a b = record {
  same_open = b.same_open ∙ a.same_open;
  proper = λ p. b.proper (a.proper p);
}

pub Keeps-IsOpen : {t u : Trace} (s : ℕ) → Keeps t u → IsOpen s t → IsOpen s u
Keeps-IsOpen s k o = ap (mem s) k.same_open ∙ o

pub mem-head : (s : ℕ) (l : List ℕ) → mem s (s ∷ l) ≡ true
mem-head s l = ground arith

pub remove-head : (s : ℕ) (l : List ℕ) → remove s (s ∷ l) ≡ l
remove-head s l = ground arith
