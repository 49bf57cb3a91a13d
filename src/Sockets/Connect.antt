-- ===== src/Sockets/Connect.antt =====
-- Which sockets the calls of src/socket_utils.c leave open.
use concurrent_http_proxy_se.Base.{
  ℕ, ◌≡◌, refl, sym, ap, ◌∙◌, subst, arith, ◌==◌, ltb, if◌then◌else◌, Bool, true, false, ◌||◌,
  Option, none, some, List, [], ◌∷◌, mem,
}
use concurrent_http_proxy_se.Bytes.{Bytes}
use concurrent_http_proxy_se.Sockets.{
  opened, closed, accepted, refused, no_socket, Trace, Os, answered, read_answer, read,
  second_option, set_timeout, connect_each, connect_to_host,
}
use concurrent_http_proxy_se.Sockets.Open.{
  IsOpen, IsProper, open_sockets, output, input, since, Keeps, Keeps-refl, Keeps-trans, mem-head,
  remove-head,
}

-- `socket` never gives a descriptor that is open.
abbrev pub NewSockets : Os → Type 0
NewSockets os = (t : Trace) (s : ℕ) → os.socket t ≡ some s → mem s (open_sockets t) ≡ false

-- Nothing is sent and nothing received.
pub record Silent (t u : Trace) : Type 0 where
  pub same_output : (q : ℕ) → output q u ≡ output q t
  pub same_input : (q : ℕ) → input q u ≡ input q t

pub Silent-trans : {t u v : Trace} → Silent t u → Silent u v → Silent t v
Silent-trans a b = record {
  same_output = λ q. b.same_output q ∙ a.same_output q;
  same_input = λ q. b.same_input q ∙ a.same_input q;
}

-- A socket is new on the open ones.
pub record Opens (os : Os) (s : ℕ) (t u : Trace) : Type 0 where
  pub added : open_sockets u ≡ s ∷ open_sockets t
  pub proper : IsProper t → IsProper u
  pub new : NewSockets os → mem s (open_sockets t) ≡ false
  pub nothing_yet : since s u ≡ []

-- With a socket the call has opened that one, and without one it has closed all it opened.
abbrev pub Connected : Os → Trace → Option ℕ × Trace → Type 0
Connected os t (none, u) = Keeps t u × Silent t u
Connected os t (some s, u) = Opens os s t u × Silent t u

Connected-after :
    (os : Os) (t u : Trace) (r : Option ℕ × Trace)
    → Keeps t u
    → Silent t u
    → Connected os u r
    → Connected os t r
Connected-after os t u (none, v) k q h = (Keeps-trans k h.0, Silent-trans q h.1)
Connected-after os t u (some s, v) k q (h, l) = (
  record {
    added = h.added ∙ ap (◌∷◌ s) k.same_open;
    proper = λ p. h.proper (k.proper p);
    new = λ n. ap (mem s) (sym k.same_open) ∙ h.new n;
    nothing_yet = h.nothing_yet;
  },
  Silent-trans q l,
)

-- A socket that is opened, refused a connection and closed.
try_fails : (s : ℕ) (t : Trace) → Keeps t (closed s ∷ refused s ∷ opened s ∷ t)
try_fails s t = record {
  same_open = remove-head s (open_sockets t);
  proper = λ p. (mem-head s (open_sockets t), (mem-head s (open_sockets t), p));
}

-- What one address gives, by the answers of the system.
try_address :
    (os : Os) (t : Trace) (a : ℕ) (rest : List ℕ) (o : Option ℕ)
    → os.socket t ≡ o
    → ((u : Trace) → Connected os u (connect_each os u rest))
    → Connected os t (connect_each os t (a ∷ rest))
unfolding connect_each
try_address os t a rest none e ih = subst (Connected os t) (sym (no_socket_step e)) (
    Connected-after os t (no_socket ∷ t) (connect_each os (no_socket ∷ t) rest)
      (record { same_open = refl; proper = λ p. p })
      (record { same_output = λ q. refl; same_input = λ q. refl }) (ih (no_socket ∷ t)))
  where
    no_socket_step :
        os.socket t ≡ none → connect_each os t (a ∷ rest) ≡ connect_each os (no_socket ∷ t) rest
    no_socket_step e = ground (arith, e)
try_address os t a rest (some s) e ih = by_answer (os.connect (opened s ∷ t) s a) refl
  where
    tried : Trace
    tried = closed s ∷ refused s ∷ opened s ∷ t

    works :
        os.connect (opened s ∷ t) s a ≡ true
        → connect_each os t (a ∷ rest) ≡ (some s, accepted s ∷ opened s ∷ t)
    works f = ground (arith, e, f)

    fails :
        os.connect (opened s ∷ t) s a ≡ false
        → connect_each os t (a ∷ rest) ≡ connect_each os tried rest
    fails f = ground (arith, e, f)

    by_answer :
        (b : Bool)
        → os.connect (opened s ∷ t) s a ≡ b
        → Connected os t (connect_each os t (a ∷ rest))
    by_answer true f = subst (Connected os t) (sym (works f)) (
      record {
        added = refl;
        proper = λ p. (mem-head s (open_sockets t), p);
        new = λ n. n t s e;
        nothing_yet = ground arith;
      },
      record { same_output = λ q. refl; same_input = λ q. refl },
    )
    by_answer false f = subst (Connected os t) (sym (fails f)) (
        Connected-after os t tried (connect_each os tried rest) (try_fails s t)
          (record { same_output = λ q. refl; same_input = λ q. refl }) (ih tried))

connect_each-Connected :
    (os : Os) (t : Trace) (addresses : List ℕ) → Connected os t (connect_each os t addresses)
unfolding connect_each
connect_each-Connected os t [] =
    (Keeps-refl t, record { same_output = λ q. refl; same_input = λ q. refl })
connect_each-Connected os t (a ∷ rest) =
    try_address os t a rest (os.socket t) refl λ u. connect_each-Connected os u rest

-- socket_utils_connect_to_host leaves open the socket that it returns and no other: every socket that
-- could not connect is closed again. It uses and closes no socket but those it opened, and sends and
-- receives nothing.
pub connect_to_host-Connected :
    (os : Os) (t : Trace) (host : Bytes) (port : ℕ)
    → Connected os t (connect_to_host os t host port)
unfolding connect_to_host
connect_to_host-Connected os t host port =
    by_port (ltb port 1 || ltb 65535 port) (by_name (os.resolve host port))
  where
    nothing : Connected os t (none, t)
    nothing = (Keeps-refl t, record { same_output = λ q. refl; same_input = λ q. refl })

    found : Option (List ℕ) → Option ℕ × Trace
    found o = elim o [ none ↦ (none, t) | some addresses ↦ connect_each os t addresses ]

    by_name : (o : Option (List ℕ)) → Connected os t (found o)
    by_name none = nothing
    by_name (some addresses) = connect_each-Connected os t addresses

    by_port :
        (b : Bool)
        → Connected os t (found (os.resolve host port))
        → Connected os t (if b then (none, t) else found (os.resolve host port))
    by_port true h = nothing
    by_port false h = h

pub answered-Silent : (t : Trace) (s : ℕ) (b : Bool) → Silent t (answered t s b).1
answered-Silent t s true = record { same_output = λ q. refl; same_input = λ q. refl }
answered-Silent t s false = record { same_output = λ q. refl; same_input = λ q. refl }

second_option-Silent :
    (os : Os) (t : Trace) (s : ℕ) (b : Bool) → Silent t (second_option os s (answered t s b)).1
second_option-Silent os t s true =
    Silent-trans (answered-Silent t s true)
      (answered-Silent (accepted s ∷ t) s (os.set_option (accepted s ∷ t) s))
second_option-Silent os t s false = answered-Silent t s false

pub set_timeout-Silent : (os : Os) (t : Trace) (s : ℕ) → Silent t (set_timeout os t s).1
unfolding set_timeout
set_timeout-Silent os t s = second_option-Silent os t s (os.set_option t s)

since-answered : (q : ℕ) (t : Trace) (s : ℕ) (b : Bool) → since q (answered t s b).1 ≡ since q t
since-answered q t s true = refl
since-answered q t s false = refl

since-second_option :
    (q : ℕ) (os : Os) (t : Trace) (s : ℕ) (b : Bool)
    → since q (second_option os s (answered t s b)).1 ≡ since q t
since-second_option q os t s true =
    since-answered q (accepted s ∷ t) s (os.set_option (accepted s ∷ t) s)
since-second_option q os t s false = refl

pub since-set_timeout :
    (q : ℕ) (os : Os) (t : Trace) (s : ℕ) → since q (set_timeout os t s).1 ≡ since q t
unfolding set_timeout
since-set_timeout q os t s = since-second_option q os t s (os.set_option t s)

pub answered-Keeps : (t : Trace) (s : ℕ) (b : Bool) → IsOpen s t → Keeps t (answered t s b).1
answered-Keeps t s true o = record { same_open = refl; proper = λ p. (o, p) }
answered-Keeps t s false o = record { same_open = refl; proper = λ p. (o, p) }

second_option-Keeps :
    (os : Os) (t : Trace) (s : ℕ) (b : Bool)
    → IsOpen s t
    → Keeps t (second_option os s (answered t s b)).1
second_option-Keeps os t s true o =
    Keeps-trans (answered-Keeps t s true o)
      (answered-Keeps (accepted s ∷ t) s (os.set_option (accepted s ∷ t) s) o)
second_option-Keeps os t s false o = answered-Keeps t s false o

pub set_timeout-Keeps : (os : Os) (t : Trace) (s : ℕ) → IsOpen s t → Keeps t (set_timeout os t s).1
unfolding set_timeout
set_timeout-Keeps os t s o = second_option-Keeps os t s (os.set_option t s) o

read_answer-Keeps :
    (t : Trace) (s : ℕ) (a : Option Bytes) → IsOpen s t → Keeps t (read_answer t s a).1
read_answer-Keeps t s none o = record { same_open = refl; proper = λ p. (o, p) }
read_answer-Keeps t s (some bytes) o = record { same_open = refl; proper = λ p. (o, p) }

pub read-Keeps : (os : Os) (t : Trace) (s size : ℕ) → IsOpen s t → Keeps t (read os t s size).1
unfolding read
read-Keeps os t s size o = by_size (size == 0)
  where
    by_size :
        (b : Bool)
        → Keeps t
            (if◌then◌else◌ {A = Option Bytes × Trace} b
              (none, t)
              (read_answer t s (os.recv t s size))).1
    by_size true = Keeps-refl t
    by_size false = read_answer-Keeps t s (os.recv t s size) o
