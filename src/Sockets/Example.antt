-- ===== src/Sockets/Example.antt =====
-- A network for the tests: a client on socket 3 that sends one request, and origins that answer any
-- connection to the second of their two addresses with one response. A `send` takes seven bytes.
use concurrent_http_proxy_se.Base.{
  ℕ, zero, suc, ◌+◌, ◌≤◌, ◌<◌, ◌≡◌, refl, ap, arith, ◌==◌, min, length, take, if◌then◌else◌, Bool,
  true, false, some, some_injective, List, [], ◌∷◌, mem,
}
use concurrent_http_proxy_se.Bytes.{Bytes}
use concurrent_http_proxy_se.Sockets.{Os, Trace}
use concurrent_http_proxy_se.Sockets.Open.{open_sockets, since}
use concurrent_http_proxy_se.Sockets.Write.{TakesBytes}
use concurrent_http_proxy_se.Sockets.Connect.{NewSockets}

abbrev pub sum : List ℕ → ℕ
sum [] = 0
sum (x ∷ l) = x + sum l

-- What a socket gives that gave `before`.
abbrev pub next_input : Bytes → Bytes → Bytes
next_input text [] = text
next_input text (x ∷ before) = []

abbrev pub network : Bytes → Bytes → Os
network request response = record {
  recv = λ t s n. some (take n (next_input (if s == 3 then request else response) (since s t)));
  send = λ t s b. some (min 7 (length b));
  set_option = λ t s. true;
  resolve = λ host port. some (1 ∷ 2 ∷ []);
  socket = λ t. some (suc (sum (open_sockets t)));
  connect = λ t s address. address == 2;
  memory = λ t n. true;
}

mem-large : (s : ℕ) (l : List ℕ) → sum l < s → mem s l ≡ false
mem-large s [] h = refl
mem-large s (x ∷ l) h = ground (arith, h, mem-large s l (omega (arith, h)))

pub network-NewSockets : (request response : Bytes) → NewSockets (network request response)
network-NewSockets request response t s e =
    mem-large s (open_sockets t) (omega (arith, some_injective e))

length-take-le : (n : ℕ) (l : Bytes) → length (take n l) ≤ n
length-take-le zero l = omega arith
length-take-le (suc n) [] = omega arith
length-take-le (suc n) (x ∷ l) = omega (arith, length-take-le n l)

length-take-all : (n : ℕ) (l : Bytes) → length (take n l) ≤ length l
length-take-all zero l = omega arith
length-take-all (suc n) [] = omega arith
length-take-all (suc n) (x ∷ l) = omega (arith, length-take-all n l)

pub network-BoundedRecv :
    (request response : Bytes) (t : Trace) (s n : ℕ) (b : Bytes)
    → (network request response).recv t s n ≡ some b
    → length b ≤ n
network-BoundedRecv request response t s n b e = omega (
  arith,
  ap length (some_injective e),
  length-take-le n (next_input (if s == 3 then request else response) (since s t)),
)

pub network-TakesBytes :
    (request response : Bytes) (s : ℕ) → TakesBytes (network request response) s
network-TakesBytes request response s t x xs = (min 6 (length xs), ap some (omega arith))

-- No connection gives more than these.
pub network-EndsAfter :
    (request response : Bytes) (n : ℕ) (t : Trace) (s x : ℕ) (xs : Bytes)
    → length request ≤ n
    → length response ≤ n
    → (network request response).recv t s 8192 ≡ some (x ∷ xs)
    → length (since s t) + length (x ∷ xs) ≤ n
network-EndsAfter request response n t s x xs a b e =
    by_input (since s t) (s == 3) (some_injective e)
  where
    by_input :
        (i : Bytes) (k : Bool)
        → take 8192 (next_input (if k then request else response) i) ≡ x ∷ xs
        → length i + length (x ∷ xs) ≤ n
    by_input [] true f = omega (arith, a, ap length f, length-take-all 8192 request)
    by_input [] false f = omega (arith, b, ap length f, length-take-all 8192 response)
    by_input (y ∷ i) k f = absurd (cc f)
