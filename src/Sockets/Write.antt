-- ===== src/Sockets/Write.antt =====
-- What `socket_utils_write_all` sends.
use concurrent_http_proxy_se.Base.{
  ℕ, zero, suc, ◌-◌, ◌≤◌, ◌≡◌, ◌≢◌, ◌⊎◌, refl, sym, ap, ◌∙◌, subst, arith, Option, none, some,
  some_injective, inl, inr, [], ◌∷◌, ◌++◌, append_assoc, append-nil, length, take, drop, Status,
  done, failed,
}
use concurrent_http_proxy_se.Bytes.{Bytes}
use concurrent_http_proxy_se.Sockets.{sent, refused, Trace, Os, write_loop, write_all}
use concurrent_http_proxy_se.Sockets.Open.{
  IsOpen, output, input, since, Keeps, Keeps-refl, Keeps-trans, Keeps-IsOpen,
}

-- What a write of `bytes` has done, by its status. A failure is the system's: the last thing that
-- happened is a `send` that it refused, and not all of the bytes went out before.
abbrev pub Written : ℕ → Bytes → Trace → Status × Trace → Type 0
Written s bytes t (done, u) = output s u ≡ output s t ++ bytes
Written s bytes t (failed, u) =
    (part rest : Bytes) × (v : Trace) × (bytes ≡ part ++ rest)
    × (rest ≢ [])
    × (output s u ≡ output s t ++ part)
    × (u ≡ refused s ∷ v)

pub take-drop : (n : ℕ) (l : Bytes) → take n l ++ drop n l ≡ l
take-drop zero l = refl
take-drop (suc n) [] = refl
take-drop (suc n) (x ∷ l) = ap (◌∷◌ x) (take-drop n l)

pub length-drop : (n : ℕ) (l : Bytes) → length (drop n l) ≡ length l - n
length-drop zero l = omega arith
length-drop (suc n) [] = omega arith
length-drop (suc n) (x ∷ l) = omega (arith, length-drop n l)

pub output-sent : (s : ℕ) (b : Bytes) (t : Trace) → output s (sent s b ∷ t) ≡ output s t ++ b
output-sent s b t = ground arith

-- A write that goes on after a first part.
Written-sent :
    (s : ℕ) (first rest : Bytes) (t : Trace) (r : Status × Trace)
    → Written s rest (sent s first ∷ t) r
    → Written s (first ++ rest) t r
Written-sent s first rest t (done, u) h =
    h ∙ ap (λ o. o ++ rest) (output-sent s first t) ∙ append_assoc (output s t) first rest
Written-sent s first rest t (failed, u) (part, left, v, whole, ne, out, last) = (
  first ++ part,
  left,
  v,
  ap (◌++◌ first) whole ∙ sym (append_assoc first part left),
  ne,
  out ∙ ap (λ o. o ++ part) (output-sent s first t) ∙ append_assoc (output s t) first part,
  last,
)

write_refused :
    (fuel : ℕ) (os : Os) (t : Trace) (s x : ℕ) (xs : Bytes) (o : Option ℕ)
    → os.send t s (x ∷ xs) ≡ o
    → (o ≡ none) ⊎ (o ≡ some 0)
    → write_loop (suc fuel) os t s (x ∷ xs) ≡ (failed, refused s ∷ t)
unfolding write_loop
write_refused fuel os t s x xs none e h = ground (arith, e)
write_refused fuel os t s x xs (some zero) e h = ground (arith, e)
write_refused fuel os t s x xs (some (suc n)) e (inl h) = absurd (cc h)
write_refused fuel os t s x xs (some (suc n)) e (inr h) = absurd (ground (arith, some_injective h))

pub write_sent :
    (fuel : ℕ) (os : Os) (t : Trace) (s x : ℕ) (xs : Bytes) (n : ℕ)
    → os.send t s (x ∷ xs) ≡ some (suc n)
    → write_loop (suc fuel) os t s (x ∷ xs)
      ≡ write_loop fuel os (sent s (x ∷ take n xs) ∷ t) s (drop n xs)
unfolding write_loop
write_sent fuel os t s x xs n e = ground (arith, e)

write_loop-Written :
    (fuel : ℕ) (os : Os) (t : Trace) (s : ℕ) (bytes : Bytes)
    → length bytes ≤ fuel
    → Written s bytes t (write_loop fuel os t s bytes)
unfolding write_loop
write_loop-Written fuel os t s [] h = sym (append-nil (output s t))
write_loop-Written zero os t s (x ∷ xs) h = absurd (omega (arith, h))
write_loop-Written (suc fuel) os t s (x ∷ xs) h = by_answer (os.send t s (x ∷ xs)) refl λ n.
    write_loop-Written fuel os (sent s (x ∷ take n xs) ∷ t) s (drop n xs)
      (omega (arith, h, length-drop n xs))
  where
    next : ℕ → Trace
    next n = sent s (x ∷ take n xs) ∷ t

    refusal : Written s (x ∷ xs) t (failed, refused s ∷ t)
    refusal = ([], x ∷ xs, t, refl, (λ e. cc e), sym (append-nil (output s t)), refl)

    refused_by :
        (o : Option ℕ)
        → os.send t s (x ∷ xs) ≡ o
        → (o ≡ none) ⊎ (o ≡ some 0)
        → Written s (x ∷ xs) t (write_loop (suc fuel) os t s (x ∷ xs))
    refused_by o e k =
        subst (Written s (x ∷ xs) t) (sym (write_refused fuel os t s x xs o e k)) refusal

    by_answer :
        (o : Option ℕ)
        → os.send t s (x ∷ xs) ≡ o
        → ((n : ℕ) → Written s (drop n xs) (next n) (write_loop fuel os (next n) s (drop n xs)))
        → Written s (x ∷ xs) t (write_loop (suc fuel) os t s (x ∷ xs))
    by_answer none e ih = refused_by none e (inl refl)
    by_answer (some zero) e ih = refused_by (some 0) e (inr refl)
    by_answer (some (suc n)) e ih =
        subst (Written s (x ∷ xs) t) (sym (write_sent fuel os t s x xs n e)) (
          subst
            (λ b.
              Written s (x ∷ b) t (write_loop fuel os (sent s (x ∷ take n xs) ∷ t) s (drop n xs)))
            (take-drop n xs)
            (Written-sent s (x ∷ take n xs) (drop n xs) t
              (write_loop fuel os (sent s (x ∷ take n xs) ∷ t) s (drop n xs)) (ih n)))

-- socket_utils_write_all answers 0 when all bytes went out, in order, behind what was sent before. It
-- answers -1 only when the system refuses a `send`, and then a part of the bytes went out.
pub write_all-Written :
    (os : Os) (t : Trace) (s : ℕ) (bytes : Bytes) → Written s bytes t (write_all os t s bytes)
unfolding write_all
write_all-Written os t s bytes = write_loop-Written (length bytes) os t s bytes (omega arith)

-- The system takes at least one byte at each call.
abbrev pub TakesBytes : Os → ℕ → Type 0
TakesBytes os s = (t : Trace) (x : ℕ) (xs : Bytes) → (n : ℕ) × (os.send t s (x ∷ xs) ≡ some (suc n))

write_loop_done :
    (fuel : ℕ) (os : Os) (t : Trace) (s : ℕ) (bytes : Bytes)
    → TakesBytes os s
    → length bytes ≤ fuel
    → (write_loop fuel os t s bytes).0 ≡ done
unfolding write_loop
write_loop_done fuel os t s [] takes h = refl
write_loop_done zero os t s (x ∷ xs) takes h = absurd (omega (arith, h))
write_loop_done (suc fuel) os t s (x ∷ xs) takes h =
    let (n, e) = takes t x xs in
    ap (λ r. r.0) (write_sent fuel os t s x xs n e)
    ∙ write_loop_done fuel os (sent s (x ∷ take n xs) ∷ t) s (drop n xs) takes
        (omega (arith, h, length-drop n xs))

-- While every `send` takes one byte at least, socket_utils_write_all ends with status 0, however the
-- bytes are cut.
pub write_all_done :
    (os : Os) (t : Trace) (s : ℕ) (bytes : Bytes)
    → TakesBytes os s
    → (write_all os t s bytes).0 ≡ done
unfolding write_all
write_all_done os t s bytes takes = write_loop_done (length bytes) os t s bytes takes (omega arith)

-- What every `send` keeps, taken or refused, a whole write keeps.
write_loop_keeps :
    (P : Trace → Type 0) (fuel : ℕ) (os : Os) (t : Trace) (s : ℕ) (bytes : Bytes)
    → ((u : Trace) (b : Bytes) → P u → P (sent s b ∷ u))
    → ((u : Trace) → P u → P (refused s ∷ u))
    → P t
    → P (write_loop fuel os t s bytes).1
unfolding write_loop
write_loop_keeps P fuel os t s [] took refuses h = h
write_loop_keeps P zero os t s (x ∷ xs) took refuses h = h
write_loop_keeps P (suc fuel) os t s (x ∷ xs) took refuses h =
    by_answer (os.send t s (x ∷ xs)) refl λ n.
      write_loop_keeps P fuel os (sent s (x ∷ take n xs) ∷ t) s (drop n xs) took refuses
        (took t (x ∷ take n xs) h)
  where
    next : ℕ → Trace
    next n = sent s (x ∷ take n xs) ∷ t

    refused_by :
        (a : Option ℕ)
        → os.send t s (x ∷ xs) ≡ a
        → (a ≡ none) ⊎ (a ≡ some 0)
        → P (write_loop (suc fuel) os t s (x ∷ xs)).1
    refused_by a e k = subst (λ r. P r.1) (sym (write_refused fuel os t s x xs a e k)) (refuses t h)

    by_answer :
        (a : Option ℕ)
        → os.send t s (x ∷ xs) ≡ a
        → ((n : ℕ) → P (write_loop fuel os (next n) s (drop n xs)).1)
        → P (write_loop (suc fuel) os t s (x ∷ xs)).1
    by_answer none e ih = refused_by none e (inl refl)
    by_answer (some zero) e ih = refused_by (some 0) e (inr refl)
    by_answer (some (suc n)) e ih =
        subst (λ r. P r.1) (sym (write_sent fuel os t s x xs n e)) (ih n)

pub write_all_keeps :
    (P : Trace → Type 0) (os : Os) (t : Trace) (s : ℕ) (bytes : Bytes)
    → ((u : Trace) (b : Bytes) → P u → P (sent s b ∷ u))
    → ((u : Trace) → P u → P (refused s ∷ u))
    → P t
    → P (write_all os t s bytes).1
unfolding write_all
write_all_keeps P os t s bytes took refuses h =
    write_loop_keeps P (length bytes) os t s bytes took refuses h

-- A write leaves the open sockets open, and uses one that is.
pub write_all-Keeps :
    (os : Os) (t : Trace) (s : ℕ) (bytes : Bytes) → IsOpen s t → Keeps t (write_all os t s bytes).1
write_all-Keeps os t s bytes o =
    write_all_keeps (Keeps t) os t s bytes
      (λ u b k. Keeps-trans k (record { same_open = refl; proper = λ p. (Keeps-IsOpen s k o, p) }))
      (λ u k. Keeps-trans k (record { same_open = refl; proper = λ p. (Keeps-IsOpen s k o, p) }))
      (Keeps-refl t)

-- It receives nothing.
pub input-write_all :
    (q : ℕ) (os : Os) (t : Trace) (s : ℕ) (bytes : Bytes)
    → input q (write_all os t s bytes).1 ≡ input q t
input-write_all q os t s bytes =
    write_all_keeps (λ u. input q u ≡ input q t) os t s bytes (λ u b e. e) (λ u e. e) refl

pub since-write_all :
    (q : ℕ) (os : Os) (t : Trace) (s : ℕ) (bytes : Bytes)
    → since q (write_all os t s bytes).1 ≡ since q t
since-write_all q os t s bytes =
    write_all_keeps (λ u. since q u ≡ since q t) os t s bytes (λ u b e. e) (λ u e. e) refl

-- It sends nothing over other sockets.
pub output-write_all :
    (q : ℕ) (os : Os) (t : Trace) (s : ℕ) (bytes : Bytes)
    → s ≢ q
    → output q (write_all os t s bytes).1 ≡ output q t
output-write_all q os t s bytes ne =
    write_all_keeps (λ u. output q u ≡ output q t) os t s bytes (λ u b e. ground (arith, ne, e))
      (λ u e. e) refl
