-- ===== src/Threads/Ring.antt =====
-- Indices counted round a ring, and the entries read off it.
use native.Mathlib.Nat.{mod-eq_of_lt, mod_self}
use concurrent_http_proxy_se.Base.{
  ℕ, zero, suc, ◌+◌, ◌-◌, ◌%◌, ◌≤◌, ◌<◌, ◌≡◌, ◌≢◌, refl, sym, ap, ◌∙◌, ltb, arith, if◌then◌else◌,
  inl, inr, Bool-cases, ltb→lt, ltb→ge, List, [], ◌∷◌, ◌++◌, update, update_ne, update_self,
}

-- The index `k` places after `head`, for `k` up to the capacity.
abbrev pub at : ℕ → ℕ → ℕ → ℕ
at size head k = if ltb (head + k) size then head + k else head + k - size

-- The `n` entries from the place `k` on.
abbrev pub slice {ℓ} : {A : Type ℓ} → (ℕ → A) → ℕ → ℕ → ℕ → ℕ → List A
slice f size head k zero = []
slice f size head k (suc n) = f (at size head k) ∷ slice f size head (k + 1) n

pub at_lt : (size head k : ℕ) → head < size → k ≤ size → at size head k < size
at_lt size head k h hk = ground arith

pub at_zero : (size head : ℕ) → head < size → at size head 0 ≡ head
at_zero size head h = ground arith

pub at_full : (size head : ℕ) → head < size → at size head size ≡ head
at_full size head h = ground arith

pub at-at :
    (size head k : ℕ) → head < size → k < size → at size (at size head 1) k ≡ at size head (k + 1)
at-at size head k h hk = ground arith

pub at_step :
    (size head k : ℕ) → head < size → k < size → at size (at size head k) 1 ≡ at size head (k + 1)
at_step size head k h hk = ground arith

pub at_ne : (size head j k : ℕ) → head < size → j < k → k < size → at size head j ≢ at size head k
at_ne size head j k h hj hk e = ground arith

-- The source's step round the ring.
pub next_lem : (size i : ℕ) → i < size → (i + 1) % size ≡ at size i 1
next_lem size i h = elim (Bool-cases (ltb (i + 1) size)) [
  | inl t ↦ mod-eq_of_lt (ltb→lt (i + 1) size t) ∙ ground arith
  | inr t ↦ ap (λ x. x % size) (omega (arith, ltb→ge (i + 1) size t)) ∙ mod_self size ∙ ground arith
]

module _ {ℓ} {A : Type ℓ} where
  pub slice-snoc :
      (f : ℕ → A) (size head k n : ℕ)
      → slice f size head k (suc n) ≡ slice f size head k n ++ (f (at size head (k + n)) ∷ [])
  slice-snoc f size head k zero = ap (λ x. f (at size head x) ∷ []) (omega arith)
  slice-snoc f size head k (suc n) = ap (◌∷◌ (f (at size head k))) (
      slice-snoc f size head (k + 1) n
      ∙ ap (λ x. slice f size head (k + 1) n ++ (f (at size head x) ∷ [])) (omega arith))

  pub slice-shift :
      (f : ℕ → A) (size head k n : ℕ)
      → head < size
      → k + n ≤ size
      → slice f size (at size head 1) k n ≡ slice f size head (k + 1) n
  slice-shift f size head k zero h b = refl
  slice-shift f size head k (suc n) h b =
      rw (at-at size head k h (omega arith), slice-shift f size head (k + 1) n h (omega arith))

  pub slice-update :
      (f : ℕ → A) (q : ℕ) (v : A) (size head k n : ℕ)
      → ((j : ℕ) → k ≤ j → j < k + n → q ≢ at size head j)
      → slice (update f q v) size head k n ≡ slice f size head k n
  slice-update f q v size head k zero h = refl
  slice-update f q v size head k (suc n) h = rw (
    update_other,
    slice-update f q v size head (k + 1) n (λ j a b. h j (omega arith) (omega arith)),
  )
    where
      update_other : update f q v (at size head k) ≡ f (at size head k)
      update_other = update_ne f q v (at size head k) (h k (omega arith) (omega arith))

  -- The entry at the head leaves and its place is overwritten.
  pub slice-leave :
      (f : ℕ → A) (v : A) (size head n : ℕ)
      → head < size
      → n < size
      → slice f size head 0 (suc n) ≡ f head ∷ slice (update f head v) size (at size head 1) 0 n
  slice-leave f v size head n h b =
      ap (λ i. f i ∷ slice f size head 1 n) (at_zero size head h)
      ∙ ap (◌∷◌ (f head)) (
          sym (slice-shift f size head 0 n h (omega arith))
          ∙ sym (slice-update f head v size (at size head 1) 0 n apart))
    where
      apart : (j : ℕ) → 0 ≤ j → j < 0 + n → head ≢ at size (at size head 1) j
      apart j a c e =
          at_ne size head 0 (j + 1) h (omega arith) (omega arith)
            (at_zero size head h ∙ e ∙ at-at size head j h (omega arith))

  -- An entry is written behind the last one.
  pub slice-join :
      (f : ℕ → A) (v : A) (size head n : ℕ)
      → head < size
      → n < size
      → slice (update f (at size head n) v) size head 0 (suc n) ≡ slice f size head 0 n ++ (v ∷ [])
  slice-join f v size head n h b =
      slice-snoc g size head 0 n
      ∙ ap (λ x. slice g size head 0 n ++ (g (at size head x) ∷ [])) (omega arith)
      ∙ ap (λ l. l ++ (g (at size head n) ∷ []))
          (slice-update f (at size head n) v size head 0 n apart)
      ∙ ap (λ x. slice f size head 0 n ++ (x ∷ [])) (update_self f (at size head n) v)
    where
      g : ℕ → A
      g = update f (at size head n) v

      apart : (j : ℕ) → 0 ≤ j → j < 0 + n → at size head n ≢ at size head j
      apart j a c e = at_ne size head j n h (omega arith) b (sym e)
