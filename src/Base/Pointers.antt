-- ===== src/Base/Pointers.antt =====
-- Pointers: NULL is `none`. One field of all the structs in memory is a function from addresses,
-- and a write to it is `update`. Lists of addresses without repetition.
use mathlib.Core.Path.{◌≡◌, refl, sym, ap}
use Prim.Native.Nat.{ℕ}
use mathlib.Core.Logic.{◌≢◌, ◌⊎◌, inl, inr}
use mathlib.Core.Bool.{Bool, true, false, not, ◌&&◌, ◌||◌}
use mathlib.Core.Option.{Option, none, some}
use mathlib.Core.List.{List, [], ◌∷◌, ◌++◌}
use native.Mathlib.Omega.{arith}
use concurrent_http_proxy_se.Base.Tests.{◌==◌, ==_iff, if◌then◌else◌, Bool-cases}

abbrev pub Ptr : Type 0
Ptr = Option ℕ

abbrev pub ptr_eq : Ptr → Ptr → Bool
ptr_eq none none = true
ptr_eq none (some q) = false
ptr_eq (some p) none = false
ptr_eq (some p) (some q) = p == q

abbrev pub update {ℓ} : {A : Type ℓ} → (ℕ → A) → ℕ → A → ℕ → A
update f p v q = if p == q then v else f q

abbrev pub NotIn : ℕ → List ℕ → Type 0
NotIn p [] = Unit
NotIn p (x ∷ xs) = (p ≢ x) × NotIn p xs

abbrev pub Nodup : List ℕ → Type 0
Nodup [] = Unit
Nodup (x ∷ xs) = NotIn x xs × Nodup xs

pub NotIn-append : (p : ℕ) (xs ys : List ℕ) → NotIn p xs → NotIn p ys → NotIn p (xs ++ ys)
NotIn-append p [] ys hx hy = hy
NotIn-append p (x ∷ xs) ys hx hy = (hx.0, NotIn-append p xs ys hx.1 hy)

pub NotIn-left : (p : ℕ) (xs ys : List ℕ) → NotIn p (xs ++ ys) → NotIn p xs
NotIn-left p [] ys h = tt
NotIn-left p (x ∷ xs) ys h = (h.0, NotIn-left p xs ys h.1)

pub NotIn-right : (p : ℕ) (xs ys : List ℕ) → NotIn p (xs ++ ys) → NotIn p ys
NotIn-right p [] ys h = h
NotIn-right p (x ∷ xs) ys h = NotIn-right p xs ys h.1

-- Whether the address is on the list.
abbrev pub mem : ℕ → List ℕ → Bool
mem p [] = false
mem p (x ∷ xs) = (p == x) || mem p xs

pub mem-append : (p : ℕ) (xs ys : List ℕ) → mem p (xs ++ ys) ≡ (mem p xs || mem p ys)
mem-append p [] ys = refl
mem-append p (x ∷ xs) ys = ground (arith, mem-append p xs ys)

pub NotIn→mem : (p : ℕ) (l : List ℕ) → NotIn p l → mem p l ≡ false
NotIn→mem p [] h = refl
NotIn→mem p (x ∷ xs) h = ground (arith, NotIn→mem p xs h.1)

pub mem→NotIn : (p : ℕ) (l : List ℕ) → mem p l ≡ false → NotIn p l
mem→NotIn p [] h = tt
mem→NotIn p (x ∷ xs) h = (ground arith, mem→NotIn p xs (ground arith))

-- An address on a list splits it.
pub mem_split :
    (p : ℕ) (l : List ℕ) → mem p l ≡ true → (xs : List ℕ) × (ys : List ℕ) × (l ≡ xs ++ p ∷ ys)
mem_split p [] h = absurd (cc)
mem_split p (x ∷ l) h = elim (Bool-cases (p == x)) [
  | inl e ↦ ([], l, ap (λ t. t ∷ l) (sym ((==_iff p x).0 e)))
  | inr ne ↦ let (xs, ys, is) = mem_split p l (ground arith) in (x ∷ xs, ys, ap (λ t. x ∷ t) is)
]

pub Nodup-left : (xs ys : List ℕ) → Nodup (xs ++ ys) → Nodup xs
Nodup-left [] ys h = tt
Nodup-left (x ∷ xs) ys h = (NotIn-left x xs ys h.0, Nodup-left xs ys h.1)

pub Nodup-right : (xs ys : List ℕ) → Nodup (xs ++ ys) → Nodup ys
Nodup-right [] ys h = h
Nodup-right (x ∷ xs) ys h = Nodup-right xs ys h.1

-- An entry in the middle is in neither part, and may be taken out.
pub Nodup-mid :
    (xs : List ℕ) (p : ℕ) (ys : List ℕ)
    → Nodup (xs ++ p ∷ ys)
    → NotIn p xs × NotIn p ys × Nodup (xs ++ ys)
Nodup-mid [] p ys h = (tt, h.0, h.1)
Nodup-mid (x ∷ xs) p ys h =
    let (a, b, c) = Nodup-mid xs p ys h.1 in
    let k = NotIn-right x xs (p ∷ ys) h.0 in
    ((λ e. k.0 (sym e), a), b, (NotIn-append x xs ys (NotIn-left x xs (p ∷ ys) h.0) k.1, c))

-- What is left when the address in the middle is taken out.
pub mem-mid :
    (q : ℕ) (xs : List ℕ) (p : ℕ) (ys : List ℕ)
    → Nodup (xs ++ p ∷ ys)
    → mem q (xs ++ ys) ≡ (mem q (xs ++ p ∷ ys) && not (q == p))
mem-mid q xs p ys nd =
    let (out_xs, out_ys, _) = Nodup-mid xs p ys nd in
    ground (
      arith,
      mem-append q xs ys,
      mem-append q xs (p ∷ ys),
      NotIn→mem p xs out_xs,
      NotIn→mem p ys out_ys,
    )

-- Every list is empty or ends in an entry.
pub snoc_cases : (l : List ℕ) → (l ≡ []) ⊎ ((xs : List ℕ) × (z : ℕ) × (l ≡ xs ++ z ∷ []))
snoc_cases [] = inl refl
snoc_cases (x ∷ l) = elim (snoc_cases l) [
  | inl e ↦ inr ([], x, ap (λ t. x ∷ t) e)
  | inr (xs, z, e) ↦ inr (x ∷ xs, z, ap (λ t. x ∷ t) e)
]

pub update_ne {ℓ} : {A : Type ℓ} (f : ℕ → A) (p : ℕ) (v : A) (q : ℕ) → p ≢ q → update f p v q ≡ f q
update_ne f p v q h = ground arith

pub update_self {ℓ} : {A : Type ℓ} (f : ℕ → A) (p : ℕ) (v : A) → update f p v p ≡ v
update_self f p v = ground arith
