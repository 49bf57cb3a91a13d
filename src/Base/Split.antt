-- ===== src/Base/Split.antt =====
-- Lists cut at the first or at the last occurrence of a number, and what a common front determines.
use Prim.Native.Nat.{ℕ}
use mathlib.Core.Path.{◌≡◌, refl, ap}
use mathlib.Core.Bool.{false}
use mathlib.Core.List.{List, [], ◌∷◌, ◌++◌}
use native.Mathlib.Omega.{arith}
use concurrent_http_proxy_se.Base.Pointers.{mem, mem-append}

first_or : ℕ → List ℕ → ℕ
first_or d [] = d
first_or d (x ∷ xs) = x

rest_of : List ℕ → List ℕ
rest_of [] = []
rest_of (x ∷ xs) = xs

pub cons_injective : {x y : ℕ} {xs ys : List ℕ} → x ∷ xs ≡ y ∷ ys → (x ≡ y) × (xs ≡ ys)
unfolding first_or rest_of
cons_injective {x} e = (ap (first_or x) e, ap rest_of e)

pub append_cancel : (xs : List ℕ) {ys zs : List ℕ} → xs ++ ys ≡ xs ++ zs → ys ≡ zs
append_cancel [] e = e
append_cancel (x ∷ xs) e = append_cancel xs (cons_injective e).1

-- Without `c` in front of it, the first `c` stands at one place.
pub first_split :
    (c : ℕ) (xs xs' ys ys' : List ℕ)
    → mem c xs ≡ false
    → mem c xs' ≡ false
    → xs ++ (c ∷ ys) ≡ xs' ++ (c ∷ ys')
    → (xs ≡ xs') × (ys ≡ ys')
first_split c [] [] ys ys' h h' e = (refl, (cons_injective e).1)
first_split c [] (x ∷ xs') ys ys' h h' e = absurd (ground (arith, (cons_injective e).0, h'))
first_split c (x ∷ xs) [] ys ys' h h' e = absurd (ground (arith, (cons_injective e).0, h))
first_split c (x ∷ xs) (x' ∷ xs') ys ys' h h' e =
    let (same, tails) = cons_injective e in
    let (a, b) = first_split c xs xs' ys ys' (ground (arith, h)) (ground (arith, h')) tails in
    (cc (same, a), b)

-- Without `c` behind it, the last `c` stands at one place.
pub last_split :
    (c : ℕ) (xs xs' ys ys' : List ℕ)
    → mem c ys ≡ false
    → mem c ys' ≡ false
    → xs ++ (c ∷ ys) ≡ xs' ++ (c ∷ ys')
    → (xs ≡ xs') × (ys ≡ ys')
last_split c [] [] ys ys' h h' e = (refl, (cons_injective e).1)
last_split c [] (x ∷ xs') ys ys' h h' e =
    absurd (ground (arith, ap (mem c) (cons_injective e).1, mem-append c xs' (c ∷ ys'), h))
last_split c (x ∷ xs) [] ys ys' h h' e =
    absurd (ground (arith, ap (mem c) (cons_injective e).1, mem-append c xs (c ∷ ys), h'))
last_split c (x ∷ xs) (x' ∷ xs') ys ys' h h' e =
    let (same, tails) = cons_injective e in
    let (a, b) = last_split c xs xs' ys ys' h h' tails in (cc (same, a), b)
