-- ===== src/Decimal.antt =====
-- The decimal numbers that `snprintf` prints for `%d`, `%u` and `%lu` of a number that is not
-- negative.
use concurrent_http_proxy_se.Base.{
  ℕ, zero, suc, ◌+◌, ◌-◌, ◌*◌, ◌/◌, ◌%◌, ◌≤◌, ◌<◌, ◌≡◌, refl, sym, ap, ◌∙◌, arith, ◌==◌, true,
  false, [], ◌∷◌, length, mem, ==_iff,
}
use concurrent_http_proxy_se.Bytes.{Bytes}

-- The digits of `n` in front of `out`, with fuel.
unfoldable pub digits : ℕ → ℕ → Bytes → Bytes
digits zero n out = out
digits (suc fuel) n out = elim (n == 0) [
  | true ↦ out
  | false ↦ digits fuel (n / 10) ((48 + n % 10) ∷ out)
]

unfoldable pub decimal : ℕ → Bytes
decimal n = elim (n == 0) [ true ↦ 48 ∷ [] | false ↦ digits n n [] ]

-- The number that digits spell behind `n`.
abbrev pub value : ℕ → Bytes → ℕ
value n [] = n
value n (c ∷ s) = value (n * 10 + (c - 48)) s

value-digits : (fuel n : ℕ) (out : Bytes) → n ≤ fuel → value 0 (digits fuel n out) ≡ value n out
unfolding digits
value-digits zero n out h = ap (λ m. value m out) (omega (arith, h))
value-digits (suc fuel) n out h =
    elim (n == 0)
        as (λ b.
          (n == 0) ≡ b
          → value 0 (elim b [ true ↦ out | false ↦ digits fuel (n / 10) ((48 + n % 10) ∷ out) ])
            ≡ value n out) [
              | true ↦ λ e. ap (λ m. value m out) (sym ((==_iff n 0).0 e))
              | false ↦ λ e.
                  value-digits fuel (n / 10) ((48 + n % 10) ∷ out) (ground (arith, e))
                  ∙ ap (λ m. value m out) (omega arith)
            ]
      refl

-- The number is read back from its digits.
pub value-decimal : (n : ℕ) → value 0 (decimal n) ≡ n
unfolding decimal
value-decimal n =
    elim (n == 0)
        as (λ b. (n == 0) ≡ b → value 0 (elim b [ true ↦ 48 ∷ [] | false ↦ digits n n [] ]) ≡ n) [
          | true ↦ λ e. sym ((==_iff n 0).0 e)
          | false ↦ λ e. value-digits n n [] (omega arith)
        ]
      refl

pub decimal_injective : (m n : ℕ) → decimal m ≡ decimal n → m ≡ n
decimal_injective m n e = sym (value-decimal m) ∙ ap (value 0) e ∙ value-decimal n

-- A byte that is no digit.
abbrev pub NoDigit : ℕ → Type 0
NoDigit c = (d : ℕ) → d < 10 → (c == (48 + d)) ≡ false

mem-digits : (c fuel n : ℕ) (out : Bytes) → NoDigit c → mem c (digits fuel n out) ≡ mem c out
unfolding digits
mem-digits c zero n out h = refl
mem-digits c (suc fuel) n out h =
    elim (n == 0)
      as (λ b.
        mem c (elim b [ true ↦ out | false ↦ digits fuel (n / 10) ((48 + n % 10) ∷ out) ])
        ≡ mem c out) [
          | true ↦ refl
          | false ↦
              mem-digits c fuel (n / 10) ((48 + n % 10) ∷ out) h
              ∙ ground (arith, h (n % 10) (omega arith))
        ]

-- Nothing but digits is printed.
pub mem-decimal : (c n : ℕ) → NoDigit c → mem c (decimal n) ≡ false
unfolding decimal
mem-decimal c n h =
    elim (n == 0) as (λ b. mem c (elim b [ true ↦ 48 ∷ [] | false ↦ digits n n [] ]) ≡ false) [
      | true ↦ ground (arith, h 0 (omega arith))
      | false ↦ mem-digits c n n [] h
    ]

abbrev pub power : ℕ → ℕ
power zero = 1
power (suc k) = 10 * power k

length-digits :
    (k fuel n : ℕ) (out : Bytes) → n < power k → length (digits fuel n out) ≤ k + length out
unfolding digits
length-digits k zero n out h = omega arith
length-digits zero (suc fuel) n out h =
    elim (n == 0)
        as (λ b.
          (n == 0) ≡ b
          → length (elim b [ true ↦ out | false ↦ digits fuel (n / 10) ((48 + n % 10) ∷ out) ])
            ≤ 0 + length out) [
              | true ↦ λ e. omega arith
              | false ↦ λ e. absurd (ground (arith, e, h))
            ]
      refl
length-digits (suc k) (suc fuel) n out h =
    elim (n == 0)
      as (λ b.
        length (elim b [ true ↦ out | false ↦ digits fuel (n / 10) ((48 + n % 10) ∷ out) ])
        ≤ suc k + length out) [
          | true ↦ omega arith
          | false ↦
              omega (arith, length-digits k fuel (n / 10) ((48 + n % 10) ∷ out) (omega (arith, h)))
        ]

-- A number below 10 ^ (k + 1) has at most k + 1 digits.
pub length-decimal : (k n : ℕ) → n < power (suc k) → length (decimal n) ≤ suc k
unfolding decimal
length-decimal k n h =
    elim (n == 0) as (λ b. length (elim b [ true ↦ 48 ∷ [] | false ↦ digits n n [] ]) ≤ suc k) [
      | true ↦ omega arith
      | false ↦ omega (arith, length-digits (suc k) n n [] h)
    ]
