-- ===== src/Logger/Names.antt =====
-- Which texts are names of levels.
use concurrent_http_proxy_se.Base.{
  ℕ, ◌≡◌, ◌≢◌, ◌↔◌, refl, sym, ◌∙◌, arith, ◌==◌, if◌then◌else◌, Bool, true, false, Bool-cases, inl,
  inr, Option, none, some, [], ◌∷◌, map, cons_injective,
}
use concurrent_http_proxy_se.Bytes.{Bytes, codes}
use concurrent_http_proxy_se.Logger.{
  Level, debug, info, warn, error, to_lower, string_equals_ignore_case, name_in, level_to_string,
  level_in, parse_level,
}

both_lem : (a b : ℕ) (r : Bool) → ((if a == b then r else false) ≡ true) ↔ ((a ≡ b) × (r ≡ true))
both_lem a b r = (λ e. (ground (arith, e), ground (arith, e)), λ e. ground (arith, e.0, e.1))

string_equals_ignore_case_lem :
    (v w : Bytes) → (string_equals_ignore_case v w ≡ true) ↔ (map to_lower v ≡ map to_lower w)
unfolding string_equals_ignore_case
string_equals_ignore_case_lem [] [] = (λ e. refl, λ e. refl)
string_equals_ignore_case_lem [] (y ∷ ys) = (λ e. absurd (cc e), λ e. absurd (cc e))
string_equals_ignore_case_lem (x ∷ xs) [] = (λ e. absurd (cc e), λ e. absurd (cc e))
string_equals_ignore_case_lem (x ∷ xs) (y ∷ ys) =
    let (forth, back) = both_lem (to_lower x) (to_lower y) (string_equals_ignore_case xs ys) in
    let (same, equal) = string_equals_ignore_case_lem xs ys in
    (
      λ e. cc ((forth e).0, same (forth e).1),
      λ e. back ((cons_injective e).0, equal (cons_injective e).1),
    )

-- A text is no other name than the one it is.
no_other :
    (v w u : Bytes)
    → map to_lower v ≡ map to_lower w
    → map to_lower w ≢ map to_lower u
    → string_equals_ignore_case v u ≡ false
no_other v w u e apart = elim (Bool-cases (string_equals_ignore_case v u)) [
  | inl same ↦ absurd (apart (sym e ∙ (string_equals_ignore_case_lem v u).0 same))
  | inr other ↦ other
]

-- The test of one level among those of all.
test_of : Level → (a b c d : Bool) → Bool
test_of debug a b c d = a
test_of info a b c d = b
test_of warn a b c d = c
test_of error a b c d = d

first_level : (a b c d : Bool) → Option Level
first_level a b c d =
    if a
    then some debug
    else if b
    then some info
    else if c
    then some warn
    else if d
    then some error
    else none

first_level_lem :
    (a b c d : Bool) (l : Level) → first_level a b c d ≡ some l → test_of l a b c d ≡ true
unfolding first_level test_of
first_level_lem a b c d debug e = ground (arith, e)
first_level_lem a b c d info e = ground (arith, e)
first_level_lem a b c d warn e = ground (arith, e)
first_level_lem a b c d error e = ground (arith, e)

module _ (value : Bytes) where
  is : Bytes → Bool
  is name = string_equals_ignore_case value name

  tests_lem :
      (l : Level)
      → test_of l (is (codes "DEBUG")) (is (codes "INFO")) (is (codes "WARN")) (is (codes "ERROR"))
        ≡ true
      → map to_lower value ≡ map to_lower (level_to_string l)
  unfolding test_of is level_to_string name_in
  tests_lem debug e = (string_equals_ignore_case_lem value (codes "DEBUG")).0 e
  tests_lem info e = (string_equals_ignore_case_lem value (codes "INFO")).0 e
  tests_lem warn e = (string_equals_ignore_case_lem value (codes "WARN")).0 e
  tests_lem error e = (string_equals_ignore_case_lem value (codes "ERROR")).0 e

  named :
      (l : Level)
      → map to_lower value ≡ map to_lower (level_to_string l)
      → parse_level value ≡ some l
  unfolding parse_level level_in level_to_string name_in
  named debug e = rw ((string_equals_ignore_case_lem value (codes "DEBUG")).1 e) refl
  named info e =
      rw
        (
          no_other value (codes "INFO") (codes "DEBUG") e λ h. omega (arith, (cons_injective h).0),
          (string_equals_ignore_case_lem value (codes "INFO")).1 e,
        )
        refl
  named warn e =
      rw
        (
          no_other value (codes "WARN") (codes "DEBUG") e λ h. omega (arith, (cons_injective h).0),
          no_other value (codes "WARN") (codes "INFO") e λ h. omega (arith, (cons_injective h).0),
          (string_equals_ignore_case_lem value (codes "WARN")).1 e,
        )
        refl
  named error e =
      rw
        (
          no_other value (codes "ERROR") (codes "DEBUG") e λ h. omega (arith, (cons_injective h).0),
          no_other value (codes "ERROR") (codes "INFO") e λ h. omega (arith, (cons_injective h).0),
          no_other value (codes "ERROR") (codes "WARN") e λ h. omega (arith, (cons_injective h).0),
          (string_equals_ignore_case_lem value (codes "ERROR")).1 e,
        )
        refl

-- logger_parse_level reads a text as a level exactly when the text is the level's name, upper and
-- lower case aside. So it reads back what logger_level_to_string prints.
pub parse_level_iff :
    (value : Bytes) (level : Level)
    → (parse_level value ≡ some level) ↔ (map to_lower value ≡ map to_lower (level_to_string level))
unfolding parse_level level_in is first_level
parse_level_iff value level =
    (λ e. tests_lem value level (first_level_lem _ _ _ _ level e), named value level)
