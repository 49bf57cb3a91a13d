-- ===== src/Parser/Url.antt =====
-- The text of a URL that src/request_parser.c accepts, described without reference to the parser.
use concurrent_http_proxy_se.Base.{
  ℕ, ◌+◌, ◌-◌, ◌*◌, ◌≡◌, ◌≢◌, refl, sym, ap, ◌∙◌, subst, arith, ◌==◌, ==_iff, leb, length, drop,
  if◌then◌else◌, Bool, true, false, not, ◌&&◌, ◌||◌, Option, none, some, ◌>>=◌, some_injective,
  bind_then, if_some, if_not_some, and_both, [], ◌∷◌, ◌++◌, append-nil, append_assoc, All,
}
use concurrent_http_proxy_se.Bytes.{Bytes, codes}
use concurrent_http_proxy_se.Parser.{
  copy_substring, split_at, is_space, skip_space, is_digit, read_digits, read_number, read_sign,
  strtol, parse_port_value, starts_with, split_path, split_port, parse_absolute_url,
}
use concurrent_http_proxy_se.Parser.Parts.{copy_substring_lem, split_at_lem}

-- The number that decimal digits stand for, behind a number that stands before them.
abbrev pub number : ℕ → Bytes → ℕ
number n [] = n
number n (x ∷ xs) = number (n * 10 + (x - 48)) xs

pub data IsSign : Bytes → Type 0 where
  no_sign : IsSign []
  plus : IsSign (43 ∷ [])

-- The decimal digits of a number, with white space and a plus sign before them, if any.
pub record IsPortText (text : Bytes) (port : ℕ) : Type 0 where
  pub blanks : Bytes
  pub sign : Bytes
  pub digits : Bytes
  pub whole : text ≡ blanks ++ (sign ++ digits)
  pub are_blank : All (λ x. is_space x ≡ true) blanks
  pub is_sign : IsSign sign
  pub some_digits : digits ≢ []
  pub are_digits : All (λ x. is_digit x ≡ true) digits
  pub value : port ≡ number 0 digits

-- What follows the host: nothing for port 80, or a colon and a number.
pub data IsPort : Bytes → ℕ → Type 0 where
  default : IsPort [] 80
  given : {text : Bytes} {port : ℕ} → IsPortText text port → IsPort (58 ∷ text) port

-- The rest of the URL: nothing for the path `/`, or the path from its slash to the end.
pub data IsPath : Bytes → Bytes → Type 0 where
  root : IsPath [] (47 ∷ [])
  rooted : {rest : Bytes} → IsPath (47 ∷ rest) (47 ∷ rest)

abbrev pub IsUrl : Bytes → Bytes → ℕ → Bytes → Type 0
IsUrl url host port path =
    (port_text path_text : Bytes) × (url ≡ codes "http://" ++ (host ++ (port_text ++ path_text)))
    × IsPort port_text port
    × IsPath path_text path

starts_with_lem :
    (prefix s : Bytes) → starts_with prefix s ≡ true → s ≡ prefix ++ drop (length prefix) s
unfolding starts_with
starts_with_lem [] s h = refl
starts_with_lem (x ∷ prefix) [] h = absurd (cc h)
starts_with_lem (x ∷ prefix) (y ∷ s) h =
    let (same, more) = and_both (x == y) (starts_with prefix s) h in
    cc ((==_iff x y).0 same, starts_with_lem prefix s more)

skip_space_lem :
    (s : Bytes)
    → (blanks : Bytes) × (s ≡ blanks ++ skip_space s) × All (λ x. is_space x ≡ true) blanks
unfolding skip_space
skip_space_lem [] = ([], refl, tt)
skip_space_lem (x ∷ xs) = by_test (is_space x) refl (skip_space_lem xs)
  where
    by_test :
        (b : Bool)
        → is_space x ≡ b
        → (blanks : Bytes) × (xs ≡ blanks ++ skip_space xs) × All (λ x. is_space x ≡ true) blanks
        → (blanks : Bytes) × (x ∷ xs ≡ blanks ++ (if b then skip_space xs else x ∷ xs))
          × All (λ x. is_space x ≡ true) blanks
    by_test true e (blanks, whole, all) = (x ∷ blanks, ap (◌∷◌ x) whole, (e, all))
    by_test false e h = ([], refl, tt)

-- Without a minus, a plus or nothing stands before the rest.
read_sign_lem :
    (s : Bytes)
    → (read_sign s).0 ≡ false
    → (sign : Bytes) × IsSign sign × (s ≡ sign ++ (read_sign s).1)
unfolding read_sign
read_sign_lem [] h = ([], no_sign, refl)
read_sign_lem (x ∷ xs) h = by_tests (x == 45) (x == 43) refl h
  where
    taken : Bool → Bool → Bool × Bytes
    taken a b = if a then (true, xs) else if b then (false, xs) else (false, x ∷ xs)

    by_tests :
        (a b : Bool)
        → (x == 43) ≡ b
        → (taken a b).0 ≡ false
        → (sign : Bytes) × IsSign sign × (x ∷ xs ≡ sign ++ (taken a b).1)
    by_tests true b e h = absurd (cc h)
    by_tests false true e h = (43 ∷ [], plus, ap (λ c. c ∷ xs) ((==_iff x 43).0 e))
    by_tests false false e h = ([], no_sign, refl)

-- Digits to the end of the text.
read_digits_lem :
    (n : ℕ) (s : Bytes)
    → length (read_digits n s).1 ≡ 0
    → All (λ x. is_digit x ≡ true) s × ((read_digits n s).0 ≡ number n s)
unfolding read_digits
read_digits_lem n [] h = (tt, refl)
read_digits_lem n (x ∷ xs) h = by_test (is_digit x) refl h (read_digits_lem (n * 10 + (x - 48)) xs)
  where
    by_test :
        (b : Bool)
        → is_digit x ≡ b
        → length (if b then read_digits (n * 10 + (x - 48)) xs else (n, x ∷ xs)).1 ≡ 0
        → (length (read_digits (n * 10 + (x - 48)) xs).1 ≡ 0
            → All (λ x. is_digit x ≡ true) xs
              × ((read_digits (n * 10 + (x - 48)) xs).0 ≡ number (n * 10 + (x - 48)) xs))
        → All (λ x. is_digit x ≡ true) (x ∷ xs)
          × ((if b then read_digits (n * 10 + (x - 48)) xs else (n, x ∷ xs)).0
              ≡ number (n * 10 + (x - 48)) xs)
    by_test true e h ih = let (all, value) = ih h in ((e, all), value)
    by_test false e h ih = absurd (omega (arith, h))

read_number_lem :
    (s rest : Bytes) (n : ℕ)
    → read_number s ≡ some (n, rest)
    → length rest ≡ 0
    → (s ≢ []) × All (λ x. is_digit x ≡ true) s × (n ≡ number 0 s)
unfolding read_number
read_number_lem [] rest n e h = absurd (cc e)
read_number_lem (x ∷ xs) rest n e h =
    let (first, same) = if_some (is_digit x) e in
    let (all, value) = read_digits_lem 0 (x ∷ xs) (ap (λ r. length r.1) same ∙ h) in
    (λ f. absurd (cc f), all, sym (ap (λ r. r.0) same) ∙ value)

parse_port_value-IsPortText :
    (text : Bytes) (port : ℕ) → parse_port_value text ≡ some port → IsPortText text port
unfolding parse_port_value strtol
parse_port_value-IsPortText text port e = bind_then (copy_substring 16 text) _ e λ buffer copied e1.
    bind_then (strtol buffer) _ e1 λ r reads e2.
      bind_then (read_number (read_sign (skip_space buffer)).1) _ reads λ d numbered same_r.
        let (ok, same) = if_some _ e2 in
        let (rest, is_plus) = in_range (length r.2 == 0) (not r.0) (leb 1 r.1) (leb r.1 65535) ok in
        let parts = some_injective same_r in
        let (blanks, front, all_blank) = skip_space_lem buffer in
        let (sign, signed, behind) =
          read_sign_lem (skip_space buffer) (ap (λ q. q.0) parts ∙ positive r.0 is_plus) in
        let (filled, all, value) =
          read_number_lem _ d.1 d.0 numbered
            (ap (λ q. length q.2) parts ∙ (==_iff (length r.2) 0).0 rest) in
        record {
          blanks = blanks;
          sign = sign;
          digits = (read_sign (skip_space buffer)).1;
          whole = (copy_substring_lem 16 text buffer copied).0 ∙ front ∙ ap (◌++◌ blanks) behind;
          are_blank = all_blank;
          is_sign = signed;
          some_digits = filled;
          are_digits = all;
          value = sym same ∙ ap (λ q. q.1) (sym parts) ∙ value;
        }
  where
    in_range : (a b c d : Bool) → (a && b && c && d) ≡ true → (a ≡ true) × (b ≡ true)
    in_range true true c d h = (refl, refl)
    in_range true false c d h = absurd (cc h)
    in_range false b c d h = absurd (cc h)

    positive : (b : Bool) → not b ≡ true → b ≡ false
    positive true h = absurd (cc h)
    positive false h = refl

split_port-IsPort :
    (authority host : Bytes) (port : ℕ)
    → split_port authority ≡ some (host, port)
    → (text : Bytes) × (authority ≡ host ++ text) × IsPort text port
unfolding split_port
split_port-IsPort authority host port e = by_colon (split_at 58 authority) refl e
  where
    after_split : Option (Bytes × Bytes) → Option (Bytes × ℕ)
    after_split o = elim o [
      | none ↦ some (authority, 80)
      | some (name, text) ↦ parse_port_value text >>= λ p. some (name, p)
    ]

    by_colon :
        (o : Option (Bytes × Bytes))
        → split_at 58 authority ≡ o
        → after_split o ≡ some (host, port)
        → (text : Bytes) × (authority ≡ host ++ text) × IsPort text port
    by_colon none f e =
        let same = some_injective e in
        (
          [],
          ap (λ r. r.0) same ∙ sym (append-nil host),
          subst (IsPort []) (ap (λ r. r.1) same) default,
        )
    by_colon (some (name, text)) f e = bind_then (parse_port_value text) _ e λ p found e1.
        let same = some_injective e1 in
        (
          58 ∷ text,
          (split_at_lem 58 authority name text f).0 ∙ ap (λ r. r.0 ++ (58 ∷ text)) same,
          given (parse_port_value-IsPortText text port (found ∙ ap (λ r. some r.1) same)),
        )

split_path-IsPath :
    (s : Bytes) → (text : Bytes) × (s ≡ (split_path s).0 ++ text) × IsPath text (split_path s).1
unfolding split_path
split_path-IsPath s = by_slash (split_at 47 s) refl
  where
    parts : Option (Bytes × Bytes) → Bytes × Bytes
    parts o = elim o [ none ↦ (s, 47 ∷ []) | some (authority, rest) ↦ (authority, 47 ∷ rest) ]

    by_slash :
        (o : Option (Bytes × Bytes))
        → split_at 47 s ≡ o
        → (text : Bytes) × (s ≡ (parts o).0 ++ text) × IsPath text (parts o).1
    by_slash none e = ([], sym (append-nil s), root)
    by_slash (some (authority, rest)) e =
        (47 ∷ rest, (split_at_lem 47 s authority rest e).0, rooted)

pub parse_absolute_url-IsUrl :
    (url host : Bytes) (port : ℕ) (path : Bytes)
    → parse_absolute_url url ≡ some (host, port, path)
    → IsUrl url host port path
unfolding parse_absolute_url
parse_absolute_url-IsUrl url host port path e =
    let (tests, e0) = if_not_some _ e in
    let s = split_path (drop 7 url) in
    bind_then (copy_substring 2048 s.1) _ e0 λ p copied e1.
      bind_then (split_port s.0) _ e1 λ r split e2.
        bind_then (copy_substring 256 r.0) _ e2 λ h named e3.
          let (ok, same) = if_some _ e3 in
          let (path_text, front, is_path) = split_path-IsPath (drop 7 url) in
          let (port_text, authority, is_port) = split_port-IsPort s.0 r.0 r.1 split in
          let same_host = (copy_substring_lem 256 r.0 h named).0 ∙ ap (λ t. t.0) same in
          (
            port_text,
            path_text,
            starts_with_lem (codes "http://") url (scheme _ _ tests)
                ∙ ap (◌++◌ (codes "http://")) (
                    front
                    ∙ ap (λ a. a ++ path_text) (authority ∙ ap (λ n. n ++ port_text) same_host)
                    ∙ append_assoc host port_text path_text),
            subst (IsPort port_text) (ap (λ t. t.1) same) is_port,
            subst (IsPath path_text) ((copy_substring_lem 2048 s.1 p copied).0 ∙ ap (λ t. t.2) same)
                is_path,
          )
  where
    scheme : (a b : Bool) → (a || not b) ≡ false → b ≡ true
    scheme a true h = refl
    scheme true false h = absurd (cc h)
    scheme false false h = absurd (cc h)
