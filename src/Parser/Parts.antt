-- ===== src/Parser/Parts.antt =====
-- What it means that a step of src/request_parser.c succeeds.
use concurrent_http_proxy_se.Base.{
  ℕ, ◌≤◌, ◌<◌, ◌≡◌, refl, sym, ap, ◌∙◌, arith, inl, inr, Option-cases, subst, mem-append, ◌==◌, ltb,
  leb, ltb→lt, length, drop, mem, if◌then◌else◌, Bool, true, false, not, ◌&&◌, Option, none, some,
  ◌>>=◌, some_injective, bind_then, if_some, if_not_some, [], ◌∷◌, ◌++◌,
}
use concurrent_http_proxy_se.Bytes.{Bytes}
use concurrent_http_proxy_se.Parser.{
  copy_substring, split_at, strtol, parse_port_value, split_path, split_port, parse_absolute_url,
}

pub copy_substring_lem :
    (size : ℕ) (part copy : Bytes)
    → copy_substring size part ≡ some copy
    → (part ≡ copy) × (length copy < size)
unfolding copy_substring
copy_substring_lem size part copy e =
    let (fits, same) = if_some (ltb (length part) size) e in
    (same, ground (arith, ltb→lt (length part) size fits, same))

-- How `split_at` goes on at a byte.
abbrev at_byte : ℕ → Bytes → Bool → Option (Bytes × Bytes) → Option (Bytes × Bytes)
at_byte x xs found rest = if found then some ([], xs) else (rest >>= λ r. some (x ∷ r.0, r.1))

split_step :
    (ch x : ℕ) (xs : Bytes) (found : Bool) (rest : Option (Bytes × Bytes)) (before after : Bytes)
    → (x == ch) ≡ found
    → ((b a : Bytes) → rest ≡ some (b, a) → (xs ≡ b ++ (ch ∷ a)) × (mem ch b ≡ false))
    → at_byte x xs found rest ≡ some (before, after)
    → (x ∷ xs ≡ before ++ (ch ∷ after)) × (mem ch before ≡ false)
split_step ch x xs true rest before after t ih e =
    let p = some_injective e in ground (arith, t, ap (λ r. r.0) p, ap (λ r. r.1) p)
split_step ch x xs false none before after t ih e = absurd (cc e)
split_step ch x xs false (some (b, a)) before after t ih e =
    let p = some_injective e in ground (arith, t, ap (λ r. r.0) p, ap (λ r. r.1) p, ih b a refl)

-- `memchr` finds the first occurrence.
pub split_at_lem :
    (ch : ℕ) (s before after : Bytes)
    → split_at ch s ≡ some (before, after)
    → (s ≡ before ++ (ch ∷ after)) × (mem ch before ≡ false)
unfolding split_at
split_at_lem ch [] before after e = absurd (cc e)
split_at_lem ch (x ∷ xs) before after e =
    split_step ch x xs (x == ch) (split_at ch xs) before after refl (split_at_lem ch xs) e

none_step :
    (ch x : ℕ) (xs : Bytes) (found : Bool) (rest : Option (Bytes × Bytes))
    → (x == ch) ≡ found
    → (rest ≡ none → mem ch xs ≡ false)
    → at_byte x xs found rest ≡ none
    → mem ch (x ∷ xs) ≡ false
none_step ch x xs true rest t ih e = absurd (cc e)
none_step ch x xs false none t ih e = ground (arith, t, ih refl)
none_step ch x xs false (some r) t ih e = absurd (cc e)

-- It finds nothing when there is none.
pub split_at-none : (ch : ℕ) (s : Bytes) → split_at ch s ≡ none → mem ch s ≡ false
unfolding split_at
split_at-none ch [] e = refl
split_at-none ch (x ∷ xs) e =
    none_step ch x xs (x == ch) (split_at ch xs) refl (split_at-none ch xs) e

-- An authority has no slash, and the path begins with one.
pub split_path_lem :
    (s : Bytes)
    → (mem 47 (split_path s).0 ≡ false) × ((rest : Bytes) × ((split_path s).1 ≡ 47 ∷ rest))
unfolding split_path
split_path_lem s = by_slash (split_at 47 s) refl
  where
    parts : Option (Bytes × Bytes) → Bytes × Bytes
    parts o = elim o [ none ↦ (s, 47 ∷ []) | some (authority, rest) ↦ (authority, 47 ∷ rest) ]

    by_slash :
        (o : Option (Bytes × Bytes))
        → split_at 47 s ≡ o
        → (mem 47 (parts o).0 ≡ false) × ((rest : Bytes) × ((parts o).1 ≡ 47 ∷ rest))
    by_slash none e = (split_at-none 47 s e, ([], refl))
    by_slash (some (authority, rest)) e = ((split_at_lem 47 s authority rest e).1, (rest, refl))

pub parse_port_value_lem :
    (text : Bytes) (port : ℕ) → parse_port_value text ≡ some port → (1 ≤ port) × (port ≤ 65535)
unfolding parse_port_value
parse_port_value_lem text port e = bind_then (copy_substring 16 text) _ e λ buffer _ e1.
    bind_then (strtol buffer) _ e1 λ r _ e2.
      let (ok, same) = if_some _ e2 in in_range (length r.2 == 0) (not r.0) r.1 port ok same
  where
    in_range :
        (a b : Bool) (n m : ℕ)
        → (a && b && leb 1 n && leb n 65535) ≡ true
        → n ≡ m
        → (1 ≤ m) × (m ≤ 65535)
    in_range a b n m h e = ground arith

-- A host of an authority without slash has neither slash nor colon, and its port is in range.
pub split_port_lem :
    (authority host : Bytes) (port : ℕ)
    → split_port authority ≡ some (host, port)
    → mem 47 authority ≡ false
    → (mem 58 host ≡ false) × (mem 47 host ≡ false) × (1 ≤ port) × (port ≤ 65535)
unfolding split_port
split_port_lem authority host port e no_slash = elim (Option-cases (split_at 58 authority)) [
  | inl n ↦ plain n (some_injective (sym (ap after_split n) ∙ e))
  | inr ((name, text), f) ↦
      bind_then (parse_port_value text) _ (sym (ap after_split f) ∙ e)
        λ p found e1. numbered name text p f found (some_injective e1)
]
  where
    after_split : Option (Bytes × Bytes) → Option (Bytes × ℕ)
    after_split o = elim o [
      | none ↦ some (authority, 80)
      | some (name, text) ↦ parse_port_value text >>= λ p. some (name, p)
    ]

    Good : Bytes → ℕ → Type 0
    Good h p = (mem 58 h ≡ false) × (mem 47 h ≡ false) × (1 ≤ p) × (p ≤ 65535)

    plain :
        split_at 58 authority ≡ none
        → ◌≡◌ {A = Bytes × ℕ} (authority, 80) (host, port)
        → Good host port
    plain n same =
        subst (λ r. Good r.0 r.1) same
          (split_at-none 58 authority n, no_slash, omega arith, omega arith)

    numbered :
        (name text : Bytes) (p : ℕ)
        → split_at 58 authority ≡ some (name, text)
        → parse_port_value text ≡ some p
        → ◌≡◌ {A = Bytes × ℕ} (name, p) (host, port)
        → Good host port
    numbered name text p f found same =
        let (whole, no_colon) = split_at_lem 58 authority name text f in
        subst (λ r. Good r.0 r.1) same
          (
            no_colon,
            ground (arith, ap (mem 47) whole, no_slash, mem-append 47 name (58 ∷ text)),
            (parse_port_value_lem text p found).0,
            (parse_port_value_lem text p found).1,
          )

-- The parts of a URL that is accepted.
pub record IsTarget (host : Bytes) (port : ℕ) (path : Bytes) : Type 0 where
  pub host_filled : 0 < length host
  pub host_fits : length host < 256
  pub no_colon : mem 58 host ≡ false
  pub no_slash : mem 47 host ≡ false
  pub port_from : 1 ≤ port
  pub port_to : port ≤ 65535
  pub rooted : (rest : Bytes) × (path ≡ 47 ∷ rest)
  pub path_fits : length path < 2048

pub parse_absolute_url-IsTarget :
    (url host : Bytes) (port : ℕ) (path : Bytes)
    → parse_absolute_url url ≡ some (host, port, path)
    → IsTarget host port path
unfolding parse_absolute_url
parse_absolute_url-IsTarget url host port path e =
    let s = split_path (drop 7 url) in
    bind_then (copy_substring 2048 s.1) _ (if_not_some _ e).1 λ p copied e1.
      bind_then (split_port s.0) _ e1 λ r split e2.
        bind_then (copy_substring 256 r.0) _ e2 λ h named e3.
          let (ok, same) = if_some (ltb 0 (length h)) e3 in
          subst (λ t. IsTarget t.0 t.1 t.2) same
            (target s p r.0 h r.1 (split_path_lem (drop 7 url)) copied split named ok)
  where
    target :
        (s : Bytes × Bytes) (p name h : Bytes) (n : ℕ)
        → (mem 47 s.0 ≡ false) × ((rest : Bytes) × (s.1 ≡ 47 ∷ rest))
        → copy_substring 2048 s.1 ≡ some p
        → split_port s.0 ≡ some (name, n)
        → copy_substring 256 name ≡ some h
        → ltb 0 (length h) ≡ true
        → IsTarget h n p
    target s p name h n (clean, (rest, begins)) copied split named filled =
        let (same_path, path_small) = copy_substring_lem 2048 s.1 p copied in
        let (same_host, host_small) = copy_substring_lem 256 name h named in
        let (colon, slash, from, to) = split_port_lem s.0 name n split clean in
        record {
          host_filled = ltb→lt 0 (length h) filled;
          host_fits = host_small;
          no_colon = ap (mem 58) (sym same_host) ∙ colon;
          no_slash = ap (mem 47) (sym same_host) ∙ slash;
          port_from = from;
          port_to = to;
          rooted = (rest, sym same_path ∙ begins);
          path_fits = path_small;
        }
