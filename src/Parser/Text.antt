-- ===== src/Parser/Text.antt =====
-- The text of a request that src/request_parser.c accepts, put together from its parts again.
use concurrent_http_proxy_se.Base.{
  ℕ, ◌≡◌, refl, sym, ap, subst, ◌∙◌, inl, inr, ◌==◌, if◌then◌else◌, Bool, true, false, ◌&&◌, ◌||◌,
  Option, none, some, ◌>>=◌, some_injective, bind_then, if_some, [], ◌∷◌, ◌++◌, or_either, and_both,
  ==_iff,
}
use concurrent_http_proxy_se.Bytes.{Bytes}
use concurrent_http_proxy_se.Parser.{
  Request, copy_substring, split_at, find_line_end, parse_request_line, parse_absolute_url,
  skip_line_break, parse,
}
use concurrent_http_proxy_se.Parser.Url.{IsUrl, parse_absolute_url-IsUrl}
use concurrent_http_proxy_se.Parser.Parts.{copy_substring_lem, split_at_lem}

abbrev is_break : ℕ → Bool
is_break x = (x == 13) || (x == 10)

-- What follows a line begins with its break.
abbrev Breaks : Bytes → Type 0
Breaks a = (x : ℕ) × (xs : Bytes) × (a ≡ x ∷ xs) × (is_break x ≡ true)

line_step :
    (x : ℕ) (xs : Bytes) (found : Bool) (rest : Option (Bytes × Bytes)) (line after : Bytes)
    → is_break x ≡ found
    → ((l a : Bytes) → rest ≡ some (l, a) → (xs ≡ l ++ a) × Breaks a)
    → if◌then◌else◌ {A = Option (Bytes × Bytes)} found
        (some ([], x ∷ xs))
        (rest >>= λ r. some (x ∷ r.0, r.1))
      ≡ some (line, after)
    → (x ∷ xs ≡ line ++ after) × Breaks after
line_step x xs true rest line after t ih e =
    let p = some_injective e in
    (cc (ap (λ r. r.0) p, ap (λ r. r.1) p), (x, xs, sym (ap (λ r. r.1) p), t))
line_step x xs false none line after t ih e = absurd (cc e)
line_step x xs false (some (l, a)) line after t ih e =
    let p = some_injective e in
    let (whole, breaks) = ih l a refl in
    (cc (whole, ap (λ r. r.0) p, ap (λ r. r.1) p), subst Breaks (ap (λ r. r.1) p) breaks)

find_line_end_lem :
    (s line after : Bytes)
    → find_line_end s ≡ some (line, after)
    → (s ≡ line ++ after) × Breaks after
unfolding find_line_end
find_line_end_lem [] line after e = absurd (cc e)
find_line_end_lem (x ∷ xs) line after e =
    line_step x xs (is_break x) (find_line_end xs) line after refl (find_line_end_lem xs) e

-- CR LF, CR or LF.
pub data IsBreak : Bytes → Type 0 where
  cr_lf : IsBreak (13 ∷ 10 ∷ [])
  cr : IsBreak (13 ∷ [])
  lf : IsBreak (10 ∷ [])

-- One line break is taken off, and the rest is kept.
abbrev Skipped : Bytes → Bytes → Type 0
Skipped a rest = (brk : Bytes) × IsBreak brk × (a ≡ brk ++ rest)

lone-IsBreak : (x : ℕ) → is_break x ≡ true → IsBreak (x ∷ [])
lone-IsBreak x h = elim (or_either (x == 13) (x == 10) h) [
  | inl a ↦ subst (λ c. IsBreak (c ∷ [])) (sym ((==_iff x 13).0 a)) cr
  | inr b ↦ subst (λ c. IsBreak (c ∷ [])) (sym ((==_iff x 10).0 b)) lf
]

double-IsBreak : (x y : ℕ) → ((x == 13) && (y == 10)) ≡ true → IsBreak (x ∷ y ∷ [])
double-IsBreak x y h =
    let (a, b) = and_both (x == 13) (y == 10) h in
    subst IsBreak
      (ap (λ c. c ∷ 10 ∷ []) (sym ((==_iff x 13).0 a))
        ∙ ap (λ c. x ∷ c ∷ []) (sym ((==_iff y 10).0 b)))
      cr_lf

skip_step :
    (x y : ℕ) (xs : Bytes) (both one : Bool)
    → ((x == 13) && (y == 10)) ≡ both
    → is_break x ≡ one
    → one ≡ true
    → Skipped (x ∷ y ∷ xs) (if both then xs else if one then y ∷ xs else x ∷ y ∷ xs)
skip_step x y xs true one e f h = (x ∷ y ∷ [], double-IsBreak x y e, refl)
skip_step x y xs false true e f h = (x ∷ [], lone-IsBreak x f, refl)
skip_step x y xs false false e f h = absurd (cc h)

last_step :
    (x : ℕ) (one : Bool)
    → is_break x ≡ one
    → one ≡ true
    → Skipped (x ∷ []) (if one then [] else x ∷ [])
last_step x true f h = (x ∷ [], lone-IsBreak x f, refl)
last_step x false f h = absurd (cc h)

skip_line_break_lem :
    (x : ℕ) (xs : Bytes) → is_break x ≡ true → Skipped (x ∷ xs) (skip_line_break (x ∷ xs))
unfolding skip_line_break
skip_line_break_lem x [] h = last_step x (is_break x) refl h
skip_line_break_lem x (y ∷ xs) h =
    skip_step x y xs ((x == 13) && (y == 10)) (is_break x) refl refl h

parse_request_line_text :
    (line : Bytes) (l : Bytes × Bytes × Bytes)
    → parse_request_line line ≡ some l
    → line ≡ l.0 ++ (32 ∷ (l.1 ++ (32 ∷ l.2)))
unfolding parse_request_line
parse_request_line_text line l e = bind_then (split_at 32 line) _ e λ a first e1.
    bind_then (split_at 32 a.1) _ e1 λ b second e2.
      bind_then (copy_substring 8 a.0) _ e2 λ m copied e3.
        bind_then (copy_substring 16 b.1) _ e3 λ v kept e4.
          let (_, same) = if_some _ e4 in
          (split_at_lem 32 line a.0 a.1 first).0
          ∙ ap (λ r. a.0 ++ (32 ∷ r)) (split_at_lem 32 a.1 b.0 b.1 second).0
          ∙ ap (λ w. w ++ (32 ∷ (b.0 ++ (32 ∷ b.1)))) (copy_substring_lem 8 a.0 m copied).0
          ∙ ap (λ w. m ++ (32 ∷ (b.0 ++ (32 ∷ w)))) (copy_substring_lem 16 b.1 v kept).0
          ∙ ap (λ t. t.0 ++ (32 ∷ (t.1 ++ (32 ∷ t.2)))) same

-- The text of a request that is accepted: method, URL and version with a space between them, a line
-- break, and the header fields to the end of the text. The URL is `http://`, the host, the port and the
-- path to the end of the URL. The port may be missing, then it is 80, or it is a colon, white space, a
-- plus sign or none, and the decimal digits of the port. A path that is missing is `/`.
pub parse_keeps_text :
    (text : Bytes) (r : Request)
    → parse (some text) ≡ some r
    → (url brk : Bytes) × (text
        ≡ (r.method ++ (32 ∷ (url ++ (32 ∷ r.version)))) ++ (brk ++ r.raw_headers))
      × IsBreak brk
      × IsUrl url r.host r.port r.path
unfolding parse
parse_keeps_text text r e = bind_then (find_line_end text) _ e λ a found e1.
    bind_then (parse_request_line a.0) _ e1 λ l line e2.
      bind_then (parse_absolute_url l.1) _ e2 λ u url e3.
        bind_then (copy_substring 8192 (skip_line_break a.1)) _ e3 λ h copied e4.
          let (_, same) = if_some _ e4 in
          let (whole, (x, xs, begins, breaks)) = find_line_end_lem text a.0 a.1 found in
          let (brk, is, rest) =
            subst (λ c. Skipped c (skip_line_break c)) (sym begins)
              (skip_line_break_lem x xs breaks) in
          let (kept, _) = copy_substring_lem 8192 (skip_line_break a.1) h copied in
          subst (Parts text) same (
            l.1,
            brk,
            whole
                ∙ ap (λ w. w ++ a.1) (parse_request_line_text a.0 l line)
                ∙ ap (λ w. (l.0 ++ (32 ∷ (l.1 ++ (32 ∷ l.2)))) ++ w) (rest ∙ ap (◌++◌ brk) kept),
            is,
            parse_absolute_url-IsUrl l.1 u.0 u.1 u.2 url,
          )
  where
    Parts : Bytes → Request → Type 0
    Parts t q =
        (url brk : Bytes) × (t
          ≡ (q.method ++ (32 ∷ (url ++ (32 ∷ q.version)))) ++ (brk ++ q.raw_headers))
        × IsBreak brk
        × IsUrl url q.host q.port q.path
