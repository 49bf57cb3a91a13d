-- ===== src/Forwarder/Headers.antt =====
-- Which header fields `append_filtered_headers` of src/response_forwarder.c copies.
use concurrent_http_proxy_se.Base.{
  ℕ, zero, suc, ◌+◌, ◌≤◌, ◌<◌, ◌≡◌, refl, ap, ◌∙◌, arith, ◌==◌, ltb, if◌then◌else◌, Bool, true,
  false, ◌&&◌, Option, none, some, ◌>>=◌, List, [], ◌∷◌, ◌++◌, append_assoc, append-nil, length,
  length-append,
}
use concurrent_http_proxy_se.Bytes.{Bytes}
use concurrent_http_proxy_se.Forwarder.Fields.{
  IsKept, nothing, keeps, leaves_out, IsHeader, at_end, should_skip_iff, first-IsHeader,
}
use concurrent_http_proxy_se.Forwarder.{
  should_skip, split_line, line_break, append_text, append_line, append_headers,
  append_filtered_headers,
}

-- The lines of a header block up to the first empty one, with fuel.
unfoldable pub header_lines_from : ℕ → Bytes → List Bytes
header_lines_from fuel [] = []
header_lines_from zero (x ∷ xs) = []
header_lines_from (suc fuel) (x ∷ xs) =
    let (line, rest) = split_line (x ∷ xs) in
    elim (length line == 0) [
      | true ↦ []
      | false ↦ line ∷ elim rest [ none ↦ [] | some more ↦ header_lines_from fuel more ]
    ]

unfoldable pub header_lines : Bytes → List Bytes
header_lines raw = header_lines_from (length raw) raw

-- The lines without those that the proxy replaces.
unfoldable pub kept : List Bytes → List Bytes
kept [] = []
kept (line ∷ lines) = let rest = kept lines in if should_skip line then rest else line ∷ rest

-- The lines, each with its break.
unfoldable pub print_lines : List Bytes → Bytes
print_lines [] = []
print_lines (line ∷ lines) = (line ++ line_break) ++ print_lines lines

pub kept-IsKept : (lines : List Bytes) → IsKept lines (kept lines)
unfolding kept
kept-IsKept [] = nothing
kept-IsKept (line ∷ lines) = by_test (should_skip line) refl (kept-IsKept lines)
  where
    by_test :
        (b : Bool)
        → should_skip line ≡ b
        → IsKept lines (kept lines)
        → IsKept (line ∷ lines) (if b then kept lines else line ∷ kept lines)
    by_test true e h = leaves_out ((should_skip_iff line).0 e) h
    by_test false e h = keeps (λ r. cc (e, (should_skip_iff line).1 r)) h

header_lines_from-IsHeader :
    (fuel : ℕ) (raw : Bytes) → length raw ≤ fuel → IsHeader raw (header_lines_from fuel raw)
unfolding header_lines_from
header_lines_from-IsHeader fuel [] h = at_end
header_lines_from-IsHeader zero (x ∷ xs) h = absurd (omega (arith, h))
header_lines_from-IsHeader (suc fuel) (x ∷ xs) h =
    first-IsHeader x xs (header_lines_from fuel)
      λ more m. header_lines_from-IsHeader fuel more (omega (arith, h, m))

pub header_lines-IsHeader : (raw : Bytes) → IsHeader raw (header_lines raw)
unfolding header_lines
header_lines-IsHeader raw = header_lines_from-IsHeader (length raw) raw (omega arith)

-- Text that is appended piece by piece fits if all of it does.
abbrev pub fitted : ℕ → Bytes → Option Bytes
fitted size out = if ltb (length out) size then some out else none

-- A line is appended, and then the rest.
append_step :
    (size : ℕ) (out line : Bytes) (lines : List Bytes) (f : Bytes → Option Bytes)
    → ((o : Bytes) → length o < size → f o ≡ fitted size (o ++ print_lines (kept lines)))
    → length out < size
    → (append_line size out line >>= f) ≡ fitted size (out ++ print_lines (kept (line ∷ lines)))
unfolding print_lines kept
append_step size out line lines f h small = by_test (should_skip line)
  where
    text : Bytes
    text = line ++ line_break

    more : Bytes
    more = print_lines (kept lines)

    shut : size ≤ length (out ++ text) → none ≡ fitted size (out ++ (text ++ more))
    shut big =
        ground (arith, ap length (append_assoc out text more), length-append (out ++ text) more)

    by_room :
        (b : Bool)
        → ltb (length out + length text) size ≡ b
        → ((if b then some (out ++ text) else none) >>= f) ≡ fitted size (out ++ (text ++ more))
    by_room true e =
        h (out ++ text) (ground (arith, e, length-append out text))
        ∙ ap (fitted size) (append_assoc out text more)
    by_room false e = shut (ground (arith, e, length-append out text))

    by_test :
        (b : Bool)
        → ((if b then some out else append_text size out text) >>= f)
          ≡ fitted size (out ++ print_lines (if b then kept lines else line ∷ kept lines))
    by_test true = h out small
    by_test false = by_room (ltb (length out + length text) size) refl

append_headers_lem :
    (fuel size : ℕ) (out raw : Bytes)
    → length out < size
    → append_headers fuel size out raw
      ≡ fitted size (out ++ print_lines (kept (header_lines_from fuel raw)))
unfolding append_headers header_lines_from kept print_lines
append_headers_lem fuel size out [] h = ground (arith, append-nil out)
append_headers_lem zero size out (x ∷ xs) h = ground (arith, append-nil out)
append_headers_lem (suc fuel) size out (x ∷ xs) h =
    by_empty (length (split_line (x ∷ xs)).0 == 0) (split_line (x ∷ xs)).0 (split_line (x ∷ xs)).1
      λ o more. append_headers_lem fuel size o more
  where
    Next : Type 0
    Next =
        (o more : Bytes)
        → length o < size
        → append_headers fuel size o more
          ≡ fitted size (o ++ print_lines (kept (header_lines_from fuel more)))

    goes_on : Option Bytes → Bytes → Option Bytes
    goes_on rest o = elim rest [ none ↦ some o | some more ↦ append_headers fuel size o more ]

    lines_of : Option Bytes → List Bytes
    lines_of rest = elim rest [ none ↦ [] | some more ↦ header_lines_from fuel more ]

    by_rest :
        (rest : Option Bytes)
        → Next
        → (o : Bytes) → length o < size
        → goes_on rest o ≡ fitted size (o ++ print_lines (kept (lines_of rest)))
    by_rest none ih o small = ground (arith, append-nil o)
    by_rest (some more) ih o small = ih o more small

    by_empty :
        (b : Bool) (line : Bytes) (rest : Option Bytes)
        → Next
        → elim b [ true ↦ some out | false ↦ append_line size out line >>= λ o. goes_on rest o ]
          ≡ fitted size
              (out ++ print_lines (kept (elim b [ true ↦ [] | false ↦ line ∷ lines_of rest ])))
    by_empty true line rest ih = ground (arith, append-nil out)
    by_empty false line rest ih =
        append_step size out line (lines_of rest) (goes_on rest) (by_rest rest ih) h

-- A line and its break are as long as what they take of the text.
abbrev Shorter : ℕ → Bytes × Option Bytes → Type 0
Shorter n (line, none) = length line ≡ n
Shorter n (line, some more) = length line + 2 + length more ≡ n

split_line-Shorter : (s : Bytes) → Shorter (length s) (split_line s)
unfolding split_line
split_line-Shorter [] = refl
split_line-Shorter (x ∷ []) = refl
split_line-Shorter (x ∷ y ∷ xs) =
    by_test ((x == 13) && (y == 10)) (split_line (y ∷ xs)) (split_line-Shorter (y ∷ xs))
  where
    by_test :
        (b : Bool) (r : Bytes × Option Bytes)
        → Shorter (length (y ∷ xs)) r
        → Shorter
            (length (x ∷ y ∷ xs))
            (if◌then◌else◌ {A = Bytes × Option Bytes} b ([], some xs) (x ∷ r.0, r.1))
    by_test true r h = omega arith
    by_test false (line, none) h = omega (arith, h)
    by_test false (line, some more) h = omega (arith, h)

length-print :
    (fuel : ℕ) (raw : Bytes)
    → length (print_lines (kept (header_lines_from fuel raw))) ≤ length raw + 2
unfolding header_lines_from kept print_lines
length-print fuel [] = omega arith
length-print zero (x ∷ xs) = omega arith
length-print (suc fuel) (x ∷ xs) =
    by_empty (length (split_line (x ∷ xs)).0 == 0) (split_line (x ∷ xs))
      (split_line-Shorter (x ∷ xs)) λ more. length-print fuel more
  where
    lines_of : Option Bytes → List Bytes
    lines_of rest = elim rest [ none ↦ [] | some more ↦ header_lines_from fuel more ]

    by_skip :
        (b : Bool) (line : Bytes) (lines : List Bytes) (n : ℕ)
        → length (print_lines (kept lines)) + length line + 2 ≤ n
        → length (print_lines (if b then kept lines else line ∷ kept lines)) ≤ n
    by_skip true line lines n h = omega (arith, h)
    by_skip false line lines n h = omega (
      arith,
      h,
      length-append (line ++ line_break) (print_lines (kept lines)),
      length-append line line_break,
    )

    by_empty :
        (b : Bool) (r : Bytes × Option Bytes)
        → Shorter (length (x ∷ xs)) r
        → ((more : Bytes)
            → length (print_lines (kept (header_lines_from fuel more))) ≤ length more + 2)
        → length (print_lines (kept (elim b [ true ↦ [] | false ↦ r.0 ∷ lines_of r.1 ])))
          ≤ length (x ∷ xs) + 2
    by_empty true r e ih = omega arith
    by_empty false (line, none) e ih =
        by_skip (should_skip line) line [] (length (x ∷ xs) + 2) (omega (arith, e))
    by_empty false (line, some more) e ih =
        by_skip (should_skip line) line (header_lines_from fuel more) (length (x ∷ xs) + 2)
          (omega (arith, e, ih more))

-- The kept lines take at most two bytes more than the header block of the client.
pub length-print_lines :
    (raw : Bytes) → length (print_lines (kept (header_lines raw))) ≤ length raw + 2
unfolding header_lines
length-print_lines raw = length-print (length raw) raw

more_fuel :
    (f g : ℕ) (raw : Bytes)
    → length raw ≤ f
    → length raw ≤ g
    → header_lines_from f raw ≡ header_lines_from g raw
unfolding header_lines_from
more_fuel f g [] hf hg = refl
more_fuel zero g (x ∷ xs) hf hg = absurd (omega (arith, hf))
more_fuel (suc f) zero (x ∷ xs) hf hg = absurd (omega (arith, hg))
more_fuel (suc f) (suc g) (x ∷ xs) hf hg =
    by_empty (length (split_line (x ∷ xs)).0 == 0) (split_line (x ∷ xs))
      (split_line-Shorter (x ∷ xs))
      λ more h. more_fuel f g more (omega (arith, hf, h)) (omega (arith, hg, h))
  where
    by_empty :
        (b : Bool) (r : Bytes × Option Bytes)
        → Shorter (length (x ∷ xs)) r
        → ((more : Bytes)
            → length more < length (x ∷ xs)
            → header_lines_from f more ≡ header_lines_from g more)
        → ◌≡◌ {A = List Bytes}
            (elim b [
              | true ↦ []
              | false ↦ r.0 ∷ elim r.1 [ none ↦ [] | some more ↦ header_lines_from f more ]
            ])
            (elim b [
              | true ↦ []
              | false ↦ r.0 ∷ elim r.1 [ none ↦ [] | some more ↦ header_lines_from g more ]
            ])
    by_empty true r e ih = refl
    by_empty false (line, none) e ih = refl
    by_empty false (line, some more) e ih = ap (◌∷◌ line) (ih more (omega (arith, e)))

-- The fuel of `header_lines` is enough: more of it finds the same lines.
pub header_lines_enough :
    (fuel : ℕ) (raw : Bytes) → length raw ≤ fuel → header_lines_from fuel raw ≡ header_lines raw
unfolding header_lines
header_lines_enough fuel raw h = more_fuel fuel (length raw) raw h (omega arith)

pub append_filtered_headers-kept :
    (size : ℕ) (out raw : Bytes)
    → length out < size
    → append_filtered_headers size out raw
      ≡ fitted size (out ++ print_lines (kept (header_lines raw)))
unfolding append_filtered_headers header_lines
append_filtered_headers-kept size out raw h = append_headers_lem (length raw) size out raw h

-- Behind a buffer that is not full, append_filtered_headers copies the lines of the header block up to
-- the first empty one, where a line ends with CR LF, in order and each with its break, without the
-- lines named Host, Connection or Proxy-Connection in any case. It fails exactly when they do not fit.
pub append_filtered_headers_lem :
    (size : ℕ) (out raw : Bytes)
    → length out < size
    → (lines left : List Bytes) × IsHeader raw lines
      × IsKept lines left
      × (append_filtered_headers size out raw ≡ fitted size (out ++ print_lines left))
append_filtered_headers_lem size out raw h = (
  header_lines raw,
  kept (header_lines raw),
  header_lines-IsHeader raw,
  kept-IsKept (header_lines raw),
  append_filtered_headers-kept size out raw h,
)
