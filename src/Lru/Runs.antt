-- ===== src/Lru/Runs.antt =====
-- Any sequence of calls of src/lru.c on one list, beside what they mean for a list of addresses.
use concurrent_http_proxy_se.Base.{
  ℕ, ◌+◌, ◌^◌, ◌<◌, ◌≡◌, refl, sym, ap, subst, ◌∙◌, arith, ◌==◌, ==_iff, length, mem, NotIn, none,
  some, Bool, true, false, if◌then◌else◌, List, [], ◌∷◌, ◌++◌, Ptr,
}
use concurrent_http_proxy_se.Lru.{Lru, attach_front, detach, move_to_front, remove_tail}
use concurrent_http_proxy_se.Lru.Ordering.{
  IsOrder, attach_front-IsOrder, detach-IsOrder, move_to_front-IsOrder, remove_tail-IsOrder,
  remove_tail-empty,
}
use concurrent_http_proxy_se.Lru.Segment.{last}

-- A call with an entry, or of lru_remove_tail.
pub data Call : Type 0 where
  attaches detaches moves : ℕ → Call
  removes_tail : Call

-- The list after the call, and what it answers; only lru_remove_tail answers something.
unfoldable pub perform : Call → Lru → Lru
perform (attaches p) s = attach_front s (some p)
perform (detaches p) s = detach s (some p)
perform (moves p) s = move_to_front s (some p)
perform removes_tail s = (remove_tail s).1

unfoldable pub answers : Call → Lru → Ptr
answers removes_tail s = (remove_tail s).0
answers call s = none

-- The same for addresses, the most recently used one first.
unfoldable pub without : ℕ → List ℕ → List ℕ
without p [] = []
without p (x ∷ l) = if p == x then l else x ∷ without p l

unfoldable pub but_last : List ℕ → List ℕ
but_last [] = []
but_last (x ∷ []) = []
but_last (x ∷ y ∷ l) = x ∷ but_last (y ∷ l)

unfoldable pub meant : Call → List ℕ → List ℕ
unfolding without but_last
meant (attaches p) l = p ∷ l
meant (detaches p) l = without p l
meant (moves p) l = p ∷ without p l
meant removes_tail l = but_last l

unfoldable pub answer_meant : Call → List ℕ → Ptr
answer_meant removes_tail l = last l none
answer_meant call l = none

-- An entry is attached when it is not there, and the others need it there. The count is a size_t.
unfoldable pub Allowed : Call → List ℕ → Type 0
Allowed (attaches p) l = NotIn p l × (length l + 1 < 2 ^ 64)
Allowed (detaches p) l = mem p l ≡ true
Allowed (moves p) l = (mem p l ≡ true) × (length l < 2 ^ 64)
Allowed removes_tail l = Unit

without_split :
    (p : ℕ) (l : List ℕ)
    → mem p l ≡ true
    → (xs ys : List ℕ) × (l ≡ xs ++ (p ∷ ys)) × (without p l ≡ xs ++ ys)
unfolding without
without_split p [] h = absurd (cc h)
without_split p (x ∷ l) h = by_head (p == x) refl (without_split p l)
  where
    by_head :
        (b : Bool)
        → (p == x) ≡ b
        → (mem p l ≡ true → (xs ys : List ℕ) × (l ≡ xs ++ (p ∷ ys)) × (without p l ≡ xs ++ ys))
        → (xs ys : List ℕ) × (x ∷ l ≡ xs ++ (p ∷ ys))
          × ((if p == x then l else x ∷ without p l) ≡ xs ++ ys)
    by_head true e rest = ([], l, cc ((==_iff p x).0 e), rw e refl)
    by_head false e rest =
        let (xs, ys, is, out) = rest (ground (arith, h, e)) in
        (x ∷ xs, ys, ap (λ t. x ∷ t) is, rw e (ap (λ t. x ∷ t) out))

last_found :
    (x : ℕ) (l : List ℕ)
    → (xs : List ℕ) × (p : ℕ) × (x ∷ l ≡ xs ++ (p ∷ []))
      × (but_last (x ∷ l) ≡ xs)
      × (last (x ∷ l) none ≡ some p)
unfolding but_last
last_found x [] = ([], x, refl, refl, refl)
last_found x (y ∷ l) =
    let (xs, p, is, out, found) = last_found y l in
    (x ∷ xs, p, ap (λ t. x ∷ t) is, ap (λ t. x ∷ t) out, found)

call-IsOrder :
    (c : Call) (s : Lru) (l : List ℕ)
    → IsOrder s l
    → Allowed c l
    → (answers c s ≡ answer_meant c l) × IsOrder (perform c s) (meant c l)
unfolding perform answers meant answer_meant Allowed
call-IsOrder (attaches p) s l o (out, fits) = (refl, attach_front-IsOrder s l p o out fits)
call-IsOrder (detaches p) s l o there =
    let (xs, ys, is, rest) = without_split p l there in
    (
      refl,
      subst (IsOrder (detach s (some p))) (sym rest)
          (detach-IsOrder s xs p ys (subst (IsOrder s) is o)),
    )
call-IsOrder (moves p) s l o (there, fits) =
    let (xs, ys, is, rest) = without_split p l there in
    (
      refl,
      subst (λ r. IsOrder (move_to_front s (some p)) (p ∷ r)) (sym rest)
          (move_to_front-IsOrder s xs p ys (subst (IsOrder s) is o)
            (omega (arith, fits, ap length is))),
    )
call-IsOrder removes_tail s [] o u =
    subst (λ r. (r.0 ≡ none) × IsOrder r.1 []) (sym (remove_tail-empty s o)) (refl, o)
call-IsOrder removes_tail s (x ∷ l) o u =
    let (xs, p, is, rest, found) = last_found x l in
    let (gave, left) = remove_tail-IsOrder s xs p (subst (IsOrder s) is o) in
    (gave ∙ sym found, subst (IsOrder (remove_tail s).1) (sym rest) left)

-- A sequence of calls: what they answer, and what they leave.
unfoldable pub run : List Call → Lru → List Ptr × Lru
run [] s = ([], s)
run (c ∷ calls) s = let (given, t) = run calls (perform c s) in (answers c s ∷ given, t)

unfoldable pub run_meant : List Call → List ℕ → List Ptr × List ℕ
run_meant [] l = ([], l)
run_meant (c ∷ calls) l =
    let (given, m) = run_meant calls (meant c l) in (answer_meant c l ∷ given, m)

unfoldable pub AllAllowed : List Call → List ℕ → Type 0
AllAllowed [] l = Unit
AllAllowed (c ∷ calls) l = Allowed c l × AllAllowed calls (meant c l)

-- Any sequence of calls of src/lru.c on a well-formed list, when entries are attached that are not on
-- it and detached and moved while they are, and the count stays within size_t: lru_remove_tail
-- answers the entries that it answers on the list of addresses, and the list stays well-formed and
-- holds what the list of addresses holds.
pub run-IsOrder :
    (calls : List Call) (s : Lru) (l : List ℕ)
    → IsOrder s l
    → AllAllowed calls l
    → ((run calls s).0 ≡ (run_meant calls l).0) × IsOrder (run calls s).1 (run_meant calls l).1
unfolding run run_meant AllAllowed
run-IsOrder [] s l o h = (refl, o)
run-IsOrder (c ∷ calls) s l o (h, rest) =
    let (gave, kept) = call-IsOrder c s l o h in
    let (others, end) = run-IsOrder calls (perform c s) (meant c l) kept rest in
    (cc (gave, others), end)
