-- ===== src/Lru/Ordering.antt =====
-- src/lru.c: the linked list holds a sequence of entries, and each operation is an operation on the
-- sequence.
use native.Mathlib.Nat.{mod-eq_of_lt}
use concurrent_http_proxy_se.Base.{
  ℕ, ◌+◌, ◌-◌, ◌^◌, ◌<◌, ◌≡◌, refl, ◌≢◌, none, some, sym, ap, subst, ◌∙◌, append-nil, List, [], ◌∷◌,
  ◌++◌, arith, Ptr, ptr_eq, true, false, update, NotIn, NotIn-append, Nodup, Nodup-left,
  Nodup-right, Nodup-mid, length, length-append,
}
use concurrent_http_proxy_se.Lru.{
  Lru, init, attach_front, detach, move_to_front, remove_at, remove_tail,
}
use concurrent_http_proxy_se.Lru.Segment.{
  first, last, Seg, Seg-left, Seg-right, Seg-append, Seg-prev_out, Seg-next_out, Seg-prev_first,
  relink, Seg-relink-last, Seg-relink-first, Seg-relink_left, Seg-relink_right, last_is_some,
  Seg-clear, last-append,
}

-- The list holds exactly the entries of `l`, the front first, linked both ways, and counts them.
pub record IsOrder (s : Lru) (l : List ℕ) : Type 0 where
  pub head : s.head ≡ first l none
  pub tail : s.tail ≡ last l none
  pub links : Seg s.prev s.next none l none
  pub nodup : Nodup l
  pub count : s.entry_count ≡ length l

-- lru_init makes the list empty, whatever it held.
pub init-IsOrder : (s : Lru) → IsOrder (init s) []
unfolding init
init-IsOrder s = record { head = refl; tail = refl; links = tt; nodup = tt; count = refl }

-- lru_attach_front puts an entry that the list does not hold in front of the others, if the count
-- stays within size_t.
pub attach_front-IsOrder :
    (s : Lru) (l : List ℕ) (p : ℕ)
    → IsOrder s l
    → NotIn p l
    → length l + 1 < 2 ^ 64
    → IsOrder (attach_front s (some p)) (p ∷ l)
unfolding attach_front
attach_front-IsOrder s [] p o out fits =
    rw (o.head, attach_front)
      record {
        head = refl;
        tail = refl;
        links = (ground arith, ground arith, tt);
        nodup = (tt, tt);
        count = ground arith;
      }
attach_front-IsOrder s (x ∷ l) p o out fits =
    rw (o.head, attach_front)
      record {
        head = refl;
        tail = o.tail;
        links = (
          ground arith,
          ground arith,
          Seg-prev_first (update s.prev p none) (update s.next p (some x)) (some p) x l none
              o.nodup.0
              (Seg-prev_out s.prev (update s.next p (some x)) p none none (x ∷ l) none out
                (Seg-next_out s.prev s.next p (some x) none (x ∷ l) none out o.links)),
        );
        nodup = (out, o.nodup);
        count = ground (arith, mod-eq_of_lt {n = length (x ∷ l) + 1} {m = 2 ^ 64} fits);
      }

-- The neighbours of an entry in the middle.
module _ {s : Lru} (xs : List ℕ) (p : ℕ) (ys : List ℕ) (o : IsOrder s (xs ++ p ∷ ys)) where
  mid_links : Seg s.prev s.next (last xs none) (p ∷ ys) none
  mid_links = Seg-right s.prev s.next none xs (p ∷ ys) none o.links

  left_links : Seg s.prev s.next none xs (some p)
  left_links = Seg-left s.prev s.next none xs (p ∷ ys) none o.links

  mid_apart : NotIn p xs × NotIn p ys × Nodup (xs ++ ys)
  mid_apart = Nodup-mid xs p ys o.nodup

  count-left : s.entry_count ≡ length (xs ++ ys) + 1
  count-left = omega (arith, o.count, length-append xs (p ∷ ys), length-append xs ys)

-- What lru_detach leaves, with the two neighbours read before it writes.
abbrev front_after : Lru → Ptr → Ptr → Ptr
front_after s none after = after
front_after s (some b) after = s.head

abbrev back_after : Lru → Ptr → Ptr → Ptr
back_after s before none = before
back_after s before (some a) = s.tail

abbrev detached : Lru → ℕ → Ptr → Ptr → Lru
detached s p before after = record {
  head = front_after s before after;
  tail = back_after s before after;
  entry_count = s.entry_count - 1;
  prev = update (relink s.prev after before) p none;
  next = update (relink s.next before after) p none;
}

detach-detached :
    (s : Lru) (p : ℕ) (before after : Ptr)
    → s.prev p ≡ before
    → s.next p ≡ after
    → before ≢ some p
    → after ≢ some p
    → 0 < s.entry_count
    → detach s (some p) ≡ detached s p before after
unfolding detach
detach-detached s p none none eb ea nb na c = ground arith
detach-detached s p none (some a) eb ea nb na c = ground arith
detach-detached s p (some b) none eb ea nb na c = ground arith
detach-detached s p (some b) (some a) eb ea nb na c = ground arith

first_ne : (p : ℕ) (ys : List ℕ) → NotIn p ys → first ys none ≢ some p
first_ne p [] out = ground arith
first_ne p (y ∷ ys) out = ground arith

last_ne : (p : ℕ) (xs : List ℕ) (b : Ptr) → b ≢ some p → NotIn p xs → last xs b ≢ some p
last_ne p [] b ne out = ne
last_ne p (x ∷ xs) b ne out = last_ne p xs (some x) (ground arith) out.1

front_after-first :
    (s : Lru) (xs : List ℕ) (p : ℕ) (ys : List ℕ)
    → s.head ≡ first (xs ++ p ∷ ys) none
    → front_after s (last xs none) (first ys none) ≡ first (xs ++ ys) none
front_after-first s [] p ys h = refl
front_after-first s (x ∷ xs) p ys h = rw ((last_is_some x xs).1, front_after) h

back_after-last :
    (s : Lru) (xs : List ℕ) (p : ℕ) (ys : List ℕ)
    → s.tail ≡ last (xs ++ p ∷ ys) none
    → back_after s (last xs none) (first ys none) ≡ last (xs ++ ys) none
back_after-last s xs p [] h = rw append-nil
back_after-last s xs p (y ∷ ys) h =
    h ∙ last-append xs (p ∷ y ∷ ys) none ∙ sym (last-append xs (y ∷ ys) none)

-- lru_detach takes out the entry, wherever it stands, and keeps the order of the others.
pub detach-IsOrder :
    (s : Lru) (xs : List ℕ) (p : ℕ) (ys : List ℕ)
    → IsOrder s (xs ++ p ∷ ys)
    → IsOrder (detach s (some p)) (xs ++ ys)
detach-IsOrder s xs p ys o =
    let (out_xs, out_ys, nd) = mid_apart xs p ys o in
    let b = last xs none in
    let a = first ys none in
    let (before, after, right) = mid_links xs p ys o in
    let prev' = relink s.prev a b in
    let next' = relink s.next b a in
    rw
      (detach-detached s p b a before after (last_ne p xs none (ground arith) out_xs)
        (first_ne p ys out_ys) (omega (arith, count-left xs p ys o)))
      record {
        head = front_after-first s xs p ys o.head;
        tail = back_after-last s xs p ys o.tail;
        links = Seg-clear prev' next' p none (xs ++ ys) none (NotIn-append p xs ys out_xs out_ys) (
            Seg-append prev' next' none xs ys none
              (Seg-relink_left s.prev next' b none xs ys a nd (
                Seg-relink-last s.prev s.next a none xs (some p) (Nodup-left xs ys nd)
                  (left_links xs p ys o)))
              (Seg-relink_right prev' s.next a b xs ys none nd
                (Seg-relink-first s.prev s.next b (some p) ys none (Nodup-right xs ys nd) right)));
        nodup = nd;
        count = omega (arith, count-left xs p ys o);
      }

remove_tail-detach :
    (s : Lru) (p : ℕ) → s.tail ≡ some p → remove_tail s ≡ (some p, detach s (some p))
unfolding remove_tail
remove_tail-detach s p t = ap (remove_at s) t

-- lru_move_to_front moves an entry of the list in front of all others and keeps their order, if the
-- count is within size_t.
pub move_to_front-IsOrder :
    (s : Lru) (xs : List ℕ) (p : ℕ) (ys : List ℕ)
    → IsOrder s (xs ++ p ∷ ys)
    → length (xs ++ p ∷ ys) < 2 ^ 64
    → IsOrder (move_to_front s (some p)) (p ∷ (xs ++ ys))
unfolding move_to_front
move_to_front-IsOrder s [] p ys o fits =
    let e : ptr_eq s.head (some p) ≡ true = ground arith in rw e o
move_to_front-IsOrder s (x ∷ xs) p ys o fits =
    let (out_xs, out_ys, nd) = mid_apart (x ∷ xs) p ys o in
    let e : ptr_eq s.head (some p) ≡ false = ground arith in
    rw e (
      attach_front-IsOrder (detach s (some p)) (x ∷ (xs ++ ys)) p (detach-IsOrder s (x ∷ xs) p ys o)
        (NotIn-append p (x ∷ xs) ys out_xs out_ys)
        (omega (arith, length-append xs (p ∷ ys), length-append xs ys)))

-- lru_remove_tail takes out the entry at the back and returns it.
pub remove_tail-IsOrder :
    (s : Lru) (xs : List ℕ) (p : ℕ)
    → IsOrder s (xs ++ p ∷ [])
    → ((remove_tail s).0 ≡ some p) × IsOrder (remove_tail s).1 xs
remove_tail-IsOrder s xs p o =
    rw (remove_tail-detach s p (o.tail ∙ last-append xs (p ∷ []) none))
      (refl, subst (IsOrder (detach s (some p))) (append-nil xs) (detach-IsOrder s xs p [] o))

-- Of an empty list it returns NULL, and changes nothing.
pub remove_tail-empty : (s : Lru) → IsOrder s [] → remove_tail s ≡ (none, s)
unfolding remove_tail
remove_tail-empty s o = ap (remove_at s) o.tail

-- Moving the head to the front changes nothing, and an attached entry is the head.
pub move_to_front_head : (s : Lru) (p : ℕ) → s.head ≡ some p → move_to_front s (some p) ≡ s
unfolding move_to_front
move_to_front_head s p h = let e : ptr_eq s.head (some p) ≡ true = ground arith in rw e

pub attach_front-head : (s : Lru) (p : ℕ) → (attach_front s (some p)).head ≡ some p
unfolding attach_front
attach_front-head s p = refl
