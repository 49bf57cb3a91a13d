-- ===== src/Lru/Segment.antt =====
-- Segments of the doubly linked list of src/lru.c: a run of entries between two neighbours.
use concurrent_http_proxy_se.Base.{
  ℕ, ◌≡◌, refl, some, inl, inr, ap, subst, ◌∙◌, append_assoc, none, List, [], ◌∷◌, ◌++◌, arith, Ptr,
  update, NotIn, Nodup, snoc_cases, Nodup-mid,
}

-- The entry in front of `e` after `l`, and the last one of `l` behind `b`.
abbrev pub first : List ℕ → Ptr → Ptr
first [] e = e
first (x ∷ xs) e = some x

abbrev pub last : List ℕ → Ptr → Ptr
last [] b = b
last (x ∷ xs) b = last xs (some x)

-- The links lead through `l`, from the neighbour `b` before it to the neighbour `e` behind it.
abbrev pub Seg : (prev next : ℕ → Ptr) → Ptr → List ℕ → Ptr → Type 0
Seg prev next b [] e = Unit
Seg prev next b (p ∷ l) e = (prev p ≡ b) × (next p ≡ first l e) × Seg prev next (some p) l e

module _ (prev next : ℕ → Ptr) where
  pub Seg-left :
      (b : Ptr) (xs ys : List ℕ) (e : Ptr)
      → Seg prev next b (xs ++ ys) e
      → Seg prev next b xs (first ys e)
  Seg-left b [] ys e h = tt
  Seg-left b (x ∷ []) ys e h = (h.0, h.1, tt)
  Seg-left b (x ∷ y ∷ xs) ys e h = (h.0, h.1, Seg-left (some x) (y ∷ xs) ys e h.2)

  pub Seg-right :
      (b : Ptr) (xs ys : List ℕ) (e : Ptr)
      → Seg prev next b (xs ++ ys) e
      → Seg prev next (last xs b) ys e
  Seg-right b [] ys e h = h
  Seg-right b (x ∷ xs) ys e h = Seg-right (some x) xs ys e h.2

  pub Seg-append :
      (b : Ptr) (xs ys : List ℕ) (e : Ptr)
      → Seg prev next b xs (first ys e)
      → Seg prev next (last xs b) ys e
      → Seg prev next b (xs ++ ys) e
  Seg-append b [] ys e h k = k
  Seg-append b (x ∷ []) ys e h k = (h.0, h.1, k)
  Seg-append b (x ∷ y ∷ xs) ys e h k = (h.0, h.1, Seg-append (some x) (y ∷ xs) ys e h.2 k)

  -- Writes to an entry outside the segment.
  pub Seg-prev_out :
      (q : ℕ) (v : Ptr) (b : Ptr) (l : List ℕ) (e : Ptr)
      → NotIn q l
      → Seg prev next b l e
      → Seg (update prev q v) next b l e
  Seg-prev_out q v b [] e out h = tt
  Seg-prev_out q v b (x ∷ l) e out h = (ground arith, h.1, Seg-prev_out q v (some x) l e out.1 h.2)

  pub Seg-next_out :
      (q : ℕ) (v : Ptr) (b : Ptr) (l : List ℕ) (e : Ptr)
      → NotIn q l
      → Seg prev next b l e
      → Seg prev (update next q v) b l e
  Seg-next_out q v b [] e out h = tt
  Seg-next_out q v b (x ∷ l) e out h = (h.0, ground arith, Seg-next_out q v (some x) l e out.1 h.2)

  -- A new neighbour in front, and a new one behind.
  pub Seg-prev_first :
      (v : Ptr) {b : Ptr} (x : ℕ) (l : List ℕ) (e : Ptr)
      → NotIn x l
      → Seg prev next b (x ∷ l) e
      → Seg (update prev x v) next v (x ∷ l) e
  Seg-prev_first v x l e out h = (ground arith, h.1, Seg-prev_out x v (some x) l e out h.2)

pub last-snoc : (xs : List ℕ) (z : ℕ) (b : Ptr) → last (xs ++ z ∷ []) b ≡ some z
last-snoc [] z b = refl
last-snoc (x ∷ xs) z b = last-snoc xs z (some x)

pub first-append : (xs ys : List ℕ) (e : Ptr) → first (xs ++ ys) e ≡ first xs (first ys e)
first-append [] ys e = refl
first-append (x ∷ xs) ys e = refl

pub last-append : (xs ys : List ℕ) (b : Ptr) → last (xs ++ ys) b ≡ last ys (last xs b)
last-append [] ys b = refl
last-append (x ∷ xs) ys b = last-append xs ys (some x)

pub Seg-next_last :
    (prev next : ℕ → Ptr) (v : Ptr) (b : Ptr) (xs : List ℕ) (z : ℕ) (e : Ptr)
    → NotIn z xs
    → Seg prev next b (xs ++ z ∷ []) e
    → Seg prev (update next z v) b (xs ++ z ∷ []) v
Seg-next_last prev next v b xs z e out h =
    Seg-append prev (update next z v) b xs (z ∷ []) v
      (Seg-next_out prev next z v b xs (some z) out (Seg-left prev next b xs (z ∷ []) e h))
      ((Seg-right prev next b xs (z ∷ []) e h).0, ground arith, tt)

-- A write to the entry at a pointer, and nothing at NULL.
abbrev pub relink : (ℕ → Ptr) → Ptr → Ptr → ℕ → Ptr
relink f none v = f
relink f (some q) v = update f q v

-- The entry behind a segment is dropped, and so is the one in front.
pub Seg-relink-last :
    (prev next : ℕ → Ptr) (v : Ptr) (b : Ptr) (xs : List ℕ) (e : Ptr)
    → Nodup xs
    → Seg prev next b xs e
    → Seg prev (relink next (last xs none) v) b xs v
Seg-relink-last prev next v b xs e nd h = elim (snoc_cases xs) [
  | inl is ↦ rw is tt
  | inr (xs', z, is) ↦
      let nd' : Nodup (xs' ++ z ∷ []) = subst Nodup is nd in
      rw (is, last-snoc)
        (Seg-next_last prev next v b xs' z e (Nodup-mid xs' z [] nd').0
          (subst (λ t. Seg prev next b t e) is h))
]

pub Seg-relink-first :
    (prev next : ℕ → Ptr) (v b : Ptr) (ys : List ℕ) (e : Ptr)
    → Nodup ys
    → Seg prev next b ys e
    → Seg (relink prev (first ys none) v) next v ys e
Seg-relink-first prev next v b [] e nd h = tt
Seg-relink-first prev next v b (y ∷ ys) e nd h = Seg-prev_first prev next v y ys e nd.0 h

-- Neither change touches the other part.
pub Seg-relink_left :
    (prev next : ℕ → Ptr) (v b : Ptr) (xs ys : List ℕ) (e : Ptr)
    → Nodup (xs ++ ys)
    → Seg prev next b xs e
    → Seg (relink prev (first ys none) v) next b xs e
Seg-relink_left prev next v b xs [] e nd h = h
Seg-relink_left prev next v b xs (y ∷ ys) e nd h =
    Seg-prev_out prev next y v b xs e (Nodup-mid xs y ys nd).0 h

pub Seg-relink_right :
    (prev next : ℕ → Ptr) (v b : Ptr) (xs ys : List ℕ) (e : Ptr)
    → Nodup (xs ++ ys)
    → Seg prev next b ys e
    → Seg prev (relink next (last xs none) v) b ys e
Seg-relink_right prev next v b xs ys e nd h = elim (snoc_cases xs) [
  | inl is ↦ rw is h
  | inr (xs', z, is) ↦
      let nd' : Nodup (xs' ++ z ∷ ys) =
        subst Nodup (ap (λ t. t ++ ys) is ∙ append_assoc xs' (z ∷ []) ys) nd in
      rw (is, last-snoc) (Seg-next_out prev next z v b ys e (Nodup-mid xs' z ys nd').1 h)
]

-- Clearing both links of an entry outside the segment.
pub Seg-clear :
    (prev next : ℕ → Ptr) (p : ℕ) (b : Ptr) (l : List ℕ) (e : Ptr)
    → NotIn p l
    → Seg prev next b l e
    → Seg (update prev p none) (update next p none) b l e
Seg-clear prev next p b l e out h =
    Seg-prev_out prev (update next p none) p none b l e out
      (Seg-next_out prev next p none b l e out h)

pub last_is_some : (x : ℕ) (xs : List ℕ) → (z : ℕ) × (last xs (some x) ≡ some z)
last_is_some x [] = (x, refl)
last_is_some x (y ∷ xs) = last_is_some y xs
