-- ===== src/Cache/Unlink.antt =====
-- cache_remove_from_bucket_locked of src/cache.c: an entry leaves its bucket, the other buckets stay.
use concurrent_http_proxy_se.Base.{
  ℕ, ◌+◌, ◌<◌, ◌≡◌, ◌≢◌, refl, ap, subst, ◌∙◌, append_assoc, inl, inr, none, some, List, [], ◌∷◌,
  ◌++◌, true, false, ◌&&◌, not, arith, ◌==◌, ==_iff, if◌then◌else◌, Ptr, update, length,
  length-append, mem, mem-append, mem_split, mem→NotIn, mem-mid, NotIn, Nodup, Nodup-mid,
  snoc_cases, Bool-cases,
}
use concurrent_http_proxy_se.Cache.{Cache, bucket_of, relink_bucket}
use concurrent_http_proxy_se.Cache.Chain.{Chain, Chain-out, Chain-skip, length-le_of_subset}
use concurrent_http_proxy_se.Cache.Invariant.{IsTable}
use concurrent_http_proxy_se.Lru.Segment.{last, last-snoc}

-- The two fields that the removal from a bucket may write.
abbrev pub buckets_after : Cache → ℕ → Ptr → Ptr → ℕ → Ptr
buckets_after c i none after = update c.buckets i after
buckets_after c i (some q) after = c.buckets

abbrev pub next_after : Cache → ℕ → Ptr → Ptr → ℕ → Ptr
next_after c i none after = c.bucket_next
next_after c i (some q) after = update c.bucket_next q after

pub relink_bucket-fields :
    (c : Cache) (i : ℕ) (previous after : Ptr)
    → relink_bucket c i previous after ≡ record c {
      buckets = buckets_after c i previous after;
      bucket_next = next_after c i previous after;
    }
relink_bucket-fields c i none after = refl
relink_bucket-fields c i (some q) after = refl

-- The bucket is the chain without the entry.
pub Chain-own :
    (c : Cache) (i z : ℕ) (us vs : List ℕ)
    → Nodup (us ++ z ∷ vs)
    → Chain c.bucket_next (c.buckets i) (us ++ z ∷ vs)
    → Chain
        (next_after c i (last us none) (c.bucket_next z))
        (buckets_after c i (last us none) (c.bucket_next z) i)
        (us ++ vs)
Chain-own c i z us vs nd h = elim (snoc_cases us) [
  | inl is ↦
      let hit : update c.buckets i (c.bucket_next z) i ≡ c.bucket_next z = ground arith in
      let h' : Chain c.bucket_next (c.buckets i) (z ∷ vs) =
        subst (λ t. Chain c.bucket_next (c.buckets i) (t ++ z ∷ vs)) is h in
      rw is (rw hit h'.1)
  | inr (us', w, is) ↦
      let e : us ++ z ∷ vs ≡ us' ++ w ∷ z ∷ vs =
        ap (λ t. t ++ z ∷ vs) is ∙ append_assoc us' (w ∷ []) (z ∷ vs) in
      rw (is, last-snoc, append_assoc us' (w ∷ []) vs)
        (Chain-skip c.bucket_next (c.buckets i) us' w z vs (subst Nodup e nd)
          (subst (Chain c.bucket_next (c.buckets i)) e h))
]

-- Another bucket is as it was.
pub Chain-other :
    (c : Cache) (i j : ℕ) (after : Ptr) (us l : List ℕ)
    → i ≢ j
    → ((w : ℕ) → mem w us ≡ true → NotIn w l)
    → Chain c.bucket_next (c.buckets j) l
    → Chain (next_after c i (last us none) after) (buckets_after c i (last us none) after j) l
Chain-other c i j after us l ne apart h = elim (snoc_cases us) [
  | inl is ↦ let skip : update c.buckets i after j ≡ c.buckets j = ground arith in rw is (rw skip h)
  | inr (us', w, is) ↦
      rw (is, last-snoc)
        (Chain-out c.bucket_next w after (c.buckets j) l
          (apart w (ground (arith, ap (mem w) is, mem-append w us' (w ∷ [])))) h)
]

-- The position of an entry in its bucket.
pub record Place {c : Cache} {order pins : List ℕ} (t : IsTable c order pins) (z : ℕ) : Type 0 where
  pub before : List ℕ
  pub behind : List ℕ
  pub split : t.chains (bucket_of (c.key z)) ≡ before ++ z ∷ behind

module _ {c : Cache} {order pins : List ℕ} (t : IsTable c order pins) (z : ℕ)
    (here : mem z (order ++ pins) ≡ true) where
  pub place : Place t z
  place =
      let i = bucket_of (c.key z) in
      let (us, vs, is) = mem_split z (t.chains i) (ground (arith, t.placed i z)) in
      record { before = us; behind = vs; split = is }

module _ {c : Cache} {order pins : List ℕ} (t : IsTable c order pins) (z : ℕ)
    (here : mem z (order ++ pins) ≡ true) (at : Place t z) where
  abbrev pub index : ℕ
  index = bucket_of (c.key z)

  pub split_distinct : Nodup (at.before ++ z ∷ at.behind)
  split_distinct = subst Nodup at.split (t.distinct index)

  pub split_chained : Chain c.bucket_next (c.buckets index) (at.before ++ z ∷ at.behind)
  split_chained = subst (Chain c.bucket_next (c.buckets index)) at.split (t.chained index)

  pub before_short : length at.before < length order + length pins
  before_short = omega (
    arith,
    length-le_of_subset (t.chains index) (order ++ pins) (t.distinct index)
        (λ q h. ground (arith, t.placed index q)),
    ap length at.split,
    length-append at.before (z ∷ at.behind),
    length-append order pins,
  )

  abbrev pub chains_after : ℕ → List ℕ
  chains_after j = if j == index then at.before ++ at.behind else t.chains j

  abbrev pub previous : Ptr
  previous = last at.before none

  -- An entry of the bucket is in no other one.
  elsewhere :
      (w j : ℕ) → mem w (t.chains index) ≡ true → (j == index) ≡ false → NotIn w (t.chains j)
  elsewhere w j h ne = mem→NotIn w (t.chains j) (ground (arith, t.placed index w, t.placed j w))

  pub chained_after :
      (j : ℕ)
      → Chain
          (next_after c index previous (c.bucket_next z))
          (buckets_after c index previous (c.bucket_next z) j)
          (chains_after j)
  chained_after j = elim (Bool-cases (j == index)) [
    | inl e ↦
        rw (e, (==_iff j index).0 e)
          (Chain-own c index z at.before at.behind split_distinct split_chained)
    | inr ne ↦ rw ne (
        Chain-other c index j (c.bucket_next z) at.before (t.chains j) (ground arith)
          (λ w h.
            elsewhere w j
              (ground (arith, ap (mem w) at.split, mem-append w at.before (z ∷ at.behind))) ne)
          (t.chained j))
  ]

  pub distinct_after : (j : ℕ) → Nodup (chains_after j)
  distinct_after j = elim (Bool-cases (j == index)) [
    | inl e ↦ rw e (Nodup-mid at.before z at.behind split_distinct).2
    | inr ne ↦ rw ne (t.distinct j)
  ]

  pub mem-chains_after : (j q : ℕ) → mem q (chains_after j) ≡ (mem q (t.chains j) && not (q == z))
  mem-chains_after j q = elim (Bool-cases (j == index)) [
    | inl e ↦
        rw (e, (==_iff j index).0 e, at.split) (mem-mid q at.before z at.behind split_distinct)
    | inr ne ↦ rw ne (ground (arith, t.placed j q))
  ]
