-- ===== src/Cache/Find.antt =====
-- cache_find_entry_locked of src/cache.c: the table finds the one entry with a key.
use concurrent_http_proxy_se.Base.{
  ℕ, ◌≡◌, ◌≢◌, refl, ap, sym, ◌∙◌, append-nil, subst, none, some, List, [], ◌∷◌, ◌++◌, true, false,
  arith, ◌==◌, mem, mem-append, NotIn→mem, Nodup-mid, Bool-cases, inl, inr, ==_iff,
}
use concurrent_http_proxy_se.Bytes.{Bytes}
use concurrent_http_proxy_se.Cache.{Cache, bucket_of, find_entry}
use concurrent_http_proxy_se.Cache.Chain.{find_from-hit, find_from-miss}
use concurrent_http_proxy_se.Cache.Invariant.{IsCache}
use concurrent_http_proxy_se.Cache.Drop.{and_left}
use concurrent_http_proxy_se.Cache.Unlink.{
  Place, place, split_chained, split_distinct, before_short,
}
use concurrent_http_proxy_se.Cache.Spec.{Lacks}

pub Lacks-of :
    (c : Cache) (key : Bytes) (l : List ℕ)
    → ((q : ℕ) → mem q l ≡ true → c.key q ≢ key)
    → Lacks c key l
Lacks-of c key [] h = tt
Lacks-of c key (x ∷ l) h = (h x (ground arith), Lacks-of c key l (λ q m. h q (ground arith)))

pub Lacks-mem :
    (c : Cache) (key : Bytes) (l : List ℕ) (q : ℕ) → Lacks c key l → mem q l ≡ true → c.key q ≢ key
Lacks-mem c key [] q h m = absurd (cc)
Lacks-mem c key (x ∷ l) q h m = elim (Bool-cases (q == x)) [
  | inl e ↦ rw ((==_iff q x).0 e) h.0
  | inr ne ↦ Lacks-mem c key l q h.1 (ground arith)
]

mem-nil : (q : ℕ) (l : List ℕ) → mem q (l ++ []) ≡ mem q l
mem-nil q l = ap (mem q) (append-nil l)

module _ {c : Cache} {order : List ℕ} (t : IsCache c order) (key : Bytes) where
  -- A key that no entry has is not found.
  pub find_entry-Lacks : Lacks c key order → find_entry c key ≡ none
  unfolding find_entry
  find_entry-Lacks out =
      let i = bucket_of key in
      find_from-miss c.lru_list.entry_count c key (c.buckets i) (t.chains i) (t.chained i) (
        Lacks-of c key (t.chains i)
          (λ q m. Lacks-mem c key order q out (ground (arith, t.placed i q, mem-nil q order))))

module _ {c : Cache} {order : List ℕ} (t : IsCache c order) (p : ℕ)
    (here : mem p order ≡ true) where
  here_pinned : mem p (order ++ []) ≡ true
  here_pinned = mem-nil p order ∙ here

  -- An entry in front of `p` in the bucket has another key.
  others : (at : Place t p) (q : ℕ) → mem q at.before ≡ true → c.key q ≢ c.key p
  others at q m e =
      let i = bucket_of (c.key p) in
      let inside : mem q (t.chains i) ≡ true =
        ap (mem q) at.split ∙ mem-append q at.before (p ∷ at.behind) ∙ rw m in
      let same : q ≡ p = t.keys q p (and_left _ _ (sym (t.placed i q) ∙ inside)) here_pinned e in
      let out : mem p at.before ≡ false =
        NotIn→mem p at.before
          (Nodup-mid at.before p at.behind (split_distinct t p here_pinned at)).0 in
      cc (out, same, m)

  find_entry-own : find_entry c (c.key p) ≡ some p
  unfolding find_entry
  find_entry-own =
      let at = place t p here_pinned in
      find_from-hit c.lru_list.entry_count c (c.key p) (c.buckets (bucket_of (c.key p))) at.before p
        at.behind (split_chained t p here_pinned at) (Lacks-of c (c.key p) at.before (others at))
        refl (omega (arith, before_short t p here_pinned at, t.linked.count))

  -- Where an entry has the key, it is the one that is found.
  pub find_entry-hit : (key : Bytes) → c.key p ≡ key → find_entry c key ≡ some p
  find_entry-hit key e = subst (λ k. find_entry c k ≡ some p) e find_entry-own
