-- ===== src/Cache/Destroy.antt =====
-- What cache_destroy of src/cache.c frees.
use concurrent_http_proxy_se.Base.{
  ℕ, zero, suc, ◌+◌, ◌≤◌, and_both, ◌≡◌, refl, sym, ap, ◌∙◌, subst, arith, ltb, leb, ◌==◌, length,
  Bool, true, false, not, ◌&&◌, List, [], ◌∷◌, ◌++◌, append-nil, mem, mem-append, mem→NotIn,
  NotIn-append, Nodup, Ptr, update,
}
use concurrent_http_proxy_se.Cache.{
  Cache, bucket_of, bucket_count, destroy_entry, destroy_chain, destroy_buckets, destroy,
}
use concurrent_http_proxy_se.Cache.Chain.{Chain, length-le_of_subset}
use concurrent_http_proxy_se.Cache.Invariant.{IsCache}

-- `alive` once the entries of a list are destroyed.
abbrev freed_from : (ℕ → Bool) → List ℕ → ℕ → Bool
freed_from alive [] = alive
freed_from alive (p ∷ l) = freed_from (update alive p false) l

freed_from_lem :
    (alive : ℕ → Bool) (l : List ℕ) (q : ℕ) → freed_from alive l q ≡ (alive q && not (mem q l))
freed_from_lem alive [] q = ground arith
freed_from_lem alive (p ∷ l) q = ground (arith, freed_from_lem (update alive p false) l q)

freed_from-append :
    (alive : ℕ → Bool) (l m : List ℕ)
    → freed_from (freed_from alive l) m ≡ freed_from alive (l ++ m)
freed_from-append alive [] m = refl
freed_from-append alive (p ∷ l) m = freed_from-append (update alive p false) l m

abbrev cleared : Cache → List ℕ → Cache
cleared c l = record c { alive = freed_from c.alive l }

destroy_chain-cleared :
    (fuel : ℕ) (c : Cache) (s : Ptr) (l : List ℕ)
    → Chain c.bucket_next s l
    → length l ≤ fuel
    → destroy_chain fuel c s ≡ (cleared c l, l)
unfolding destroy_chain destroy_entry
destroy_chain-cleared fuel c s [] h short = ap (destroy_chain fuel c) h
destroy_chain-cleared zero c s (p ∷ l) h short = absurd (omega (arith, short))
destroy_chain-cleared (suc fuel) c s (p ∷ l) h short =
    ap (destroy_chain (suc fuel) c) h.0
    ∙ ap (λ r. (r.0, p ∷ r.1))
        (destroy_chain-cleared fuel (destroy_entry c p) (c.bucket_next p) l h.1
          (omega (arith, short)))

-- The entries of `count` buckets from `index` on.
joined : (ℕ → List ℕ) → (count index : ℕ) → List ℕ
joined chains zero index = []
joined chains (suc count) index = chains index ++ joined chains count (suc index)

destroy_buckets-cleared :
    (count index : ℕ) (c : Cache) (chains : ℕ → List ℕ)
    → ((i : ℕ) → Chain c.bucket_next (c.buckets i) (chains i))
    → ((i : ℕ) → length (chains i) ≤ c.lru_list.entry_count)
    → destroy_buckets count index c
      ≡ (cleared c (joined chains count index), joined chains count index)
unfolding destroy_buckets joined
destroy_buckets-cleared zero index c chains h short = refl
destroy_buckets-cleared (suc count) index c chains h short =
    let first =
      destroy_chain-cleared c.lru_list.entry_count c (c.buckets index) (chains index) (h index)
        (short index) in
    let rest =
      destroy_buckets-cleared count (suc index) (cleared c (chains index)) chains h short in
    ap
      (λ r. (
        (destroy_buckets count (suc index) r.0).0,
        r.1 ++ (destroy_buckets count (suc index) r.0).1,
      ))
      first
    ∙ ap (λ r. (r.0, chains index ++ r.1)) rest
    ∙ ap (λ f. (record c { alive = f }, chains index ++ joined chains count (suc index)))
        (freed_from-append c.alive (chains index) (joined chains count (suc index)))

Nodup-append :
    (l m : List ℕ)
    → Nodup l
    → Nodup m
    → ((q : ℕ) → mem q l ≡ true → mem q m ≡ false)
    → Nodup (l ++ m)
Nodup-append [] m a b apart = b
Nodup-append (x ∷ l) m a b apart = (
  NotIn-append x l m a.0 (mem→NotIn x m (apart x (ground arith))),
  Nodup-append l m a.1 b (λ q h. apart q (ground (arith, h))),
)

module _ {c : Cache} {order : List ℕ} (t : IsCache c order) where
  placed_alive : (i p : ℕ) → mem p (t.chains i) ≡ (c.alive p && (i == bucket_of (c.key p)))
  placed_alive i p = t.placed i p ∙ ap (λ b. b && (i == bucket_of (c.key p))) (sym (t.live p))

  mem-joined :
      (count index p : ℕ)
      → mem p (joined t.chains count index) ≡ (
          c.alive p
          && (leb index (bucket_of (c.key p)) && ltb (bucket_of (c.key p)) (index + count)))
  unfolding joined
  mem-joined zero index p = ground arith
  mem-joined (suc count) index p = ground (
    arith,
    mem-append p (t.chains index) (joined t.chains count (suc index)),
    placed_alive index p,
    mem-joined count (suc index) p,
  )

  joined-Nodup : (count index : ℕ) → Nodup (joined t.chains count index)
  unfolding joined
  joined-Nodup zero index = tt
  joined-Nodup (suc count) index =
      Nodup-append (t.chains index) (joined t.chains count (suc index)) (t.distinct index)
        (joined-Nodup count (suc index))
        (λ q h. ground (arith, h, placed_alive index q, mem-joined count (suc index) q))

  all_joined : (p : ℕ) → mem p (joined t.chains bucket_count 0) ≡ c.alive p
  all_joined p = ground (arith, mem-joined bucket_count 0 p)

  short : (i : ℕ) → length (t.chains i) ≤ c.lru_list.entry_count
  short i = omega (
    arith,
    length-le_of_subset (t.chains i) (order ++ []) (t.distinct i)
        (λ q h. (and_both (mem q (order ++ [])) _ (sym (t.placed i q) ∙ h)).0),
    ap length (append-nil order),
    t.linked.count,
  )

-- What cache_destroy does to a well-formed cache: it destroys every allocated entry exactly once, no
-- other address, and afterwards no entry is allocated.
pub destroy_frees :
    {c : Cache} {order : List ℕ}
    → IsCache c order
    → Nodup (destroy c).1
      × ((p : ℕ) → mem p (destroy c).1 ≡ c.alive p)
      × ((p : ℕ) → (destroy c).0.alive p ≡ false)
unfolding destroy
destroy_frees {c} t =
    let all = joined t.chains bucket_count 0 in
    let is = destroy_buckets-cleared bucket_count 0 c t.chains t.chained (short t) in
    (
      subst (λ r. Nodup r.1) (sym is) (joined-Nodup t bucket_count 0),
      (λ p. ap (λ r. mem p r.1) is ∙ all_joined t p),
      (λ p.
          ap (λ r. r.0.alive p) is ∙ freed_from_lem c.alive all p ∙ ground (arith, all_joined t p)),
    )
