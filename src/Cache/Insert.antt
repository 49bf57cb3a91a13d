-- ===== src/Cache/Insert.antt =====
-- The insertion of a new entry in src/cache.c: into its bucket and in front of the list.
use native.Mathlib.Nat.{mod-eq_of_lt}
use concurrent_http_proxy_se.Base.{
  ℕ, ◌+◌, ◌<◌, ◌≤◌, ◌%◌, ◌^◌, ◌≡◌, ◌≢◌, ap, sym, ◌∙◌, append-nil, some, List, [], ◌∷◌, ◌++◌, Bool,
  true, false, ◌&&◌, ◌||◌, arith, ◌==◌, ==_iff, if◌then◌else◌, length, take, update, mem, mem→NotIn,
  NotIn, NotIn→mem, Nodup, inl, inr, ◌⊎◌, Ptr, Bool-cases,
}
use concurrent_http_proxy_se.Bytes.{Bytes}
use concurrent_http_proxy_se.Cache.{Cache, bucket_of, insert_entry}
use concurrent_http_proxy_se.Cache.Chain.{Chain, Chain-out}
use concurrent_http_proxy_se.Cache.Find.{Lacks-mem}
use concurrent_http_proxy_se.Cache.Invariant.{IsEntry, IsCache, length-order, sum_sizes-out}
use concurrent_http_proxy_se.Cache.Spec.{Lacks}
use concurrent_http_proxy_se.Lru
use concurrent_http_proxy_se.Lru.Ordering.{attach_front-IsOrder}

update-true : (f : ℕ → Bool) (p q : ℕ) → update f p true q ≡ ((q == p) || f q)
update-true f p q = ground arith

module _ {c : Cache} {order : List ℕ} (t : IsCache c order) (p : ℕ) (key bytes : Bytes)
    (fresh : c.alive p ≡ false) (lacks : Lacks c key order) where
  abbrev index : ℕ
  index = bucket_of key

  absent : mem p order ≡ false
  absent = ap (mem p) (sym (append-nil order)) ∙ sym (t.live p) ∙ fresh

  absent_pinned : mem p (order ++ []) ≡ false
  absent_pinned = sym (t.live p) ∙ fresh

  unchained : (j : ℕ) → NotIn p (t.chains j)
  unchained j = mem→NotIn p (t.chains j) (ground (arith, t.placed j p, absent_pinned))

  abbrev chains_with : ℕ → List ℕ
  chains_with j = if j == index then p ∷ t.chains j else t.chains j

  abbrev next_with : ℕ → Ptr
  next_with = update c.bucket_next p (c.buckets index)

  chained_with : (j : ℕ) → Chain next_with (update c.buckets index (some p) j) (chains_with j)
  chained_with j = elim (Bool-cases (j == index)) [
    | inl e ↦
        let hit : next_with p ≡ c.buckets index = ground arith in
        let here : update c.buckets index (some p) index ≡ some p = ground arith in
        rw (e, (==_iff j index).0 e)
          (
            here,
            rw hit (
                Chain-out c.bucket_next p (c.buckets index) (c.buckets index) (t.chains index)
                  (unchained index) (t.chained index)),
          )
    | inr ne ↦
        let skip : update c.buckets index (some p) j ≡ c.buckets j = ground arith in
        rw (ne, skip)
          (Chain-out c.bucket_next p (c.buckets index) (c.buckets j) (t.chains j) (unchained j)
            (t.chained j))
  ]

  distinct_with : (j : ℕ) → Nodup (chains_with j)
  distinct_with j = elim (Bool-cases (j == index)) [
    | inl e ↦ rw e (unchained j, t.distinct j)
    | inr ne ↦ rw ne (t.distinct j)
  ]

  mem-chains_with :
      (j q : ℕ) → mem q (chains_with j) ≡ (((q == p) && (j == index)) || mem q (t.chains j))
  mem-chains_with j q = ground arith

  key_self : update c.key p key p ≡ key
  key_self = ground arith

  key_other : (q : ℕ) → (q == p) ≡ false → update c.key p key q ≡ c.key q
  key_other q ne = ground arith

  placed_with :
      (j q : ℕ)
      → mem q (chains_with j)
        ≡ (mem q (p ∷ (order ++ [])) && (j == bucket_of (update c.key p key q)))
  placed_with j q = elim (Bool-cases (q == p)) [
    | inl e ↦
        rw (mem-chains_with j q, (==_iff q p).0 e, key_self, NotIn→mem p (t.chains j) (unchained j))
          (ground arith)
    | inr ne ↦ rw (mem-chains_with j q, ne, key_other q ne, t.placed j q)
  ]

  -- No entry of the table has the new key.
  not_key : (q : ℕ) → mem q (order ++ []) ≡ true → c.key q ≢ key
  not_key q m = Lacks-mem c key order q lacks (ap (mem q) (sym (append-nil order)) ∙ m)

  keys_with :
      (q r : ℕ)
      → mem q (p ∷ (order ++ [])) ≡ true
      → mem r (p ∷ (order ++ [])) ≡ true
      → update c.key p key q ≡ update c.key p key r
      → q ≡ r
  keys_with q r mq mr e = elim (Bool-cases (q == p)) [
    | inl eq ↦ elim (Bool-cases (r == p)) [
      | inl er ↦ ground arith
      | inr nr ↦ absurd (
          not_key r (ground arith)
            (sym (key_other r nr) ∙ sym e ∙ ap (update c.key p key) ((==_iff q p).0 eq) ∙ key_self))
    ]
    | inr nq ↦ elim (Bool-cases (r == p)) [
      | inl er ↦ absurd (
          not_key q (ground arith)
            (sym (key_other q nq) ∙ e ∙ ap (update c.key p key) ((==_iff r p).0 er) ∙ key_self))
      | inr nr ↦
          t.keys q r (ground arith) (ground arith) (sym (key_other q nq) ∙ e ∙ key_other r nr)
    ]
  ]

  -- The state with the entry, before its size is counted on size_t.
  abbrev pub inserted : ℕ → Cache
  inserted n = record c {
    buckets = update c.buckets index (some p);
    bucket_next = next_with;
    key = update c.key p key;
    data_of = update c.data_of p bytes;
    size_bytes = update c.size_bytes p n;
    alive = update c.alive p true;
    lru_list = Lru.attach_front c.lru_list (some p);
    current_size_bytes = c.current_size_bytes + n;
  }

  IsEntry-with :
      (n : ℕ)
      → length bytes ≡ n
      → 0 < n
      → n ≤ c.max_object_size_bytes
      → (q : ℕ) → mem q (p ∷ (order ++ [])) ≡ true
      → ((q == p) ≡ true) ⊎ ((q == p) ≡ false)
      → IsEntry (inserted n) q
  IsEntry-with n exact filled fits q m (inl e) =
      let self : q ≡ p = (==_iff q p).0 e in
      rw self record { exact = ground arith; filled = ground arith; fits = ground arith }
  IsEntry-with n exact filled fits q m (inr ne) =
      let e = t.entries q (ground arith) in
      record {
        exact = ground (arith, e.exact);
        filled = ground (arith, e.filled);
        fits = ground (arith, e.fits);
      }

  pub inserted-IsCache :
      (n : ℕ)
      → length bytes ≡ n
      → 0 < n
      → n ≤ c.max_object_size_bytes
      → c.current_size_bytes + n ≤ c.max_total_size_bytes
      → IsCache (inserted n) (p ∷ order)
  inserted-IsCache n exact filled fits small = record {
    chains = chains_with;
    linked =
        attach_front-IsOrder c.lru_list order p t.linked (mem→NotIn p order absent)
          (omega (arith, length-order t));
    chained = chained_with;
    distinct = distinct_with;
    placed = placed_with;
    unique = (mem→NotIn p (order ++ []) absent_pinned, t.unique);
    keys = keys_with;
    entries = λ q m. IsEntry-with n exact filled fits q m (Bool-cases (q == p));
    live = λ q. rw (← t.live q) (update-true c.alive p q);
    counted =
        ground (arith, t.counted, sum_sizes-out c.size_bytes p n order (mem→NotIn p order absent));
    bounded = small;
    object = t.object;
    word = t.word;
  }

  -- The code reaches that state: the sum does not wrap around.
  pub insert_entry-inserted :
      (size : ℕ) (data_bytes : Bytes)
      → take size data_bytes ≡ bytes
      → c.current_size_bytes + size ≤ c.max_total_size_bytes
      → insert_entry c p key data_bytes size ≡ inserted size
  unfolding insert_entry
  insert_entry-inserted size data_bytes e small =
      let exact : (c.current_size_bytes + size) % 2 ^ 64 ≡ c.current_size_bytes + size =
        mod-eq_of_lt {n = c.current_size_bytes + size} {m = 2 ^ 64} (omega (arith, t.word)) in
      rw (e, exact)
