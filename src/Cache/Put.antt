-- ===== src/Cache/Put.antt =====
-- cache_put of src/cache.c inserts in front and drops the least recently used keys that do not fit.
use concurrent_http_proxy_se.Base.{
  ℕ, ◌-◌, ◌<◌, ◌≤◌, ◌≡◌, ◌≢◌, refl, ap, sym, subst, ◌∙◌, append-nil, none, some, List, [], ◌∷◌,
  Bool, true, false, ◌||◌, arith, ltb, leb, ◌==◌, done, length, mem, inl, inr, Bool-cases,
}
use concurrent_http_proxy_se.Bytes.{Bytes}
use concurrent_http_proxy_se.Cache.{
  Cache, Allocation, over, evict_if_needed, put_locked, put, find_entry,
}
use concurrent_http_proxy_se.Cache.Evict.{keep, kept, Evicted, evict_if_needed-Evicted, over-exact}
use concurrent_http_proxy_se.Cache.Insert.{inserted, inserted-IsCache, insert_entry-inserted}
use concurrent_http_proxy_se.Cache.Invariant.{IsCache, contents, contents-same}
use concurrent_http_proxy_se.Cache.Rewrite.{Outcome, value, exact, small, mem-keep, contents-new}
use concurrent_http_proxy_se.Cache.Spec.{
  Contents, Holds, Lacks, remove, room, drops, contents-keep, length-contents,
}

Lacks-keep :
    (c d : Cache) (key : Bytes) (size : ℕ → ℕ) (b : ℕ) (l : List ℕ)
    → d.key ≡ c.key
    → Lacks c key l
    → Lacks d key (keep size b l)
unfolding keep
Lacks-keep c d key size b [] k h = tt
Lacks-keep c d key size b (p ∷ l) k h = elim (Bool-cases (leb (size p) b)) [
  | inl fits ↦
      rw fits (subst (λ f. f p ≢ key) (sym k) h.0, Lacks-keep c d key size (b - size p) l k h.1)
  | inr big ↦ rw big tt
]

-- All three allocations succeed, and the entry is at `p`.
abbrev pub allocated : ℕ → Allocation
allocated p = record { entry = some p; key = true; bytes = true }

-- Both limits and NULL are checked before anything else.
pub put_locked-put :
    (c : Cache) (key bytes : Bytes) (size : ℕ) (a : Allocation) (before : Bool)
    → 0 < size
    → size ≤ c.max_object_size_bytes
    → size ≤ c.max_total_size_bytes
    → put c (some key) (some bytes) size a before ≡ put_locked c key bytes size a
unfolding put
put_locked-put c key bytes size a before filled fits small =
    let e0 : (size == 0) ≡ false = ground arith in
    let e1 : ltb c.max_object_size_bytes size ≡ false = ground arith in
    let e2 : ltb c.max_total_size_bytes size ≡ false = ground arith in rw (e0, e1, e2)

module _ {total object : ℕ} {c : Cache} {m : Contents} (key bytes : Bytes) (size : ℕ)
    (h : Holds total object c m) (filled : 0 < size) (fits : size ≤ object)
    (enough : size ≤ length bytes) where
  module _ (order : List ℕ) (t : IsCache c order) (is : contents c order ≡ m)
      (lacks : Lacks c key order) (miss : find_entry c key ≡ none) (others : remove key m ≡ m) where
    abbrev pub emptied : Cache
    emptied = (evict_if_needed c size false).0

    pub emptied-Evicted : Evicted c order [] size false emptied (evict_if_needed c size false).1
    emptied-Evicted =
        evict_if_needed-Evicted c order [] size false t (omega arith)
          (small key bytes size h filled fits enough)

    abbrev pub left : List ℕ
    left = kept c size order

    contents-left : contents emptied left ≡ room total key size m
    unfolding room
    contents-left =
        contents-same c emptied left emptied-Evicted.same.key emptied-Evicted.same.bytes
        ∙ contents-keep c (c.max_total_size_bytes - size) order
            (λ q n. t.entries q (rw append-nil n))
        ∙ rw (others, ← h.total_limit, is)

    pub drops-left : (ltb (length left) (length order) || false) ≡ drops total key size m
    drops-left =
        let kept_length : length (room total key size m) ≡ length left =
          ap length (sym contents-left) ∙ length-contents emptied left in
        let all_length : length (remove key m) ≡ length order =
          ap length (others ∙ sym is) ∙ length-contents c order in
        rw (kept_length, all_length) (ground arith)

    pub not_over : over emptied size ≡ false
    not_over =
        over-exact size emptied-Evicted.table (omega (arith, emptied-Evicted.room))
        ∙ ground (arith, emptied-Evicted.room)

    pub emptied-Holds : Holds total object emptied (room total key size m)
    emptied-Holds = record {
      order = left;
      table = emptied-Evicted.table;
      holds = contents-left;
      total_limit = emptied-Evicted.same.total ∙ h.total_limit;
      object_limit = emptied-Evicted.same.object ∙ h.object_limit;
    }

    pub still_fresh : (p : ℕ) → c.alive p ≡ false → emptied.alive p ≡ false
    still_fresh p fresh =
        emptied-Evicted.table.live p
        ∙ ap (mem p) (append-nil left)
        ∙ not_kept p (sym (ap (mem p) (append-nil order)) ∙ sym (t.live p) ∙ fresh)
      where
        not_kept : (p : ℕ) → mem p order ≡ false → mem p left ≡ false
        not_kept p out =
            ground (arith, mem-keep c.size_bytes (c.max_total_size_bytes - size) order p)

    -- With memory for the entry, it is inserted in front of what is left.
    pub insert-Outcome :
        (p : ℕ)
        → c.alive p ≡ false
        → Outcome total object done
            (drops total key size m)
            ((key, value key bytes size h filled fits enough) ∷ room total key size m)
            (put_locked c key bytes size (allocated p))
    unfolding put_locked
    insert-Outcome p fresh =
        let v = value key bytes size h filled fits enough in
        let t' = emptied-Evicted.table in
        let fresh' = still_fresh p fresh in
        let lacks' =
          Lacks-keep c emptied key c.size_bytes (c.max_total_size_bytes - size) order
            emptied-Evicted.same.key lacks in
        let s = inserted t' p key v fresh' lacks' size in
        let reached =
          insert_entry-inserted t' p key v fresh' lacks' size bytes refl emptied-Evicted.room in
        let ready =
          inserted-IsCache t' p key v fresh' lacks' size (exact key bytes size h filled fits enough)
            filled (omega (arith, emptied-Evicted.same.object, h.object_limit))
            emptied-Evicted.room in
        rw (miss, put_locked)
          (rw (not_over, reached)
            record {
              answers = refl;
              reports = emptied-Evicted.flag ∙ drops-left;
              leaves = record {
                order = p ∷ left;
                table = ready;
                holds =
                    contents-new emptied s p left key v refl refl ready.linked.nodup.0
                    ∙ ap (λ l. (key, v) ∷ l) contents-left;
                total_limit = emptied-Evicted.same.total ∙ h.total_limit;
                object_limit = emptied-Evicted.same.object ∙ h.object_limit;
              };
            })
