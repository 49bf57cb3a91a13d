-- ===== src/Cache/Replace.antt =====
-- cache_replace_entry_locked of src/cache.c: new data for a key that the cache has.
use native.Mathlib.Nat.{mod-eq_of_lt}
use concurrent_http_proxy_se.Base.{
  ℕ, ◌+◌, ◌-◌, ◌<◌, ◌≤◌, ◌^◌, ◌≡◌, append-nil, some, List, [], ◌∷◌, ◌++◌, Bool, true, false, arith,
  ltb, lt→ltb, done, failed, add_size, sub_size, take, update, mem, mem-append, mem→NotIn, NotIn,
  NotIn→mem, Nodup, Nodup-mid,
}
use concurrent_http_proxy_se.Bytes.{Bytes}
use concurrent_http_proxy_se.Cache.{Cache, replace_entry, evict_if_needed}
use concurrent_http_proxy_se.Cache.Evict.{keep, Evicted, evict_if_needed-Evicted}
use concurrent_http_proxy_se.Cache.Get.{Nodup-front}
use concurrent_http_proxy_se.Cache.Invariant.{
  IsTable, IsCache, length-order, reordered, sum_sizes, sum_sizes-append,
}
use concurrent_http_proxy_se.Lru
use concurrent_http_proxy_se.Lru.{Lru}
use concurrent_http_proxy_se.Lru.Ordering.{
  detach-IsOrder, attach_front-IsOrder, move_to_front_head, attach_front-head,
}

-- Both orders of `xs ++ p ∷ ys` with `p` taken out have the same members.
mem-pinned :
    (q : ℕ) (xs : List ℕ) (p : ℕ) (ys : List ℕ)
    → mem q ((xs ++ ys) ++ p ∷ []) ≡ mem q ((xs ++ p ∷ ys) ++ [])
mem-pinned q xs p ys = ground (
  arith,
  mem-append q (xs ++ ys) (p ∷ []),
  mem-append q xs ys,
  mem-append q (xs ++ p ∷ ys) [],
  mem-append q xs (p ∷ ys),
)

mem-returned : (q : ℕ) (l : List ℕ) (p : ℕ) → mem q ((p ∷ l) ++ []) ≡ mem q (l ++ p ∷ [])
mem-returned q l p = ground (arith, mem-append q l (p ∷ []), mem-append q (p ∷ l) [])

Nodup-snoc : (l : List ℕ) (p : ℕ) → NotIn p l → Nodup l → Nodup (l ++ p ∷ [])
Nodup-snoc [] p out nd = (tt, tt)
Nodup-snoc (x ∷ l) p out nd = (
  mem→NotIn x (l ++ p ∷ []) (ground (arith, mem-append x l (p ∷ []), NotIn→mem x l nd.0)),
  Nodup-snoc l p out.1 nd.1,
)

-- The entry `p` off the list and out of the count, as the eviction meets it.
abbrev pub unpinned : Cache → ℕ → Cache
unpinned c p = record c {
  lru_list = Lru.detach c.lru_list (some p);
  current_size_bytes = c.current_size_bytes - c.size_bytes p;
}

pub size_of_mid :
    {c : Cache} (xs : List ℕ) (p : ℕ) (ys : List ℕ)
    → IsCache c (xs ++ p ∷ ys)
    → c.current_size_bytes ≡ sum_sizes c.size_bytes (xs ++ ys) + c.size_bytes p
size_of_mid {c} xs p ys t = omega (
  arith,
  t.counted,
  sum_sizes-append c.size_bytes xs (p ∷ ys),
  sum_sizes-append c.size_bytes xs ys,
)

pub pinned-IsTable :
    {c : Cache} (xs : List ℕ) (p : ℕ) (ys : List ℕ)
    → IsCache c (xs ++ p ∷ ys)
    → IsTable (unpinned c p) (xs ++ ys) (p ∷ [])
pinned-IsTable {c} xs p ys t =
    let (out_xs, out_ys, nd) = Nodup-mid xs p ys t.linked.nodup in
    let front = Nodup-front xs p ys t.linked.nodup in
    reordered t (Lru.detach c.lru_list (some p)) (c.current_size_bytes - c.size_bytes p) (xs ++ ys)
      (p ∷ []) (detach-IsOrder c.lru_list xs p ys t.linked) (λ q. mem-pinned q xs p ys)
      (Nodup-snoc (xs ++ ys) p front.0 nd) (omega (arith, size_of_mid xs p ys t))
      (omega (arith, t.bounded))

-- The pinned entry back on the list, in front, and counted with `n` bytes.
abbrev pub returned : Cache → ℕ → ℕ → Cache
returned d p n = record d {
  lru_list = Lru.attach_front d.lru_list (some p);
  current_size_bytes = d.current_size_bytes + n;
}

pub returned-IsCache :
    {d : Cache} (p : ℕ) (order : List ℕ)
    → IsTable d order (p ∷ [])
    → d.current_size_bytes + d.size_bytes p ≤ d.max_total_size_bytes
    → IsCache (returned d p (d.size_bytes p)) (p ∷ order)
returned-IsCache {d} p order t small =
    let nd = Nodup-mid order p [] t.unique in
    reordered t (Lru.attach_front d.lru_list (some p)) (d.current_size_bytes + d.size_bytes p)
      (p ∷ order) []
      (attach_front-IsOrder d.lru_list order p t.linked nd.0 (omega (arith, length-order t)))
      (λ q. mem-returned q order p) (rw append-nil (nd.0, t.linked.nodup))
      (omega (arith, t.counted)) small

module _ {c : Cache} (xs : List ℕ) (p : ℕ) (ys : List ℕ) (t : IsCache c (xs ++ p ∷ ys))
    (bytes : Bytes) (size : ℕ) (before : Bool) where
  abbrev old : ℕ
  old = c.size_bytes p

  -- The cache after the eviction that a larger value needs.
  abbrev pub emptied : Cache
  emptied = (evict_if_needed (unpinned c p) size before).0

  abbrev pub emptied_flag : Bool
  emptied_flag = (evict_if_needed (unpinned c p) size before).1

  abbrev pub rest : List ℕ
  rest = keep c.size_bytes (c.max_total_size_bytes - size) (xs ++ ys)

  pub emptied-Evicted :
      size ≤ c.max_total_size_bytes
      → Evicted (unpinned c p) (xs ++ ys) (p ∷ []) size before emptied emptied_flag
  emptied-Evicted small =
      evict_if_needed-Evicted (unpinned c p) (xs ++ ys) (p ∷ []) size before
        (pinned-IsTable xs p ys t) (omega arith) small

  sub_exact : sub_size c.current_size_bytes old ≡ c.current_size_bytes - old
  sub_exact = omega (arith, size_of_mid xs p ys t, t.bounded, t.word)

  -- The larger value is stored: no sum wraps around, and the entry is the head.
  abbrev pub stored_grown : Cache
  stored_grown = record (returned emptied p size) {
    data_of = update emptied.data_of p (take size bytes);
    size_bytes = update emptied.size_bytes p size;
  }

  pub replace_entry-grown :
      old < size
      → size ≤ c.max_total_size_bytes
      → replace_entry c p bytes size true before ≡ (done, emptied_flag, stored_grown)
  unfolding replace_entry
  replace_entry-grown grew small =
      let ev = emptied-Evicted small in
      let sum : add_size emptied.current_size_bytes size ≡ emptied.current_size_bytes + size =
        mod-eq_of_lt {n = emptied.current_size_bytes + size} {m = 2 ^ 64}
          (omega (arith, ev.room, ev.table.word)) in
      let enough : ltb emptied.max_total_size_bytes (emptied.current_size_bytes + size) ≡ false =
        ground (arith, ev.room) in
      rw (lt→ltb old size grew, sub_exact)
        (rw (sum, enough)
          (rw (
            move_to_front_head (Lru.attach_front emptied.lru_list (some p)) p
              (attach_front-head emptied.lru_list p))))

  pub replace_entry-grown_failed :
      old < size
      → size ≤ c.max_total_size_bytes
      → replace_entry c p bytes size false before ≡ (failed, emptied_flag, returned emptied p old)
  unfolding replace_entry
  replace_entry-grown_failed grew small =
      let ev = emptied-Evicted small in
      let sum : add_size emptied.current_size_bytes size ≡ emptied.current_size_bytes + size =
        mod-eq_of_lt {n = emptied.current_size_bytes + size} {m = 2 ^ 64}
          (omega (arith, ev.room, ev.table.word)) in
      let sum' : add_size emptied.current_size_bytes old ≡ emptied.current_size_bytes + old =
        mod-eq_of_lt {n = emptied.current_size_bytes + old} {m = 2 ^ 64}
          (omega (arith, ev.room, ev.table.word)) in
      let enough : ltb emptied.max_total_size_bytes (emptied.current_size_bytes + size) ≡ false =
        ground (arith, ev.room) in
      rw (lt→ltb old size grew, sub_exact) (rw (sum, enough) (rw sum'))

  -- A value that is no larger needs no eviction.
  abbrev pub stored_shrunk : Cache
  stored_shrunk = record c {
    data_of = update c.data_of p (take size bytes);
    size_bytes = update c.size_bytes p size;
    lru_list = Lru.move_to_front c.lru_list (some p);
    current_size_bytes = c.current_size_bytes - old + size;
  }

  pub replace_entry-shrunk :
      size ≤ old → replace_entry c p bytes size true before ≡ (done, before, stored_shrunk)
  unfolding replace_entry
  replace_entry-shrunk less =
      let sum : add_size (c.current_size_bytes - old) size ≡ c.current_size_bytes - old + size =
        mod-eq_of_lt {n = c.current_size_bytes - old + size} {m = 2 ^ 64}
          (omega (arith, size_of_mid xs p ys t, t.bounded, t.word)) in
      let no_growth : ltb old size ≡ false = ground arith in rw (no_growth, sub_exact) (rw sum)

  pub replace_entry-shrunk_failed :
      size ≤ old → replace_entry c p bytes size false before ≡ (failed, before, c)
  unfolding replace_entry
  replace_entry-shrunk_failed less =
      let sum : add_size (c.current_size_bytes - old) old ≡ c.current_size_bytes =
        omega (arith, size_of_mid xs p ys t, t.bounded, t.word) in
      let no_growth : ltb old size ≡ false = ground arith in rw (no_growth, sub_exact) (rw sum)
