-- ===== src/Cache/Drop.antt =====
-- One round of the eviction loop of src/cache.c: the entry at the back leaves the list, its bucket
-- and memory.
use concurrent_http_proxy_se.Base.{
  ℕ, ◌+◌, ◌-◌, ◌≤◌, ◌≡◌, refl, ap, sym, subst, ◌∙◌, append_assoc, none, List, [], ◌∷◌, ◌++◌, Bool,
  true, false, ◌&&◌, not, arith, ltb, ◌==◌, update, length, length-append, mem, mem-append, mem-mid,
  Nodup, Nodup-mid,
}
use concurrent_http_proxy_se.Cache.{Cache, bucket_of, remove_from_bucket, drop_entry}
use concurrent_http_proxy_se.Cache.Chain.{unlink_from-relink}
use concurrent_http_proxy_se.Cache.Unlink.{
  Place, place, buckets_after, next_after, relink_bucket-fields, before_short, split_chained,
  split_distinct, chains_after, chained_after, distinct_after, mem-chains_after,
}
use concurrent_http_proxy_se.Cache.Invariant.{sum_sizes, sum_sizes-append, IsTable}
use concurrent_http_proxy_se.Lru.{Lru}
use concurrent_http_proxy_se.Lru.Ordering.{IsOrder}
use concurrent_http_proxy_se.Lru.Segment.{last}

pub and_left : (a b : Bool) → (a && b) ≡ true → a ≡ true
and_left true b h = refl
and_left false b h = h

and_right_comm : (a b d : Bool) → ((a && b) && d) ≡ ((a && d) && b)
and_right_comm a b d = ground arith

update-false : (f : ℕ → Bool) (z q : ℕ) → update f z false q ≡ (f q && not (q == z))
update-false f z q = ground arith

module _ {c : Cache} (xs : List ℕ) (z : ℕ) (pins : List ℕ) (t : IsTable c (xs ++ z ∷ []) pins) where
  pub last_here : mem z ((xs ++ z ∷ []) ++ pins) ≡ true
  last_here = ground (arith, mem-append z (xs ++ z ∷ []) pins, mem-append z xs (z ∷ []))

  abbrev pub at : Place t z
  at = place t z last_here

  abbrev pub dropped : Lru → Cache
  dropped lru_list =
      let i = bucket_of (c.key z) in
      let b = last at.before none in
      record c {
        buckets = buckets_after c i b (c.bucket_next z);
        bucket_next = next_after c i b (c.bucket_next z);
        alive = update c.alive z false;
        lru_list = lru_list;
        current_size_bytes = c.current_size_bytes - c.size_bytes z;
      }

  pub size_counted : c.current_size_bytes ≡ sum_sizes c.size_bytes xs + c.size_bytes z
  size_counted = omega (arith, t.counted, sum_sizes-append c.size_bytes xs (z ∷ []))

  removed :
      (lru_list : Lru)
      → IsOrder lru_list xs
      → length pins ≤ 1
      → remove_from_bucket (record c { lru_list = lru_list }) z ≡ record c {
        buckets = buckets_after c (bucket_of (c.key z)) (last at.before none) (c.bucket_next z);
        bucket_next = next_after c (bucket_of (c.key z)) (last at.before none) (c.bucket_next z);
        lru_list = lru_list;
      }
  unfolding remove_from_bucket
  removed lru_list o few =
      let i = bucket_of (c.key z) in
      unlink_from-relink (lru_list.entry_count + 2) (record c { lru_list = lru_list }) i z none
        (c.buckets i) at.before at.behind (split_chained t z last_here at)
        (Nodup-mid at.before z at.behind (split_distinct t z last_here at)).0
        (omega (arith, o.count, before_short t z last_here at, length-append xs (z ∷ [])))
      ∙ relink_bucket-fields (record c { lru_list = lru_list }) i (last at.before none)
          (c.bucket_next z)

  pub drop_entry-dropped :
      (lru_list : Lru)
      → IsOrder lru_list xs
      → length pins ≤ 1
      → drop_entry c lru_list z ≡ dropped lru_list
  unfolding drop_entry
  drop_entry-dropped lru_list o few =
      let enough : ltb c.current_size_bytes (c.size_bytes z) ≡ false =
        ground (arith, size_counted) in
      rw (removed lru_list o few) (rw enough)

  mem_rest : (q : ℕ) → mem q (xs ++ pins) ≡ (mem q ((xs ++ z ∷ []) ++ pins) && not (q == z))
  mem_rest q =
      let nd = subst Nodup (append_assoc xs (z ∷ []) pins) t.unique in
      mem-mid q xs z pins nd
      ∙ ap (λ l. mem q l && not (q == z)) (sym (append_assoc xs (z ∷ []) pins))

  mem_all : (q : ℕ) → mem q (xs ++ pins) ≡ true → mem q ((xs ++ z ∷ []) ++ pins) ≡ true
  mem_all q h = and_left (mem q ((xs ++ z ∷ []) ++ pins)) (not (q == z)) (sym (mem_rest q) ∙ h)

  pub dropped-IsTable : (lru_list : Lru) → IsOrder lru_list xs → IsTable (dropped lru_list) xs pins
  dropped-IsTable lru_list o = record {
    chains = chains_after t z last_here at;
    linked = o;
    chained = chained_after t z last_here at;
    distinct = distinct_after t z last_here at;
    placed = λ i p.
        rw (mem-chains_after t z last_here at i p, t.placed i p, mem_rest p)
          (and_right_comm (mem p ((xs ++ z ∷ []) ++ pins)) (i == bucket_of (c.key p))
            (not (p == z)));
    unique = (Nodup-mid xs z pins (subst Nodup (append_assoc xs (z ∷ []) pins) t.unique)).2;
    keys = λ p q hp hq e. t.keys p q (mem_all p hp) (mem_all q hq) e;
    entries = λ p h.
        let e = t.entries p (mem_all p h) in
        record { exact = e.exact; filled = e.filled; fits = e.fits };
    live = λ p. rw (mem_rest p, ← t.live p) (update-false c.alive z p);
    counted = omega (arith, size_counted);
    bounded = omega (arith, t.bounded);
    object = t.object;
    word = t.word;
  }
