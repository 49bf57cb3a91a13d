-- ===== src/Cache/Invariant.antt =====
-- The well-formedness of the cache of src/cache.c, and what it holds.
use concurrent_http_proxy_se.Base.{
  ℕ, ◌+◌, ◌<◌, ◌≤◌, ◌^◌, ◌≡◌, refl, ap, List, [], ◌∷◌, ◌++◌, true, ◌&&◌, arith, ◌==◌, sym, ◌∙◌,
  NotIn, update, length, mem, mem-append, Nodup,
}
use concurrent_http_proxy_se.Bytes.{Bytes}
use concurrent_http_proxy_se.Cache.{Cache, bucket_of}
use concurrent_http_proxy_se.Cache.Chain.{Chain}
use concurrent_http_proxy_se.Lru.{Lru}
use concurrent_http_proxy_se.Lru.Ordering.{IsOrder}

-- The sizes of the entries at the addresses of `l`.
abbrev pub sum_sizes : (ℕ → ℕ) → List ℕ → ℕ
sum_sizes size [] = 0
sum_sizes size (p ∷ l) = size p + sum_sizes size l

pub sum_sizes-append :
    (size : ℕ → ℕ) (xs ys : List ℕ)
    → sum_sizes size (xs ++ ys) ≡ sum_sizes size xs + sum_sizes size ys
sum_sizes-append size [] ys = omega arith
sum_sizes-append size (x ∷ xs) ys = omega (arith, sum_sizes-append size xs ys)

-- An entry holds as many bytes as it says, at least one, and no more than an object may have.
pub record IsEntry (c : Cache) (p : ℕ) : Type 0 where
  pub exact : length (c.data_of p) ≡ c.size_bytes p
  pub filled : 0 < c.size_bytes p
  pub fits : c.size_bytes p ≤ c.max_object_size_bytes

-- The list holds `order`, the most recently used entry first; the table holds these entries and
-- those of `pins`, which are off the list while they are being replaced.
pub record IsTable (c : Cache) (order pins : List ℕ) : Type 0 where
  pub chains : ℕ → List ℕ
  pub linked : IsOrder c.lru_list order
  pub chained : (i : ℕ) → Chain c.bucket_next (c.buckets i) (chains i)
  pub distinct : (i : ℕ) → Nodup (chains i)
  pub placed : (i p : ℕ) → mem p (chains i) ≡ (mem p (order ++ pins) && (i == bucket_of (c.key p)))
  pub unique : Nodup (order ++ pins)
  pub keys :
      (p q : ℕ)
      → mem p (order ++ pins) ≡ true
      → mem q (order ++ pins) ≡ true
      → c.key p ≡ c.key q
      → p ≡ q
  pub entries : (p : ℕ) → mem p (order ++ pins) ≡ true → IsEntry c p
  pub live : (p : ℕ) → c.alive p ≡ mem p (order ++ pins)
  pub counted : c.current_size_bytes ≡ sum_sizes c.size_bytes order
  pub bounded : c.current_size_bytes ≤ c.max_total_size_bytes
  pub object : c.max_object_size_bytes ≤ c.max_total_size_bytes
  pub word : c.max_total_size_bytes < 2 ^ 63

-- Between operations nothing is pinned.
abbrev pub IsCache : Cache → List ℕ → Type 0
IsCache c order = IsTable c order []

-- What the entries hold, in the order of the list.
abbrev pub entry_at : Cache → ℕ → Bytes × Bytes
entry_at c p = (c.key p, c.data_of p)

unfoldable pub contents : Cache → List ℕ → List (Bytes × Bytes)
contents c [] = []
contents c (p ∷ l) = entry_at c p ∷ contents c l

pub contents-append :
    (c : Cache) (xs ys : List ℕ) → contents c (xs ++ ys) ≡ contents c xs ++ contents c ys
unfolding contents
contents-append c [] ys = refl
contents-append c (x ∷ xs) ys = ap (λ t. entry_at c x ∷ t) (contents-append c xs ys)

pub contents-same :
    (c d : Cache) (l : List ℕ) → d.key ≡ c.key → d.data_of ≡ c.data_of → contents d l ≡ contents c l
unfolding contents
contents-same c d [] hk hd = refl
contents-same c d (x ∷ l) hk hd = rw (hk, hd, contents-same c d l hk hd)

-- There are no more entries than bytes.
pub length-le-sum_sizes :
    (c : Cache) (l : List ℕ)
    → ((p : ℕ) → mem p l ≡ true → IsEntry c p)
    → length l ≤ sum_sizes c.size_bytes l
length-le-sum_sizes c [] h = omega arith
length-le-sum_sizes c (p ∷ l) h =
    omega (arith, (h p (ground arith)).filled, length-le-sum_sizes c l (λ q m. h q (ground arith)))

-- An address in either part of the table is in the table.
pub mem-order : (p : ℕ) (order pins : List ℕ) → mem p order ≡ true → mem p (order ++ pins) ≡ true
mem-order p order pins h = ground (arith, mem-append p order pins)

module _ {c : Cache} {order pins : List ℕ} (t : IsTable c order pins) where
  pub length-order : length order < 2 ^ 63
  length-order = omega (
    arith,
    length-le-sum_sizes c order (λ p h. t.entries p (mem-order p order pins h)),
    t.counted,
    t.bounded,
    t.word,
  )

  -- The same table with another list order and size count.
  pub reordered :
      (lru_list : Lru) (size : ℕ) (order' pins' : List ℕ)
      → IsOrder lru_list order'
      → ((q : ℕ) → mem q (order' ++ pins') ≡ mem q (order ++ pins))
      → Nodup (order' ++ pins')
      → size ≡ sum_sizes c.size_bytes order'
      → size ≤ c.max_total_size_bytes
      → IsTable (record c { lru_list = lru_list; current_size_bytes = size }) order' pins'
  reordered lru_list size order' pins' o same nd sum small = record {
    chains = t.chains;
    linked = o;
    chained = t.chained;
    distinct = t.distinct;
    placed = λ i p. rw (same p) (t.placed i p);
    unique = nd;
    keys = λ p q hp hq e. t.keys p q (sym (same p) ∙ hp) (sym (same q) ∙ hq) e;
    entries = λ p h.
        let e = t.entries p (sym (same p) ∙ h) in
        record { exact = e.exact; filled = e.filled; fits = e.fits };
    live = λ p. rw (same p) (t.live p);
    counted = sum;
    bounded = small;
    object = t.object;
    word = t.word;
  }

pub sum_sizes-out :
    (size : ℕ → ℕ) (p n : ℕ) (l : List ℕ)
    → NotIn p l
    → sum_sizes (update size p n) l ≡ sum_sizes size l
sum_sizes-out size p n [] h = refl
sum_sizes-out size p n (x ∷ l) h = ground (arith, sum_sizes-out size p n l h.1)

-- New data for the entry in front.
pub rewritten :
    {c : Cache} {p : ℕ} {l : List ℕ} (t : IsTable c (p ∷ l) []) (bytes : Bytes) (n size : ℕ)
    → length bytes ≡ n
    → 0 < n
    → n ≤ c.max_object_size_bytes
    → size ≡ n + sum_sizes c.size_bytes l
    → size ≤ c.max_total_size_bytes
    → IsTable
        (record c {
          data_of = update c.data_of p bytes;
          size_bytes = update c.size_bytes p n;
          current_size_bytes = size;
        })
        (p ∷ l)
        []
rewritten {c} {p} {l} t bytes n size exact filled fits sum small = record {
  chains = t.chains;
  linked = t.linked;
  chained = t.chained;
  distinct = t.distinct;
  placed = t.placed;
  unique = t.unique;
  keys = t.keys;
  entries = λ q h.
      let e = t.entries q h in
      record {
        exact = ground (arith, e.exact);
        filled = ground (arith, e.filled);
        fits = ground (arith, e.fits);
      };
  live = t.live;
  counted = ground (arith, sum_sizes-out c.size_bytes p n l t.linked.nodup.0);
  bounded = small;
  object = t.object;
  word = t.word;
}
