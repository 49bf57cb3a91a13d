-- ===== src/Cache/Get.antt =====
-- cache_get of src/cache.c is a lookup that moves the key to the front.
use concurrent_http_proxy_se.Base.{
  ℕ, ◌≡◌, refl, ap, sym, subst, ◌∙◌, append-nil, Option, none, some, List, [], ◌∷◌, ◌++◌, true,
  false, arith, Ptr, Status, done, failed, length, take, mem, mem-append, NotIn-append, NotIn→mem,
  Nodup, Nodup-mid, inl, inr,
}
use concurrent_http_proxy_se.Bytes.{Bytes}
use concurrent_http_proxy_se.Cache.{Cache, Value, no_value, find_entry, get_entry, get}
use concurrent_http_proxy_se.Cache.Find.{Lacks-of, find_entry-Lacks, find_entry-hit}
use concurrent_http_proxy_se.Cache.Invariant.{
  IsEntry, IsCache, contents, contents-same, length-order, reordered, sum_sizes-append,
}
use concurrent_http_proxy_se.Cache.Spec.{
  Contents, Holds, Lacks, lookup, remove, touch, key_cases, lookup-Lacks, lookup-split,
  remove-Lacks, remove-split,
}
use concurrent_http_proxy_se.Lru
use concurrent_http_proxy_se.Lru.Ordering.{move_to_front-IsOrder}

pub take-length {ℓ} : {A : Type ℓ} (l : List A) → take (length l) l ≡ l
take-length [] = refl
take-length (x ∷ l) = ap (λ t. x ∷ t) (take-length l)

pub mem-front :
    (q : ℕ) (xs : List ℕ) (p : ℕ) (ys : List ℕ) → mem q (p ∷ (xs ++ ys)) ≡ mem q (xs ++ p ∷ ys)
mem-front q xs p ys = ground (arith, mem-append q xs ys, mem-append q xs (p ∷ ys))

pub Nodup-front :
    (xs : List ℕ) (p : ℕ) (ys : List ℕ) → Nodup (xs ++ p ∷ ys) → Nodup (p ∷ (xs ++ ys))
Nodup-front xs p ys nd = let (a, b, d) = Nodup-mid xs p ys nd in (NotIn-append p xs ys a b, d)

pub mem-mid_self : (xs : List ℕ) (p : ℕ) (ys : List ℕ) → mem p (xs ++ p ∷ ys) ≡ true
mem-mid_self xs p ys = ground (arith, mem-append p xs (p ∷ ys))

-- The same entries with one of them moved to the front.
pub moved :
    {c : Cache} (xs : List ℕ) (p : ℕ) (ys : List ℕ)
    → IsCache c (xs ++ p ∷ ys)
    → IsCache (record c { lru_list = Lru.move_to_front c.lru_list (some p) }) (p ∷ (xs ++ ys))
moved {c} xs p ys t =
    reordered t (Lru.move_to_front c.lru_list (some p)) c.current_size_bytes (p ∷ (xs ++ ys)) []
      (move_to_front-IsOrder c.lru_list xs p ys t.linked (omega (arith, length-order t)))
      (λ q. rw (append-nil, append-nil) (mem-front q xs p ys))
      (rw append-nil (Nodup-front xs p ys t.linked.nodup))
      (omega (
        arith,
        t.counted,
        sum_sizes-append c.size_bytes xs (p ∷ ys),
        sum_sizes-append c.size_bytes xs ys,
      ))
      t.bounded

-- The entries behind the one with a key have other keys.
pub Lacks-behind :
    {c : Cache} (xs : List ℕ) (p : ℕ) (ys : List ℕ) (key : Bytes)
    → IsCache c (xs ++ p ∷ ys)
    → c.key p ≡ key
    → Lacks c key ys
Lacks-behind {c} xs p ys key t e = Lacks-of c key ys λ q m k.
    let here : mem p ((xs ++ p ∷ ys) ++ []) ≡ true = rw append-nil (mem-mid_self xs p ys) in
    let there : mem q ((xs ++ p ∷ ys) ++ []) ≡ true =
      rw append-nil (ground (arith, mem-append q xs (p ∷ ys))) in
    let same : q ≡ p = t.keys q p there here (k ∙ sym e) in
    let out : mem p ys ≡ false = NotIn→mem p ys (Nodup-mid xs p ys t.linked.nodup).1 in
    cc (out, same, m)

-- Where a key stands in a cache that holds `m`: nowhere, or at one entry.
pub data Located (key : Bytes) (c : Cache) (m : Contents) : Type 0 where
  absent :
      (order : List ℕ)
      → IsCache c order
      → contents c order ≡ m
      → Lacks c key order
      → find_entry c key ≡ none
      → lookup key m ≡ none
      → remove key m ≡ m
      → Located key c m
  present :
      (xs : List ℕ) (p : ℕ) (ys : List ℕ)
      → IsCache c (xs ++ p ∷ ys)
      → c.key p ≡ key
      → IsEntry c p
      → find_entry c key ≡ some p
      → lookup key m ≡ some (c.data_of p)
      → remove key m ≡ contents c (xs ++ ys)
      → Located key c m

pub locate :
    {total object : ℕ} {c : Cache} {m : Contents} (key : Bytes)
    → Holds total object c m
    → Located key c m
locate {c} {m} key h = elim (key_cases c key h.order) [
  | inl lacks ↦
      absent h.order h.table h.holds lacks (find_entry-Lacks h.table key lacks)
        (rw (← h.holds) (lookup-Lacks c key h.order lacks))
        (rw (← h.holds) (remove-Lacks c key h.order lacks))
  | inr (xs, p, ys, is, at, lacks) ↦
      let t : IsCache c (xs ++ p ∷ ys) = subst (IsCache c) is h.table in
      let e : m ≡ contents c (xs ++ p ∷ ys) = sym h.holds ∙ ap (contents c) is in
      present xs p ys t at (t.entries p (rw append-nil (mem-mid_self xs p ys)))
        (find_entry-hit t p (mem-mid_self xs p ys) key at)
        (ap (lookup key) e ∙ lookup-split c key xs p ys lacks at)
        (ap (remove key) e ∙ remove-split c key xs p ys lacks (Lacks-behind xs p ys key t at) at)
]

-- What a lookup answers.
abbrev pub found : Option Bytes → Status × Value
found none = (failed, no_value)
found (some v) = (done, record { bytes = some v; size_bytes = length v })

-- The status and the value of a call, and the cache after it.
abbrev pub answer : Status × Value × Cache → Status × Value
answer r = (r.0, r.1)

module _ {total object : ℕ} {c : Cache} {m : Contents} (key : Bytes) (out : Value)
    (h : Holds total object c m) where
  get-touch_at :
      Located key c m
      → (answer (get c (some key) out true) ≡ found (lookup key m))
        × Holds total object (get c (some key) out true).2 (touch key m)
  unfolding get touch contents
  get-touch_at (absent order t is lacks miss look rest) = rw (miss, look) (refl, h)
  get-touch_at (present xs p ys t at e hit look rest) =
      rw (hit, look, rest)
        (
          rw (← e.exact, take-length),
          record {
            order = p ∷ (xs ++ ys);
            table = moved xs p ys t;
            holds = cc (
              at,
              contents-same c (record c { lru_list = Lru.move_to_front c.lru_list (some p) })
                  (xs ++ ys) refl refl,
            );
            total_limit = h.total_limit;
            object_limit = h.object_limit;
          },
        )

  -- When the copy gets memory, cache_get answers with the data of the key, or says that there is
  -- none, and a key that is found is the most recently used one afterwards.
  pub get-touch :
      (answer (get c (some key) out true) ≡ found (lookup key m))
      × Holds total object (get c (some key) out true).2 (touch key m)
  get-touch = get-touch_at (locate key h)

  -- When the copy gets no memory, or the key argument is NULL, cache_get fails and the cache is as
  -- before.
  pub get_failed :
      (get c (some key) out false ≡ (failed, no_value, c))
      × (get c none out true ≡ (failed, out, c))
  unfolding get
  get_failed = (none_or_failed (find_entry c key), refl)
    where
      none_or_failed : (p : Ptr) → get_entry c p false ≡ (failed, no_value, c)
      none_or_failed none = refl
      none_or_failed (some p) = refl
