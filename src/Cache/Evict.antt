-- ===== src/Cache/Evict.antt =====
-- The eviction loop of src/cache.c: it keeps the longest run of recent entries that leaves room.
use native.Mathlib.Nat.{mod-eq_of_lt}
use concurrent_http_proxy_se.Base.{
  ℕ, zero, suc, ◌+◌, ◌-◌, ◌<◌, ◌≤◌, ◌^◌, ◌≡◌, refl, ap, sym, subst, ◌∙◌, inl, inr, none, some, List,
  [], ◌∷◌, ◌++◌, Bool, true, false, ◌||◌, is_some, arith, ltb, ltb→lt, lt→ltb, ltb→ge, leb,
  if◌then◌else◌, length, length-append, snoc_cases, Bool-cases,
}
use concurrent_http_proxy_se.Cache.{Cache, over, drop_entry, evict_loop, evict_if_needed}
use concurrent_http_proxy_se.Cache.Drop.{dropped, drop_entry-dropped, dropped-IsTable}
use concurrent_http_proxy_se.Cache.Invariant.{sum_sizes, IsTable}
use concurrent_http_proxy_se.Lru
use concurrent_http_proxy_se.Lru.{Lru}
use concurrent_http_proxy_se.Lru.Ordering.{remove_tail-IsOrder}
use concurrent_http_proxy_se.Lru.Segment.{last-append}

-- The longest prefix of `l` whose sizes add up to at most `budget`.
unfoldable pub keep : (ℕ → ℕ) → ℕ → List ℕ → List ℕ
keep size budget [] = []
keep size budget (p ∷ l) = if leb (size p) budget then p ∷ keep size (budget - size p) l else []

pub keep_all : (size : ℕ → ℕ) (b : ℕ) (l : List ℕ) → sum_sizes size l ≤ b → keep size b l ≡ l
unfolding keep
keep_all size b [] h = refl
keep_all size b (p ∷ l) h = ground (arith, keep_all size (b - size p) l (omega arith))

pub keep-snoc :
    (size : ℕ → ℕ) (b : ℕ) (l : List ℕ) (z : ℕ)
    → b < sum_sizes size (l ++ z ∷ [])
    → keep size b (l ++ z ∷ []) ≡ keep size b l
unfolding keep
keep-snoc size b [] z h = ground arith
keep-snoc size b (p ∷ l) z h = ground (arith, keep-snoc size (b - size p) l z)

pub length-keep : (size : ℕ → ℕ) (b : ℕ) (l : List ℕ) → length (keep size b l) ≤ length l
unfolding keep
length-keep size b [] = omega arith
length-keep size b (p ∷ l) = ground (arith, length-keep size (b - size p) l)

-- What the cache operations leave alone: keys, data, sizes and limits.
pub record Same (c d : Cache) : Type 0 where
  pub key : d.key ≡ c.key
  pub bytes : d.data_of ≡ c.data_of
  pub size : d.size_bytes ≡ c.size_bytes
  pub total : d.max_total_size_bytes ≡ c.max_total_size_bytes
  pub object : d.max_object_size_bytes ≡ c.max_object_size_bytes

pub Same-refl : (c : Cache) → Same c c
Same-refl c = record { key = refl; bytes = refl; size = refl; total = refl; object = refl }

pub Same-trans : {a b c : Cache} → Same a b → Same b c → Same a c
Same-trans s t = record {
  key = t.key ∙ s.key;
  bytes = t.bytes ∙ s.bytes;
  size = t.size ∙ s.size;
  total = t.total ∙ s.total;
  object = t.object ∙ s.object;
}

abbrev pub kept : Cache → ℕ → List ℕ → List ℕ
kept c incoming order = keep c.size_bytes (c.max_total_size_bytes - incoming) order

-- The outcome of an eviction from `c`.
pub record Evicted (c : Cache) (order pins : List ℕ) (incoming : ℕ) (before : Bool) (d : Cache)
    (after : Bool) : Type 0 where
  pub table : IsTable d (kept c incoming order) pins
  pub same : Same c d
  pub flag : after ≡ (ltb (length (kept c incoming order)) (length order) || before)
  pub room : d.current_size_bytes + incoming ≤ d.max_total_size_bytes

-- The test of the loop does not wrap around.
pub over-exact :
    {c : Cache} {order pins : List ℕ} (incoming : ℕ)
    → IsTable c order pins
    → incoming ≤ c.max_total_size_bytes
    → over c incoming ≡ ltb c.max_total_size_bytes (c.current_size_bytes + incoming)
over-exact {c} incoming t small = ap (ltb c.max_total_size_bytes) (
    mod-eq_of_lt {n = c.current_size_bytes + incoming} {m = 2 ^ 64}
      (omega (arith, t.bounded, t.word)))

module _ {c : Cache} {order pins : List ℕ} (incoming : ℕ) (before : Bool)
    (t : IsTable c order pins) where
  -- Where there is room nothing is evicted.
  pub room-Evicted :
      c.current_size_bytes + incoming ≤ c.max_total_size_bytes
      → Evicted c order pins incoming before c before
  room-Evicted h =
      let e : kept c incoming order ≡ order =
        keep_all c.size_bytes (c.max_total_size_bytes - incoming) order
          (omega (arith, t.counted)) in
      record { table = rw e t; same = Same-refl c; flag = rw e (ground arith); room = h }

  evict_step :
      (f z : ℕ)
      → over c incoming ≡ true
      → c.lru_list.tail ≡ some z
      → (Lru.remove_tail c.lru_list).0 ≡ some z
      → evict_loop (suc f) c incoming before
        ≡ evict_loop f (drop_entry c (Lru.remove_tail c.lru_list).1 z) incoming true
  unfolding evict_loop
  evict_step f z big tail victim =
      let more : is_some c.lru_list.tail ≡ true = ap is_some tail in
      rw (big, more, evict_loop) (rw (victim, evict_loop))

longer_flag :
    (before : Bool) (k n m : ℕ) → k ≤ n → m ≡ n + 1 → (ltb k n || true) ≡ (ltb k m || before)
longer_flag before k n m h e = ground arith

-- Dropping the last entry of `xs ++ z ∷ []` first gives the same outcome.
drop-Evicted :
    (c : Cache) (xs : List ℕ) (z : ℕ) (pins : List ℕ) (incoming : ℕ) (before : Bool)
    (t : IsTable c (xs ++ z ∷ []) pins) (lru_list : Lru) (d : Cache) (after : Bool)
    → c.max_total_size_bytes < c.current_size_bytes + incoming
    → incoming ≤ c.max_total_size_bytes
    → Evicted (dropped xs z pins t lru_list) xs pins incoming true d after
    → Evicted c (xs ++ z ∷ []) pins incoming before d after
drop-Evicted c xs z pins incoming before t lru_list d after big small e =
    let is : kept c incoming (xs ++ z ∷ []) ≡ kept c incoming xs =
      keep-snoc c.size_bytes (c.max_total_size_bytes - incoming) xs z (omega (arith, t.counted)) in
    record {
      table = rw is e.table;
      same = record {
        key = e.same.key;
        bytes = e.same.bytes;
        size = e.same.size;
        total = e.same.total;
        object = e.same.object;
      };
      flag =
          rw (is, e.flag)
            (longer_flag before (length (kept c incoming xs)) (length xs) (length (xs ++ z ∷ []))
              (length-keep c.size_bytes (c.max_total_size_bytes - incoming) xs)
              (omega (arith, length-append xs (z ∷ []))));
      room = e.room;
    }

abbrev Loop : ℕ → Cache → List ℕ → List ℕ → ℕ → Bool → Type 0
Loop fuel c order pins incoming before =
    Evicted c order pins incoming before (evict_loop fuel c incoming before).0
      (evict_loop fuel c incoming before).1

-- One round from `c` is a drop, and what is left to do starts at the dropped state.
round-Evicted :
    (f : ℕ) (c : Cache) (xs : List ℕ) (z : ℕ) (pins : List ℕ) (incoming : ℕ) (before : Bool)
    (t : IsTable c (xs ++ z ∷ []) pins)
    → length pins ≤ 1
    → incoming ≤ c.max_total_size_bytes
    → c.max_total_size_bytes < c.current_size_bytes + incoming
    → Loop f (dropped xs z pins t (Lru.remove_tail c.lru_list).1) xs pins incoming true
    → Loop (suc f) c (xs ++ z ∷ []) pins incoming before
round-Evicted f c xs z pins incoming before t few small big rest =
    let (victim, o) = remove_tail-IsOrder c.lru_list xs z t.linked in
    let lru_list = (Lru.remove_tail c.lru_list).1 in
    let tail : c.lru_list.tail ≡ some z = t.linked.tail ∙ last-append xs (z ∷ []) none in
    rw (evict_step incoming before t f z (over-exact incoming t small ∙ lt→ltb _ _ big) tail victim)
      (rw (drop_entry-dropped xs z pins t lru_list o few)
        (drop-Evicted c xs z pins incoming before t lru_list _ _ big small rest))

rounds-Evicted :
    (fuel : ℕ) (c : Cache) (order pins : List ℕ) (incoming : ℕ) (before : Bool)
    → IsTable c order pins
    → length pins ≤ 1
    → incoming ≤ c.max_total_size_bytes
    → length order ≤ fuel
    → Loop fuel c order pins incoming before
rounds-Evicted zero c [] pins incoming before t few small enough =
    unfold evict_loop in room-Evicted incoming before t (omega (arith, t.counted))
rounds-Evicted zero c (x ∷ l) pins incoming before t few small enough = absurd (omega arith)
rounds-Evicted (suc f) c order pins incoming before t few small enough =
    elim (Bool-cases (ltb c.max_total_size_bytes (c.current_size_bytes + incoming))) [
      | inl big ↦ elim (snoc_cases order) [
        | inl is ↦ absurd (omega (arith, t.counted, ap (sum_sizes c.size_bytes) is, ltb→lt _ _ big))
        | inr (xs, z, is) ↦
            let t' : IsTable c (xs ++ z ∷ []) pins = subst (λ l. IsTable c l pins) is t in
            let o = (remove_tail-IsOrder c.lru_list xs z t'.linked).1 in
            let lru_list = (Lru.remove_tail c.lru_list).1 in
            subst (λ l. Loop (suc f) c l pins incoming before) (sym is)
              (round-Evicted f c xs z pins incoming before t' few small (ltb→lt _ _ big) (
                rounds-Evicted f (dropped xs z pins t' lru_list) xs pins incoming true
                  (dropped-IsTable xs z pins t' lru_list o) few small
                  (omega (arith, ap length is, length-append xs (z ∷ [])))))
      ]
      | inr fits ↦
          rw (stop f c incoming before (over-exact incoming t small ∙ fits))
            (room-Evicted incoming before t (ltb→ge _ _ fits))
    ]
  where
    stop :
        (f : ℕ) (c : Cache) (incoming : ℕ) (before : Bool)
        → over c incoming ≡ false
        → evict_loop (suc f) c incoming before ≡ (c, before)
    stop f c incoming before h = unfold evict_loop in rw (h, evict_loop)

-- For a well-formed table with at most one entry off the list and an `incoming` of no more than the
-- total limit, cache_evict_if_needed_with_result_locked keeps the longest run of recent entries that
-- leaves room for `incoming`, evicts the others, keeps the table well-formed, and sets the flag if it
-- evicted one.
pub evict_if_needed-Evicted :
    (c : Cache) (order pins : List ℕ) (incoming : ℕ) (before : Bool)
    → IsTable c order pins
    → length pins ≤ 1
    → incoming ≤ c.max_total_size_bytes
    → Evicted c order pins incoming before
        (evict_if_needed c incoming before).0
        (evict_if_needed c incoming before).1
unfolding evict_if_needed
evict_if_needed-Evicted c order pins incoming before t few small =
    let e =
      rounds-Evicted c.lru_list.entry_count c order pins incoming false t few small
        (omega (arith, t.linked.count)) in
    record { table = e.table; same = e.same; flag = rw e.flag (ground arith); room = e.room }
