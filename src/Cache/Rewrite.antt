-- ===== src/Cache/Rewrite.antt =====
-- What cache_replace_entry_locked of src/cache.c leaves in the cache, seen from outside.
use concurrent_http_proxy_se.Base.{
  ℕ, zero, suc, ◌+◌, ◌-◌, ◌<◌, ◌≤◌, ◌≡◌, refl, ap, sym, ◌∙◌, List, [], ◌∷◌, ◌++◌, Bool, true, false,
  ◌||◌, arith, ltb, ltb→lt, ltb→ge, Status, done, length, take, update, mem, mem-append, NotIn,
  NotIn→mem, inl, inr, Bool-cases,
}
use concurrent_http_proxy_se.Bytes.{Bytes}
use concurrent_http_proxy_se.Cache.{Cache, replace_entry}
use concurrent_http_proxy_se.Cache.Evict.{keep}
use concurrent_http_proxy_se.Cache.Get.{moved}
use concurrent_http_proxy_se.Cache.Invariant.{IsEntry, IsCache, contents, rewritten}
use concurrent_http_proxy_se.Cache.Replace.{
  emptied, rest, emptied-Evicted, returned-IsCache, stored_grown, stored_shrunk, size_of_mid,
  replace_entry-grown, replace_entry-shrunk,
}
use concurrent_http_proxy_se.Cache.Spec.{
  Contents, Holds, remove, trim_all, room, drops, contents-keep, length-contents, weight-contents,
}

pub contents-agree :
    (c d : Cache) (l : List ℕ)
    → ((q : ℕ) → mem q l ≡ true → (d.key q ≡ c.key q) × (d.data_of q ≡ c.data_of q))
    → contents d l ≡ contents c l
unfolding contents
contents-agree c d [] h = refl
contents-agree c d (x ∷ l) h =
    let (k, v) = h x (ground arith) in rw (k, v, contents-agree c d l (λ q m. h q (ground arith)))

-- The contents once `value` is stored in front.
pub contents-stored :
    (c s : Cache) (p : ℕ) (l : List ℕ) (key value : Bytes)
    → s.key ≡ c.key
    → s.data_of ≡ update c.data_of p value
    → c.key p ≡ key
    → NotIn p l
    → contents s (p ∷ l) ≡ (key, value) ∷ contents c l
unfolding contents
contents-stored c s p l key value k v at out =
    let tail =
      contents-agree c s l
        λ q m. (ap (λ f. f q) k, ap (λ f. f q) v ∙ ground (arith, NotIn→mem p l out)) in
    let self : s.data_of p ≡ value = ap (λ f. f p) v ∙ ground arith in
    let name : s.key p ≡ key = ap (λ f. f p) k ∙ at in rw (tail, self, name)

-- The contents with a new entry in front.
pub contents-new :
    (c s : Cache) (p : ℕ) (l : List ℕ) (key value : Bytes)
    → s.key ≡ update c.key p key
    → s.data_of ≡ update c.data_of p value
    → NotIn p l
    → contents s (p ∷ l) ≡ (key, value) ∷ contents c l
unfolding contents
contents-new c s p l key value k v out =
    let tail = contents-agree c s l λ q m. (
      ap (λ f. f q) k ∙ ground (arith, NotIn→mem p l out),
      ap (λ f. f q) v ∙ ground (arith, NotIn→mem p l out),
    ) in
    let self : s.data_of p ≡ value = ap (λ f. f p) v ∙ ground arith in
    let name : s.key p ≡ key = ap (λ f. f p) k ∙ ground arith in rw (tail, self, name)

pub length-take_le {ℓ} : {A : Type ℓ} (n : ℕ) (l : List A) → n ≤ length l → length (take n l) ≡ n
length-take_le zero l h = refl
length-take_le (suc n) [] h = absurd (omega arith)
length-take_le (suc n) (x ∷ l) h = ap suc (length-take_le n l (omega arith))

pub mem-keep :
    (size : ℕ → ℕ) (b : ℕ) (l : List ℕ) (q : ℕ) → mem q (keep size b l) ≡ true → mem q l ≡ true
unfolding keep
mem-keep size b [] q h = h
mem-keep size b (p ∷ l) q h = ground (arith, mem-keep size (b - size p) l q)

-- The outcome of a call: its status, whether it dropped keys, and what the cache holds then.
pub record Outcome (total object : ℕ) (status : Status) (dropped : Bool) (m : Contents)
    (r : Status × Bool × Cache) : Type 0 where
  pub answers : r.0 ≡ status
  pub reports : r.1 ≡ dropped
  pub leaves : Holds total object r.2 m

module _ {total object : ℕ} {c : Cache} {m : Contents} (key bytes : Bytes) (size : ℕ)
    (h : Holds total object c m) (filled : 0 < size) (fits : size ≤ object)
    (enough : size ≤ length bytes) where
  abbrev pub value : Bytes
  value = take size bytes

  pub exact : length value ≡ size
  exact = length-take_le size bytes enough

  pub small : size ≤ c.max_total_size_bytes
  small = omega (arith, h.table.object, h.object_limit)

  module _ (xs : List ℕ) (p : ℕ) (ys : List ℕ) (t : IsCache c (xs ++ p ∷ ys)) (at : c.key p ≡ key)
      (others : remove key m ≡ contents c (xs ++ ys)) where
    abbrev pub left : List ℕ
    left = rest xs p ys t bytes size false

    entries_left : (q : ℕ) → mem q (xs ++ ys) ≡ true → IsEntry c q
    entries_left q n = t.entries q (
        ground
          (arith, mem-append q (xs ++ p ∷ ys) [], mem-append q xs ys, mem-append q xs (p ∷ ys)))

    pub contents-left : contents c left ≡ room total key size m
    unfolding room
    contents-left =
        rw (others, ← h.total_limit)
          (contents-keep c (c.max_total_size_bytes - size) (xs ++ ys) entries_left)

    pub drops-left : (ltb (length left) (length (xs ++ ys)) || false) ≡ drops total key size m
    drops-left = rw (← contents-left, others, length-contents, length-contents) (ground arith)

    grown_Holds :
        c.size_bytes p < size
        → Holds total object
            (stored_grown xs p ys t bytes size false)
            ((key, value) ∷ room total key size m)
    unfolding contents
    grown_Holds grew =
        let ev = emptied-Evicted xs p ys t bytes size false small in
        let d = emptied xs p ys t bytes size false in
        let same_size : d.size_bytes p ≡ c.size_bytes p = ap (λ f. f p) ev.same.size in
        let back = returned-IsCache p left ev.table (omega (arith, ev.room, same_size)) in
        record {
          order = p ∷ left;
          table =
              rewritten back value size (d.current_size_bytes + size) exact filled
                (omega (arith, ev.same.object, h.object_limit)) (omega (arith, ev.table.counted))
                ev.room;
          holds =
              contents-stored c (stored_grown xs p ys t bytes size false) p left key value
                ev.same.key (ap (λ f. update f p value) ev.same.bytes) at back.linked.nodup.0
              ∙ ap (λ l. (key, value) ∷ l) contents-left;
          total_limit = ev.same.total ∙ h.total_limit;
          object_limit = ev.same.object ∙ h.object_limit;
        }

    pub shrunk_room : size ≤ c.size_bytes p → room total key size m ≡ contents c (xs ++ ys)
    unfolding room
    shrunk_room less =
        rw (others, ← h.total_limit)
          (trim_all (c.max_total_size_bytes - size) (contents c (xs ++ ys)) (
            omega
              (arith, weight-contents c (xs ++ ys) entries_left, size_of_mid xs p ys t, t.bounded)))

    shrunk_Holds :
        size ≤ c.size_bytes p
        → Holds total object
            (stored_shrunk xs p ys t bytes size false)
            ((key, value) ∷ room total key size m)
    unfolding contents
    shrunk_Holds less =
        let front = moved xs p ys t in
        record {
          order = p ∷ (xs ++ ys);
          table =
              rewritten front value size (c.current_size_bytes - c.size_bytes p + size) exact filled
                (omega (arith, h.object_limit)) (omega (arith, size_of_mid xs p ys t))
                (omega (arith, size_of_mid xs p ys t, t.bounded));
          holds =
              contents-stored c (stored_shrunk xs p ys t bytes size false) p (xs ++ ys) key value
                refl refl at front.linked.nodup.0
              ∙ ap (λ l. (key, value) ∷ l) (sym (shrunk_room less));
          total_limit = h.total_limit;
          object_limit = h.object_limit;
        }

    -- Whether the value is larger or not, replacing it leaves the same contents.
    pub replace-Outcome :
        Outcome total object done
          (drops total key size m)
          ((key, value) ∷ room total key size m)
          (replace_entry c p bytes size true false)
    replace-Outcome = elim (Bool-cases (ltb (c.size_bytes p) size)) [
      | inl grew ↦
          let lt = ltb→lt _ _ grew in
          rw (replace_entry-grown xs p ys t bytes size false lt small) record {
            answers = refl;
            reports = (emptied-Evicted xs p ys t bytes size false small).flag ∙ drops-left;
            leaves = grown_Holds lt;
          }
      | inr less ↦
          let le = ltb→ge _ _ less in
          rw (replace_entry-shrunk xs p ys t bytes size false le) record {
            answers = refl;
            reports = rw (shrunk_room le, others) (ground arith);
            leaves = shrunk_Holds le;
          }
    ]
