-- ===== src/Cache.antt =====
-- src/cache.c: a hash table of 128 buckets over entries that are also on the list of src/lru.c.
-- Memory is one function for each field of cache_entry_t, from the address of an entry; the link
-- fields stand in the `Lru` record. `alive` says which entries are allocated. Each operation runs
-- under the cache's mutex from its first read to its return, so it is one step. The cache pointer
-- itself is that of a created cache: the calls with a NULL cache return at once and are left out.
-- What the allocator answers is an argument. `unsigned long` and `size_t` have 64 bits.
pub mod Chain
pub mod Invariant
pub mod Unlink
pub mod Drop
pub mod Evict
pub mod Spec
pub mod Find
pub mod Get
pub mod Insert
pub mod Replace
pub mod Rewrite
pub mod Put
pub mod Refinement
pub mod Runs
pub mod Failure
pub mod Memory
pub mod Entries
pub mod Destroy
mod Tests
use concurrent_http_proxy_se.Base.{
  ℕ, zero, suc, ◌+◌, ◌-◌, ◌*◌, ◌%◌, ◌^◌, Option, none, some, List, [], ◌∷◌, ◌++◌, Bool, true, false,
  ◌&&◌, ◌||◌, not, Ptr, update, ltb, ◌==◌, if◌then◌else◌, Status, done, failed, take, is_some,
  add_size, sub_size,
}
use concurrent_http_proxy_se.Bytes.{Bytes, bytes_eq}
use concurrent_http_proxy_se.Lru
use concurrent_http_proxy_se.Lru.{Lru}

pub record Cache : Type 0 where
  pub buckets : ℕ → Ptr
  pub bucket_next : ℕ → Ptr
  pub key : ℕ → Bytes
  pub data_of : ℕ → Bytes
  pub size_bytes : ℕ → ℕ
  pub alive : ℕ → Bool
  pub lru_list : Lru
  pub current_size_bytes : ℕ
  pub max_total_size_bytes : ℕ
  pub max_object_size_bytes : ℕ

abbrev pub bucket_count : ℕ
bucket_count = 128

-- `((hash << 5) + hash) + ch` for each byte
pub hash_from : ℕ → Bytes → ℕ
hash_from hash [] = hash
hash_from hash (ch ∷ key) = hash_from (((hash * 32) % 2 ^ 64 + hash + ch) % 2 ^ 64) key

pub hash_key : Bytes → ℕ
unfolding hash_from
hash_key key = hash_from 5381 key

abbrev pub bucket_of : Bytes → ℕ
bucket_of key = hash_key key % bucket_count

-- The walk along a bucket, with fuel.
pub find_from : ℕ → Cache → Bytes → Ptr → Ptr
find_from fuel c key none = none
find_from zero c key (some p) = none
find_from (suc fuel) c key (some p) =
    if bytes_eq (c.key p) key then some p else find_from fuel c key (c.bucket_next p)

-- A bucket holds at most as many entries as the cache.
pub find_entry : Cache → Bytes → Ptr
unfolding find_from
find_entry c key = find_from c.lru_list.entry_count c key (c.buckets (bucket_of key))

-- The write that takes an entry out of its bucket: to the bucket or to the entry before it.
abbrev pub relink_bucket : Cache → ℕ → Ptr → Ptr → Cache
relink_bucket c index none after = record c { buckets = update c.buckets index after }
relink_bucket c index (some q) after = record c { bucket_next = update c.bucket_next q after }

pub unlink_from : ℕ → Cache → (index entry : ℕ) → (previous cursor : Ptr) → Cache
unlink_from fuel c index entry previous none = c
unlink_from zero c index entry previous (some q) = c
unlink_from (suc fuel) c index entry previous (some q) =
    if q == entry
    then relink_bucket c index previous (c.bucket_next q)
    else unlink_from fuel c index entry (some q) (c.bucket_next q)

-- Two rounds more than `lru_list` counts: the entry itself is off that list already, and so may be
-- one that is being replaced.
pub remove_from_bucket : Cache → ℕ → Cache
unfolding unlink_from
remove_from_bucket c entry =
    let index = bucket_of (c.key entry) in
    unlink_from (c.lru_list.entry_count + 2) c index entry none (c.buckets index)

-- cache_entry_destroy
pub destroy_entry : Cache → ℕ → Cache
destroy_entry c p = record c { alive = update c.alive p false }

-- What the eviction loop does with the entry that lru_remove_tail returned.
pub drop_entry : Cache → Lru → ℕ → Cache
unfolding remove_from_bucket destroy_entry
drop_entry c lru_list p =
    let c1 = remove_from_bucket (record c { lru_list = lru_list }) p in
    let left =
      if ltb c1.current_size_bytes (c1.size_bytes p)
      then 0
      else c1.current_size_bytes - c1.size_bytes p in
    destroy_entry (record c1 { current_size_bytes = left }) p

-- `current + incoming > max` on size_t
abbrev pub over : Cache → ℕ → Bool
over c incoming = ltb c.max_total_size_bytes (add_size c.current_size_bytes incoming)

-- The loop of cache_evict_if_needed_with_result_locked; each round takes one entry off the list.
pub evict_loop : ℕ → Cache → ℕ → Bool → Cache × Bool
evict_loop zero c incoming evicted = (c, evicted)
evict_loop (suc fuel) c incoming evicted = elim (over c incoming && is_some c.lru_list.tail) [
  | false ↦ (c, evicted)
  | true ↦
      let (victim, lru_list) = Lru.remove_tail c.lru_list in
      elim victim [
        | none ↦ (c, evicted)
        | some p ↦ evict_loop fuel (drop_entry c lru_list p) incoming true
      ]
]

-- `evicted` is the member of *result before the call; the second component is its value after.
pub evict_if_needed : Cache → ℕ → Bool → Cache × Bool
unfolding evict_loop
evict_if_needed c incoming evicted =
    let (c', some_evicted) = evict_loop c.lru_list.entry_count c incoming false in
    (c', some_evicted || evicted)

-- Room for the new data of an entry: the entry is off the list while others are evicted.
pub make_room : Cache → ℕ → ℕ → Bool → Cache × Bool
unfolding evict_if_needed
make_room c p size evicted =
    let c1 = record c { current_size_bytes = sub_size c.current_size_bytes (c.size_bytes p) } in
    let c2 = record c1 { lru_list = Lru.detach c1.lru_list (some p) } in
    let (c3, evicted') = evict_if_needed c2 size evicted in
    (record c3 { lru_list = Lru.attach_front c3.lru_list (some p) }, evicted')

-- The malloc of the copy (`allocated`: it is not NULL) and the writes to the entry.
pub store_data : Cache → (p previous_size : ℕ) → Bytes → ℕ → (allocated : Bool) → Status × Cache
store_data c p previous_size bytes size false =
    (failed, record c { current_size_bytes = add_size c.current_size_bytes previous_size })
store_data c p previous_size bytes size true =
    let c1 = record c {
      data_of = update c.data_of p (take size bytes);
      size_bytes = update c.size_bytes p size;
      current_size_bytes = add_size c.current_size_bytes size;
    } in
    (done, record c1 { lru_list = Lru.move_to_front c1.lru_list (some p) })

pub replace_entry : Cache → ℕ → Bytes → ℕ → Bool → Bool → Status × Bool × Cache
unfolding make_room store_data
replace_entry c p bytes size allocated evicted =
    let previous_size = c.size_bytes p in
    if ltb previous_size size
    then (let (c1, evicted') = make_room c p size evicted in
        if over c1 size
        then (
          failed,
          evicted',
          record c1 { current_size_bytes = add_size c1.current_size_bytes previous_size },
        )
        else let (status, c2) = store_data c1 p previous_size bytes size allocated in
          (status, evicted', c2))
    else (let c1 = record c { current_size_bytes = sub_size c.current_size_bytes previous_size } in
        let (status, c2) = store_data c1 p previous_size bytes size allocated in
        (status, evicted, c2))

-- `calloc` gives NULL or an address; `none` is NULL here and in the result.
pub create : (max_total max_object : ℕ) → (allocated : Bool) → Lru → (ℕ → Bytes) → Option Cache
create max_total max_object allocated memory bytes =
    if (max_total == 0) || ((max_object == 0) || ltb max_total max_object)
    then none
    else if allocated
    then some (record {
      buckets = λ _. none;
      bucket_next = λ _. none;
      key = bytes;
      data_of = bytes;
      size_bytes = λ _. 0;
      alive = λ _. false;
      lru_list = Lru.init memory;
      current_size_bytes = 0;
      max_total_size_bytes = max_total;
      max_object_size_bytes = max_object;
    })
    else none

-- One bucket of cache_destroy, with fuel: its entries are destroyed from the first on, each after its
-- `bucket_next` was read. With them comes the list of what was destroyed.
unfoldable pub destroy_chain : ℕ → Cache → Ptr → Cache × List ℕ
unfolding destroy_entry
destroy_chain fuel c none = (c, [])
destroy_chain zero c (some p) = (c, [])
destroy_chain (suc fuel) c (some p) =
    let (d, freed) = destroy_chain fuel (destroy_entry c p) (c.bucket_next p) in (d, p ∷ freed)

-- The loop over `count` buckets from `index` on.
unfoldable pub destroy_buckets : (count index : ℕ) → Cache → Cache × List ℕ
unfolding destroy_chain
destroy_buckets zero index c = (c, [])
destroy_buckets (suc count) index c =
    let (d, first) = destroy_chain c.lru_list.entry_count c (c.buckets index) in
    let (e, rest) = destroy_buckets count (suc index) d in (e, first ++ rest)

-- cache_destroy before it frees the table and the cache.
unfoldable pub destroy : Cache → Cache × List ℕ
unfolding destroy_buckets
destroy c = destroy_buckets bucket_count 0 c

-- What the three allocations of an insertion return: the address of the entry or NULL, and whether
-- the key and the data got memory.
pub record Allocation : Type 0 where
  pub entry : Ptr
  pub key : Bool
  pub bytes : Bool

-- The writes that fill a new entry and link it into its bucket and the list.
pub insert_entry : Cache → ℕ → Bytes → Bytes → ℕ → Cache
insert_entry c p key bytes size =
    let index = bucket_of key in
    let c1 = record c {
      key = update c.key p key;
      data_of = update c.data_of p (take size bytes);
      size_bytes = update c.size_bytes p size;
      alive = update c.alive p true;
      bucket_next = update c.bucket_next p (c.buckets index);
      buckets = update c.buckets index (some p);
    } in
    record c1 {
      lru_list = Lru.attach_front c1.lru_list (some p);
      current_size_bytes = add_size c1.current_size_bytes size;
    }

-- The allocations for a new entry; when one of them fails, what was allocated is freed again.
pub new_entry : Cache → Bytes → Bytes → ℕ → Allocation → Status × Cache
unfolding insert_entry destroy_entry
new_entry c key bytes size a = elim a.entry [
  | none ↦ (failed, c)
  | some p ↦
      if a.key && a.bytes
      then (done, insert_entry c p key bytes size)
      else (failed, destroy_entry (record c { alive = update c.alive p true }) p)
]

-- The part of cache_put under the mutex.
pub put_locked : Cache → Bytes → Bytes → ℕ → Allocation → Status × Bool × Cache
unfolding find_entry replace_entry evict_if_needed new_entry
put_locked c key bytes size a = elim (find_entry c key) [
  | some p ↦ replace_entry c p bytes size a.bytes false
  | none ↦
      let (c1, evicted) = evict_if_needed c size false in
      if over c1 size
      then (failed, evicted, c1)
      else let (status, c2) = new_entry c1 key bytes size a in (status, evicted, c2)
]

-- The status, the member of *result after the call, and the cache. `none` for `key` or `bytes` is a
-- NULL argument, and `evicted` is the member before the call.
pub put :
    Cache
    → (key bytes : Option Bytes) → (size : ℕ) → Allocation
    → (evicted : Bool) → Status × Bool × Cache
unfolding put_locked
put c none bytes size a evicted = (failed, evicted, c)
put c (some key) none size a evicted = (failed, evicted, c)
put c (some key) (some bytes) size a evicted =
    if size == 0
    then (failed, evicted, c)
    else if ltb c.max_object_size_bytes size || ltb c.max_total_size_bytes size
    then (failed, evicted, c)
    else put_locked c key bytes size a

-- cache_value_t
pub record Value : Type 0 where
  pub bytes : Option Bytes
  pub size_bytes : ℕ

abbrev pub no_value : Value
no_value = record { bytes = none; size_bytes = 0 }

-- `allocated` says whether the copy got memory; `none` for `key` is a NULL argument.
pub get_entry : Cache → Ptr → (allocated : Bool) → Status × Value × Cache
get_entry c none allocated = (failed, no_value, c)
get_entry c (some p) false = (failed, no_value, c)
get_entry c (some p) true = (
  done,
  record { bytes = some (take (c.size_bytes p) (c.data_of p)); size_bytes = c.size_bytes p },
  record c { lru_list = Lru.move_to_front c.lru_list (some p) },
)

pub get : Cache → (key : Option Bytes) → Value → (allocated : Bool) → Status × Value × Cache
unfolding find_entry get_entry
get c none out allocated = (failed, out, c)
get c (some key) out allocated = get_entry c (find_entry c key) allocated

-- cache_value_free
unfoldable pub value_free : Value → Value
value_free v = no_value

pub current_size : Cache → ℕ
current_size c = c.current_size_bytes

pub entry_count : Cache → ℕ
entry_count c = c.lru_list.entry_count
