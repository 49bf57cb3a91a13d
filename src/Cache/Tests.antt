-- ===== src/Cache/Tests.antt =====
-- A cache of ten bytes, and the theorems about the cache at it.
use concurrent_http_proxy_se.Base.{
  ℕ, Nodup, mem, ◌≡◌, refl, none, some, List, [], ◌∷◌, ◌≤◌, All, arith, true, false, done, failed,
}
use concurrent_http_proxy_se.Bytes.{codes, bytes_eq}
use concurrent_http_proxy_se.Cache.{
  Cache, Value, no_value, destroy, create, put, put_locked, insert_entry, new_entry, drop_entry,
  evict_loop, hash_key, get, evict_if_needed,
}
use concurrent_http_proxy_se.Cache.Destroy.{destroy_frees}
use concurrent_http_proxy_se.Cache.Failure.{put_failed, failed_drops, failed_contents}
use concurrent_http_proxy_se.Cache.Get.{answer, found, get-touch}
use concurrent_http_proxy_se.Cache.Put.{allocated}
use concurrent_http_proxy_se.Cache.Refinement.{empty_cache, create-Holds, put-room, get-put}
use concurrent_http_proxy_se.Cache.Rewrite.{Outcome}
use concurrent_http_proxy_se.Cache.Runs.{
  Call, puts, gets, perform, observe, Allowed, expect, create-observe,
}
use concurrent_http_proxy_se.Cache.Spec.{Holds, lookup, touch, room}
use concurrent_http_proxy_se.Lru
use concurrent_http_proxy_se.Lru.{Lru}

abbrev memory : Lru
memory = record { head = none; tail = none; entry_count = 0; prev = λ _. none; next = λ _. none }

abbrev c0 : Cache
c0 = empty_cache 10 6 memory (λ _. [])

c0-Holds : (create 10 6 true memory (λ _. []) ≡ some c0) × Holds 10 6 c0 []
c0-Holds = create-Holds 10 6 memory (λ _. []) (omega arith) (omega arith) (omega arith)

abbrev c1 : Cache
c1 = (put c0 (some (codes "a")) (some (codes "12345")) 5 (allocated 1) true).2

one :
    Outcome 10 6 done false
      ((codes "a", codes "12345") ∷ [])
      (put c0 (some (codes "a")) (some (codes "12345")) 5 (allocated 1) true)
unfolding room
one =
    put-room (codes "a") (codes "12345") 5 true c0-Holds.1 1 refl (omega arith) (omega arith)
      (omega arith)

fresh_two : c1.alive 2 ≡ false
unfolding put put_locked insert_entry new_entry Lru.init
fresh_two = refl

-- Six more bytes do not fit beside the first five, so the first key goes.
put-room_example :
    Outcome 10 6 done true
      ((codes "b", codes "abcdef") ∷ [])
      (put c1 (some (codes "b")) (some (codes "abcdef")) 6 (allocated 2) false)
unfolding room bytes_eq
put-room_example =
    put-room (codes "b") (codes "abcdef") 6 false one.leaves 2 fresh_two (omega arith) (omega arith)
      (omega arith)

get-touch_example :
    (answer (get c1 (some (codes "a")) no_value true) ≡ found (some (codes "12345")))
    × Holds 10 6 (get c1 (some (codes "a")) no_value true).2 ((codes "a", codes "12345") ∷ [])
unfolding touch bytes_eq
get-touch_example = get-touch (codes "a") no_value one.leaves

-- A key, another one that takes its room, the first again, and data that is too large.
abbrev calls : List Call
calls =
    puts (codes "a") (codes "12345") 5 1
    ∷ puts (codes "b") (codes "abcdef") 6 2
    ∷ gets (codes "a")
    ∷ puts (codes "c") (codes "1234567") 7 3
    ∷ []

calls-Allowed : Allowed calls c0
unfolding Allowed perform put put_locked insert_entry new_entry get evict_loop drop_entry
    Lru.attach_front Lru.remove_tail Lru.detach Lru.init bytes_eq
    concurrent_http_proxy_se.Cache.hash_key
calls-Allowed = (refl, omega arith, (refl, omega arith, (refl, omega arith, tt)))

create-observe_example :
    (c : Cache) × (create 10 6 true memory (λ _. []) ≡ some c)
    × (observe calls c ≡ expect 10 6 calls [])
    × All (λ s. s.size ≤ 10) (observe calls c)
create-observe_example =
    create-observe 10 6 memory (λ _. []) calls (omega arith) (omega arith) (omega arith)
      calls-Allowed

get-put_example :
    answer (
      get
        (put c1 (some (codes "b")) (some (codes "abcdef")) 6 (allocated 2) false).2
        (some (codes "b"))
        no_value
        true)
    ≡ (done, record { bytes = some (codes "abcdef"); size_bytes = 6 })
get-put_example =
    get-put (codes "b") (codes "abcdef") 6 2 false no_value one.leaves fresh_two (omega arith)
      (omega arith) (omega arith)

-- The table itself, run: after both puts only the second key is found.
evicted_key :
    answer (
      get
        (put c1 (some (codes "b")) (some (codes "abcdef")) 6 (allocated 2) false).2
        (some (codes "a"))
        no_value
        true)
    ≡ (failed, no_value)
unfolding put put_locked get evict_loop drop_entry insert_entry Lru.attach_front Lru.remove_tail
    Lru.detach Lru.init bytes_eq concurrent_http_proxy_se.Cache.hash_key
evicted_key = refl

-- The first key had to make room, although the second got no memory.
put_failed_example : Outcome 10 6 failed true [] (
    put c1
      (some (codes "b"))
      (some (codes "abcdef"))
      6
      (record { entry = some 2; key = true; bytes = false })
      false)
unfolding room bytes_eq lookup failed_drops failed_contents
put_failed_example =
    put_failed (codes "b") (codes "abcdef") 6 one.leaves (omega arith) (omega arith) (omega arith)
      (some 2) true false fresh_two

destroy_frees_example :
    Nodup (destroy c1).1
    × ((p : ℕ) → mem p (destroy c1).1 ≡ c1.alive p)
    × ((p : ℕ) → (destroy c1).0.alive p ≡ false)
destroy_frees_example = destroy_frees one.leaves.table
