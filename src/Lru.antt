-- ===== src/Lru.antt =====
-- src/lru.c: the doubly linked list of cache entries, most recently used first. Memory is one
-- function for each struct field: `prev` and `next` give the links of the entry at an address.
-- The list is a member of the cache struct, so the `list == NULL` tests never fire and are left out.
pub mod Segment
pub mod Ordering
pub mod Runs
mod Tests
use concurrent_http_proxy_se.Base.{
  ℕ, ◌+◌, ◌-◌, ◌%◌, ◌^◌, Option, none, some, Ptr, ptr_eq, update, ltb, if◌then◌else◌,
}

-- lru_list_t, with the link fields of the lru_entry_t structs in memory
pub record Lru : Type 0 where
  pub head : Ptr
  pub tail : Ptr
  pub entry_count : ℕ
  pub prev : ℕ → Ptr
  pub next : ℕ → Ptr

unfoldable pub init : Lru → Lru
init s = record s { head = none; tail = none; entry_count = 0 }

-- `p->prev = v` and `p->next = v`
abbrev pub set_prev : Lru → ℕ → Ptr → Lru
set_prev s p v = record s { prev = update s.prev p v }

abbrev pub set_next : Lru → ℕ → Ptr → Lru
set_next s p v = record s { next = update s.next p v }

-- `if (list->head != NULL) list->head->prev = entry; else list->tail = entry;`
link_old_head : Lru → ℕ → Ptr → Lru
link_old_head s p none = record s { tail = some p }
link_old_head s p (some h) = set_prev s h (some p)

unfoldable pub attach_front : Lru → Ptr → Lru
unfolding link_old_head
attach_front s none = s
attach_front s (some p) =
    let s1 = set_next (set_prev s p none) p s.head in
    let s2 = link_old_head s1 p s1.head in
    record s2 { head = some p; entry_count = (s2.entry_count + 1) % 2 ^ 64 }

-- `if (entry->prev != NULL) entry->prev->next = entry->next; else list->head = entry->next;`
unlink_prev : Lru → Ptr → Ptr → Lru
unlink_prev s none after = record s { head = after }
unlink_prev s (some b) after = set_next s b after

-- `if (entry->next != NULL) entry->next->prev = entry->prev; else list->tail = entry->prev;`
unlink_next : Lru → Ptr → Ptr → Lru
unlink_next s none before = record s { tail = before }
unlink_next s (some a) before = set_prev s a before

unfoldable pub detach : Lru → Ptr → Lru
unfolding unlink_prev unlink_next
detach s none = s
detach s (some p) =
    let s1 = unlink_prev s (s.prev p) (s.next p) in
    let s2 = unlink_next s1 (s1.next p) (s1.prev p) in
    let s3 = set_next (set_prev s2 p none) p none in
    record s3 { entry_count = if ltb 0 s3.entry_count then s3.entry_count - 1 else s3.entry_count }

pub move_to_front : Lru → Ptr → Lru
move_to_front s none = s
move_to_front s (some p) =
    if ptr_eq s.head (some p) then s else attach_front (detach s (some p)) (some p)

-- The entry that was removed, or NULL.
remove_at : Lru → Ptr → Ptr × Lru
remove_at s none = (none, s)
remove_at s (some t) = (some t, detach s (some t))

unfoldable pub remove_tail : Lru → Ptr × Lru
unfolding remove_at
remove_tail s = remove_at s s.tail
