-- ===== src/Listx.antt =====
-- headers/listx.h: the circular doubly linked lists of `struct list_head`. The memory gives the two
-- fields of the `list_head` at each address; `NULL` is address 0.
pub mod Chain
pub mod Insert
pub mod Delete
pub mod Scan
pub mod Frame
mod Tests
use progetto_so.Base.{ℕ, zero, suc, Bool, ◌==◌, if◌then◌else◌, update}

-- `struct list_head` at every address.
pub record Mem : Type 0 where
  pub next : ℕ → ℕ
  pub prev : ℕ → ℕ

abbrev pub null : ℕ
null = 0

-- `p->next = q`
abbrev pub set_next : ℕ → ℕ → Mem → Mem
set_next p q m = record m { next = update m.next p q }

-- `p->prev = q`
abbrev pub set_prev : ℕ → ℕ → Mem → Mem
set_prev p q m = record m { prev = update m.prev p q }

unfoldable pub init_list_head : ℕ → Mem → Mem
init_list_head list m = set_prev list list (set_next list list m)

-- `__list_add`
unfoldable pub list_add_between : (new prev next : ℕ) → Mem → Mem
list_add_between new prev next m =
    set_next prev new (set_prev new prev (set_next new next (set_prev next new m)))

unfoldable pub list_add : (new head : ℕ) → Mem → Mem
unfolding list_add_between
list_add new head m = list_add_between new head (m.next head) m

unfoldable pub list_add_tail : (new head : ℕ) → Mem → Mem
unfolding list_add_between
list_add_tail new head m = list_add_between new (m.prev head) head m

-- `__list_del`
unfoldable pub list_del_between : (prev next : ℕ) → Mem → Mem
list_del_between prev next m = set_next prev next (set_prev next prev m)

unfoldable pub list_del : (entry : ℕ) → Mem → Mem
unfolding list_del_between
list_del entry m = list_del_between (m.prev entry) (m.next entry) m

unfoldable pub list_is_last : (list head : ℕ) → Mem → Bool
list_is_last list head m = m.next list == head

unfoldable pub list_empty : (head : ℕ) → Mem → Bool
list_empty head m = m.next head == head

unfoldable pub list_next : (current : ℕ) → Mem → ℕ
unfolding list_empty
list_next current m = if list_empty current m then null else m.next current

unfoldable pub list_prev : (current : ℕ) → Mem → ℕ
unfolding list_empty
list_prev current m = if list_empty current m then null else m.prev current

-- What a loop over a list ends with: a `return` of an entry, or the head reached again.
pub data Search : Type 0 where
  found : ℕ → Search
  absent : Search
  out_of_fuel : Search

-- `list_for_each_entry` with a body that returns the first entry that passes `test`. The entries of
-- the lists searched this way have their `list_head` as first field, so `container_of` is the
-- identity. The loop is given fuel, since it need not end on a broken list.
pub search_from : ℕ → (ℕ → Bool) → (pos head : ℕ) → Mem → Search
search_from zero test pos head m = out_of_fuel
search_from (suc fuel) test pos head m =
    let rest = search_from fuel test (m.next pos) head m in
    if pos == head then absent else if test pos then found pos else rest

unfoldable pub list_search : ℕ → (ℕ → Bool) → (head : ℕ) → Mem → Search
unfolding search_from
list_search fuel test head m = search_from fuel test (m.next head) head m
