-- ===== src/Msg.antt =====
-- phase1/msg.c: messages, their free list and message queues.
pub mod Queue
pub mod Pool
mod Tests
use progetto_so.Base.{
  ℕ, zero, suc, ◌+◌, ◌*◌, Bool, false, Option, none, some, ◌==◌, if◌then◌else◌, update,
}
use progetto_so.Listx.{
  Mem, null, init_list_head, list_add, list_add_tail, list_del, list_empty, Search, found, absent,
  out_of_fuel, list_search,
}
use progetto_so.Store.{Layout, Store, max_proc, max_messages, msg_size, minus_one}
use progetto_so.Pcb.{on_mem}

-- A message queue holds at most `MAXMESSAGES` entries, and its loop looks at the head once more.
abbrev pub search_fuel : ℕ
search_fuel = max_messages + 1

-- The rounds of the loop of `initMsgs` from the `i`-th on; its bound is `MAXPROC`.
init_msgs_from : Layout → (rounds i : ℕ) → Store → Store
init_msgs_from l zero i s = s
init_msgs_from l (suc rounds) i s =
    init_msgs_from l rounds (i + 1) (on_mem (list_add (l.msg_table + i * msg_size) l.msg_free_h) s)

unfoldable pub init_msgs : Layout → Store → Store
unfolding init_msgs_from
init_msgs l s = init_msgs_from l max_proc 0 (on_mem (init_list_head l.msg_free_h) s)

unfoldable pub free_msg : Layout → (m : ℕ) → Store → Store
free_msg l m s = if m == null then s else on_mem (list_add m l.msg_free_h) s

-- `__resetMsg`
unfoldable pub reset_msg : (m : ℕ) → Store → Store
reset_msg m s = record s {
  mem = init_list_head m s.mem;
  m_payload = update s.m_payload m 0;
  m_sender = update s.m_sender m null;
  m_service = update s.m_service m minus_one;
  m_arg = update s.m_arg m null;
  m_string = update s.m_string m null;
}

unfoldable pub alloc_msg : Layout → Store → ℕ × Store
alloc_msg l s =
    let m = s.mem.next l.msg_free_h in
    if list_empty l.msg_free_h s.mem then (null, s) else (m, reset_msg m (on_mem (list_del m) s))

unfoldable pub mk_empty_message_q : (head : ℕ) → Store → Store
mk_empty_message_q head s = if head == null then s else on_mem (init_list_head head) s

unfoldable pub empty_message_q : (head : ℕ) → Store → Bool
empty_message_q head s = if head == null then false else list_empty head s.mem

unfoldable pub insert_message : (head m : ℕ) → Store → Store
insert_message head m s =
    if head == null then s else if m == null then s else on_mem (list_add_tail m head) s

unfoldable pub push_message : (head m : ℕ) → Store → Store
push_message head m s =
    if head == null then s else if m == null then s else on_mem (list_add m head) s

-- The body of the loop of `popMessage`, at the message that is found.
abbrev pop_found : Store → Search → Option (ℕ × Store)
pop_found s (found m) = some (m, on_mem (list_del m) s)
pop_found s absent = some (null, s)
pop_found s out_of_fuel = none

unfoldable pub pop_message : (head p_ptr : ℕ) → Store → Option (ℕ × Store)
pop_message head p_ptr s =
    let first = s.mem.next head in
    if head == null
    then some (null, s)
    else if list_empty head s.mem
    then some (null, s)
    else if p_ptr == null
    then some (first, on_mem (list_del first) s)
    else pop_found s (list_search search_fuel (λ iter. s.m_sender iter == p_ptr) head s.mem)

unfoldable pub head_message : (head : ℕ) → Store → ℕ
head_message head s =
    if head == null then null else if list_empty head s.mem then null else s.mem.next head
