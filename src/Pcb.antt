-- ===== src/Pcb.antt =====
-- phase1/pcb.c: process control blocks, their free list, process queues and the process tree. A
-- function that changes the store returns the new one; one whose loop need not end on a broken list
-- returns an option, `none` for a loop that does not end.
pub mod Queue
pub mod Pool
pub mod Tree
pub mod Samples
mod Tests
use progetto_so.Base.{
  ℕ, zero, suc, ◌+◌, ◌*◌, Bool, true, false, ◌||◌, Option, none, some, ◌==◌, if◌then◌else◌, update,
}
use progetto_so.Listx.{
  Mem, null, init_list_head, list_add, list_add_tail, list_del, list_empty, Search, found, absent,
  out_of_fuel, list_search,
}
use progetto_so.Store.{Layout, Store, max_proc, p_child, p_sib, msg_inbox, owner_of_sib, pcb_size}

-- A process queue holds at most `MAXPROC` entries, and its loop looks at the head once more.
abbrev pub search_fuel : ℕ
search_fuel = max_proc + 1

abbrev pub on_mem : (Mem → Mem) → Store → Store
on_mem f s = record s { mem = f s.mem }

-- The pointer that a search returns.
abbrev pub result_of : Search → Option ℕ
result_of (found p) = some p
result_of absent = some null
result_of out_of_fuel = none

-- `__resetPcb`
unfoldable pub reset_pcb : Layout → (p : ℕ) → Store → Store
reset_pcb l p s = record s {
  mem =
      init_list_head (msg_inbox l p)
        (init_list_head (p_sib p) (init_list_head (p_child p) (init_list_head p s.mem)));
  p_parent = update s.p_parent p null;
  p_time = update s.p_time p 0;
  p_support = update s.p_support p null;
  p_entry_hi = update s.p_entry_hi p s.next_pid;
  p_pid = update s.p_pid p s.next_pid;
  next_pid = s.next_pid + 1;
}

unfoldable pub search_in_list : Layout → (p list : ℕ) → Store → Option ℕ
search_in_list l p list s =
    let head = if list == null then l.pcb_free_h else list in
    if p == null
    then some null
    else if list_empty head s.mem
    then some null
    else result_of (list_search search_fuel (λ pos. pos == p) head s.mem)

-- The rounds of the loop of `initPcbs` from the `i`-th on.
init_pcbs_from : Layout → (rounds i : ℕ) → Store → Store
init_pcbs_from l zero i s = s
init_pcbs_from l (suc rounds) i s =
    init_pcbs_from l rounds (i + 1)
      (on_mem (list_add (l.pcb_table + i * pcb_size l) l.pcb_free_h) s)

unfoldable pub init_pcbs : Layout → Store → Store
unfolding init_pcbs_from
init_pcbs l s = init_pcbs_from l max_proc 0 s

unfoldable pub free_pcb : Layout → (p : ℕ) → Store → Store
free_pcb l p s = if p == null then s else on_mem (list_add p l.pcb_free_h) s

unfoldable pub alloc_pcb : Layout → Store → ℕ × Store
alloc_pcb l s =
    let p = s.mem.next l.pcb_free_h in
    if list_empty l.pcb_free_h s.mem then (null, s) else (p, reset_pcb l p (on_mem (list_del p) s))

unfoldable pub mk_empty_proc_q : (head : ℕ) → Store → Store
mk_empty_proc_q head s = if head == null then s else on_mem (init_list_head head) s

unfoldable pub empty_proc_q : (head : ℕ) → Store → Bool
empty_proc_q head s = if head == null then false else list_empty head s.mem

unfoldable pub insert_proc_q : (head p : ℕ) → Store → Store
insert_proc_q head p s = if p == null then s else on_mem (list_add_tail p head) s

unfoldable pub head_proc_q : (head : ℕ) → Store → ℕ
unfolding empty_proc_q
head_proc_q head s = if empty_proc_q head s then null else s.mem.next head

unfoldable pub remove_proc_q : (head : ℕ) → Store → ℕ × Store
unfolding empty_proc_q
remove_proc_q head s =
    let pos = s.mem.next head in
    if empty_proc_q head s
    then (null, s)
    else if s.mem.next pos == head
    then (pos, on_mem (init_list_head head) (on_mem (list_del pos) s))
    else (pos, on_mem (list_del pos) s)

-- The body of the loop of `outProcQ`, at the entry that is found.
abbrev out_found : Store → Search → Option (ℕ × Store)
out_found s (found pos) = some (pos, on_mem (list_del pos) s)
out_found s absent = some (null, s)
out_found s out_of_fuel = none

unfoldable pub out_proc_q : (head p : ℕ) → Store → Option (ℕ × Store)
unfolding empty_proc_q
out_proc_q head p s =
    if empty_proc_q head s || (p == null)
    then some (null, s)
    else if s.mem.next head == p
    then some (remove_proc_q head s)
    else out_found s (list_search search_fuel (λ pos. pos == p) head s.mem)

unfoldable pub empty_child : (p : ℕ) → Store → Bool
unfolding empty_proc_q
empty_child p s = empty_proc_q (p_child p) s

unfoldable pub insert_child : (prnt p : ℕ) → Store → Store
insert_child prnt p s = if (prnt == null) || (p == null) then s else record s {
  mem = list_add_tail (p_sib p) (p_child prnt) s.mem;
  p_parent = update s.p_parent p prnt;
}

-- `list_del(&p->p_sib); p->p_parent = NULL;`
unfoldable pub orphan : (p : ℕ) → Store → Store
orphan p s = record s { mem = list_del (p_sib p) s.mem; p_parent = update s.p_parent p null }

unfoldable pub remove_child : (p : ℕ) → Store → ℕ × Store
unfolding empty_child orphan
remove_child p s =
    let tmp = owner_of_sib (s.mem.next (p_child p)) in
    if (p == null) || empty_child p s then (null, s) else (tmp, orphan tmp s)

unfoldable pub out_child : (p : ℕ) → Store → ℕ × Store
unfolding orphan
out_child p s = if (p == null) || (s.p_parent p == null) then (null, s) else (p, orphan p s)
