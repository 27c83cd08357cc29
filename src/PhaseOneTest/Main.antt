-- ===== src/PhaseOneTest/Main.antt =====
-- The rest of `main` of phase1/p1test.c: the tree, the messages, and the whole.
use Prim.Native.String.{String}
use progetto_so.Base.{ℕ, zero, suc, ◌+◌, not, ◌||◌, ◌==◌, if◌then◌else◌, update}
use progetto_so.Listx.{null, list_prev}
use progetto_so.Store.{Layout, Store, max_messages, p_child, p_sib}
use progetto_so.Pcb.{alloc_pcb, empty_child, insert_child, out_child, remove_child}
use progetto_so.Msg.{
  init_msgs, alloc_msg, free_msg, mk_empty_message_q, empty_message_q, insert_message, push_message,
  pop_message, head_message,
}
use progetto_so.PhaseOneTest.{
  Output, Program, Act, returns, and_then, ◌>>=◌, ◌>>◌, done, get, modify, calls, gives, finds, say,
  refuse,
}
use progetto_so.PhaseOneTest.Checks.{free_from, check_pool, fill_queue, check_out, check_remove}

module _ (d : Output) (l : Layout) (qa qm : ℕ) where
  -- The rounds of the loop that makes `procp[i]` a child of `procp[0]`.
  unfoldable pub insert_children_from : (rounds i : ℕ) → Program → Program
  insert_children_from zero i t = t
  insert_children_from (suc rounds) i t =
      insert_children_from rounds (i + 1)
        (record t { store = insert_child (t.procp 0) (t.procp i) t.store })

  unfoldable pub fill_tree : Act (Unit {0})
  unfolding insert_children_from
  fill_tree = do
    say d "checking process trees...\n"
    t ← get
    refuse d (not (empty_child (t.procp 2) t.store)) "emptyChild: unexpected FALSE   "
    say d "Inserting...   \n"
    modify (insert_children_from 9 1)
    say d "Inserted 9 children   \n"
    t ← get
    refuse d (not (t.store.mem.next (p_child (t.procp 0)) == p_sib (t.procp 1)))
        "insertChild: p_child.next should point to the p_sib of the first child   "
    refuse d (empty_child (t.procp 0) t.store) "emptyChild: unexpected TRUE   "

  -- `outChild` of a child.
  abbrev takes_child : (p : ℕ) → String → Act (Unit {0})
  takes_child p text = do
    q ← gives (out_child p)
    modify λ t. record t { q = q }
    refuse d ((q == null) || not (q == p)) text

  -- The rounds of the loop that removes the children.
  unfoldable pub remove_children_from : (rounds : ℕ) → Act (Unit {0})
  remove_children_from zero t = done t
  remove_children_from (suc rounds) t =
      let rest = remove_children_from rounds in
      and_then
        ((do
          q ← gives (remove_child (t.procp 0))
          modify λ t. record t { q = q }
          refuse d (q == null) "removeChild: unexpected NULL   ")
          t)
        (λ _. rest)

  unfoldable pub empty_tree : Act (Unit {0})
  unfolding remove_children_from
  empty_tree = do
    t ← get
    takes_child (t.procp 1) "outChild failed on first child   "
    takes_child (t.procp 4) "outChild failed on middle child   "
    q ← gives (out_child (t.procp 0))
    refuse d (not (q == null)) "outChild failed on nonexistent child   "
    say d "outChild ok   \n"
    say d "Removing...   \n"
    remove_children_from 7
    q ← gives (remove_child (t.procp 0))
    refuse d (not (q == null)) "removeChild: removes too many children   "
    t ← get
    refuse d (not (empty_child (t.procp 0) t.store)) "emptyChild: unexpected FALSE   "
    say d "insertChild, removeChild and emptyChild ok   \n"
    say d "process tree module ok      \n"
    free_from d l qa qm 10 0

  -- The rounds of the loop that fills `msg`.
  unfoldable pub alloc_msgs_from : (rounds i : ℕ) → Act (Unit {0})
  alloc_msgs_from zero i t = done t
  alloc_msgs_from (suc rounds) i t =
      let rest = alloc_msgs_from rounds (i + 1) in
      and_then
        ((do
          m ← gives (alloc_msg l)
          modify λ t. record t { msg = update t.msg i m }
          refuse d (m == null) "allocMsg: unexpected NULL   ")
          t)
        (λ _. rest)

  -- The rounds of the loop that frees `msg[i]`.
  unfoldable pub free_msgs_from : (rounds i : ℕ) → Program → Program
  free_msgs_from zero i t = t
  free_msgs_from (suc rounds) i t =
      free_msgs_from rounds (i + 1) (record t { store = free_msg l (t.msg i) t.store })

  unfoldable pub check_msg_pool : Act (Unit {0})
  unfolding alloc_msgs_from free_msgs_from
  check_msg_pool = do
    calls (init_msgs l)
    say d "Initialized messages   \n"
    alloc_msgs_from max_messages 0
    m ← gives (alloc_msg l)
    refuse d (not (m == null)) "allocMsg: allocated more than MAXMESSAGES entries   "
    say d "allocMsg ok   \n"
    modify (free_msgs_from 35 5)
    say d "freed 15 entries   \n"

  abbrev keep_msg : (i m : ℕ) → Program → Program
  keep_msg i m t =
      if i == 0
      then record t { firstmsg = m }
      else if i == 5
      then record t { midmsg = m }
      else if i == 9
      then record t { lastmsg = m }
      else t

  -- The rounds of the loop that fills the message queue.
  unfoldable pub insert_msgs_from : (rounds i : ℕ) → Act (Unit {0})
  insert_msgs_from zero i t = done t
  insert_msgs_from (suc rounds) i t =
      let rest = insert_msgs_from rounds (i + 1) in
      and_then
        ((do
          m ← gives (alloc_msg l)
          modify λ t. record t { m = m }
          refuse d (m == null) "allocMsg: unexpected NULL while insert   "
          modify (keep_msg i m)
          calls (insert_message qm m))
          t)
        (λ _. rest)

  unfoldable pub fill_msgs : Act (Unit {0})
  unfolding insert_msgs_from
  fill_msgs = do
    calls (mk_empty_message_q qm)
    t ← get
    refuse d (not (empty_message_q qm t.store)) "emptyMessageQ: unexpected FALSE   "
    say d "Inserting...   \n"
    insert_msgs_from 10 0
    say d "inserted 10 elements   \n"
    t ← get
    refuse d (empty_message_q qm t.store) "emptyMessageQ: unexpected TRUE"

  -- A new message, kept in `n`.
  abbrev new_msg : Act ℕ
  new_msg = do n ← gives (alloc_msg l); modify (λ t. record t { n = n }); λ t. returns n t

  abbrev sent_by : (p m : ℕ) → Store → Store
  sent_by p m s = record s { m_sender = update s.m_sender m p }

  unfoldable pub check_pop : Act (Unit {0})
  check_pop = do
    t ← get
    refuse d (not (head_message qm t.store == t.firstmsg)) "headMessage failed   "
    say d "headMessage ok   \n"
    n ← finds (pop_message qm null)
    modify λ t. record t { n = n }
    refuse d ((n == null) || not (n == t.firstmsg)) "popMessage failed with NULL pcb   "
    calls (free_msg l n)
    say d "popMessage with NULL pcb ok   \n"
    n ← new_msg
    calls (push_message qm n)
    t ← get
    refuse d (not (head_message qm t.store == n)) "pushMessage failed   "
    say d "pushMessage ok   \n"
    n ← new_msg
    calls (insert_message qm n)
    t ← get
    refuse d (not (list_prev qm t.store.mem == n)) "insertMessage failed  "
    say d "insertMessage ok   \n"

  unfoldable pub check_sender : Act (Unit {0})
  check_sender = do
    p ← gives (alloc_pcb l)
    m ← gives (alloc_msg l)
    modify λ t. record t { m = m }
    calls (sent_by p m)
    calls (insert_message qm m)
    n ← new_msg
    calls (sent_by p n)
    calls (insert_message qm n)
    o ← finds (pop_message qm p)
    refuse d ((o == null) || not (o == m)) "popMessage failed with pcb   "
    say d "popMessage with pcb ok   \n"
    say d "messages queue module ok      \n"
    say d "So long, and thanks for all the fish\n"

  unfoldable pub main : Act ℕ
  unfolding check_pool fill_queue check_out check_remove fill_tree empty_tree check_msg_pool
      fill_msgs check_pop check_sender
  main = do
    check_pool d l qa qm
    fill_queue d l qa qm
    check_out d l qa qm
    check_remove d l qa qm
    fill_tree
    empty_tree
    check_msg_pool
    fill_msgs
    check_pop
    check_sender
    λ t. returns 0 t
