-- ===== src/PhaseOneTest/Checks.antt =====
-- `main` of phase1/p1test.c, in the parts that its comments and messages set apart.
use Prim.Native.String.{String}
use progetto_so.Base.{ℕ, zero, suc, ◌+◌, not, ◌||◌, ◌==◌, if◌then◌else◌, update}
use progetto_so.Listx.{null}
use progetto_so.Store.{Layout, max_proc}
use progetto_so.Pcb.{
  init_pcbs, alloc_pcb, free_pcb, mk_empty_proc_q, empty_proc_q, insert_proc_q, head_proc_q,
  out_proc_q, remove_proc_q,
}
use progetto_so.PhaseOneTest.{
  Output, Program, Act, and_then, ◌>>=◌, ◌>>◌, done, get, modify, calls, gives, finds, say, refuse,
}

-- `d` prints; `qa` and `qm` are the addresses of the two heads on the stack of `main`.
module _ (d : Output) (l : Layout) (qa qm : ℕ) where
  -- The rounds of the loop that fills `procp`.
  unfoldable pub alloc_from : (rounds i : ℕ) → Act (Unit {0})
  alloc_from zero i t = done t
  alloc_from (suc rounds) i t =
      let rest = alloc_from rounds (i + 1) in
      and_then
        ((do
          p ← gives (alloc_pcb l)
          modify λ t. record t { procp = update t.procp i p }
          refuse d (p == null) "allocPcb: unexpected NULL   ")
          t)
        (λ _. rest)

  -- The rounds of the loops that free `procp[i]`.
  unfoldable pub free_from : (rounds i : ℕ) → Act (Unit {0})
  free_from zero i t = done t
  free_from (suc rounds) i t =
      let rest = free_from rounds (i + 1) in
      rest (record t { store = free_pcb l (t.procp i) t.store })

  unfoldable pub check_pool : Act (Unit {0})
  unfolding alloc_from free_from
  check_pool = do
    calls (init_pcbs l)
    say d "Initialized process control blocks   \n"
    alloc_from max_proc 0
    p ← gives (alloc_pcb l)
    refuse d (not (p == null)) "allocPcb: allocated more than MAXPROC entries   "
    say d "allocPcb ok   \n"
    free_from 30 10
    say d "freed 10 entries   \n"

  -- The `switch` that keeps three of the entries.
  abbrev keep_proc : (i q : ℕ) → Program → Program
  keep_proc i q t =
      if i == 0
      then record t { firstproc = q }
      else if i == 5
      then record t { midproc = q }
      else if i == 9
      then record t { lastproc = q }
      else t

  -- The rounds of the loop that fills the queue.
  unfoldable pub insert_from : (rounds i : ℕ) → Act (Unit {0})
  insert_from zero i t = done t
  insert_from (suc rounds) i t =
      let rest = insert_from rounds (i + 1) in
      and_then
        ((do
          q ← gives (alloc_pcb l)
          modify λ t. record t { q = q }
          refuse d (q == null) "allocPcb: unexpected NULL while insert   "
          modify (keep_proc i q)
          calls (insert_proc_q qa q))
          t)
        (λ _. rest)

  unfoldable pub fill_queue : Act (Unit {0})
  unfolding insert_from
  fill_queue = do
    calls (mk_empty_proc_q qa)
    t ← get
    refuse d (not (empty_proc_q qa t.store)) "emptyProcQ: unexpected FALSE   "
    say d "Inserting...   \n"
    insert_from 10 0
    say d "inserted 10 elements   \n"
    t ← get
    refuse d (empty_proc_q qa t.store) "emptyProcQ: unexpected TRUE"

  -- `outProcQ` of an entry, which is then freed.
  abbrev take_out : (p : ℕ) → String → Act (Unit {0})
  take_out p text = do
    q ← finds (out_proc_q qa p)
    modify λ t. record t { q = q }
    refuse d ((q == null) || not (q == p)) text
    calls (free_pcb l q)

  unfoldable pub check_out : Act (Unit {0})
  check_out = do
    t ← get
    refuse d (not (head_proc_q qa t.store == t.firstproc)) "headProcQ failed   "
    take_out t.firstproc "outProcQ failed on first entry   "
    take_out t.midproc "outProcQ failed on middle entry   "
    q ← finds (out_proc_q qa (t.procp 0))
    refuse d (not (q == null)) "outProcQ failed on nonexistent entry   "
    say d "outProcQ ok   \n"

  -- The rounds of the loop that empties the queue.
  unfoldable pub remove_from : (rounds : ℕ) → Act (Unit {0})
  remove_from zero t = done t
  remove_from (suc rounds) t =
      let rest = remove_from rounds in
      and_then
        ((do
          q ← gives (remove_proc_q qa)
          modify λ t. record t { q = q }
          refuse d (q == null) "removeProcQ: unexpected NULL   "
          calls (free_pcb l q))
          t)
        (λ _. rest)

  unfoldable pub check_remove : Act (Unit {0})
  unfolding remove_from
  check_remove = do
    say d "Removing...   \n"
    remove_from 8
    t ← get
    refuse d (not (t.q == t.lastproc)) "removeProcQ: failed on last entry   "
    q ← gives (remove_proc_q qa)
    refuse d (not (q == null)) "removeProcQ: removes too many entries   "
    t ← get
    refuse d (not (empty_proc_q qa t.store)) "emptyProcQ: unexpected FALSE   "
    say d "insertProcQ, removeProcQ and emptyProcQ ok   \n"
    say d "process queues module ok      \n"
