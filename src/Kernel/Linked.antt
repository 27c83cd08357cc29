-- ===== src/Kernel/Linked.antt =====
-- The nucleus's queues as the linked lists of phase1/pcb.c: `readyProcess` of phase2/scheduler.c on the memory of
-- phase 1, and what it means that the lists hold the queues of the model.
pub mod Moves
use progetto_so.Base.{
  ℕ, ◌≤◌, ◌<◌, ◌≡◌, ◌≢◌, false, List, ◌∷◌, Option, none, some, ◌==◌, if◌then◌else◌, has, length,
  Apart,
}
use progetto_so.Listx.{Mem, null}
use progetto_so.Listx.Chain.{IsList}
use progetto_so.Store.{Store, max_proc}
use progetto_so.Pcb.{insert_proc_q, out_proc_q}
use progetto_so.Kernel.State.{Kernel}

-- The lists are numbered: those of `blocked_proc[]` by their index, and after them the ready queue.
abbrev pub ready_list : ℕ
ready_list = 50

abbrev pub lists : ℕ
lists = 51

abbrev pub queue_of : Kernel → ℕ → List ℕ
queue_of k i = if i == ready_list then k.ready_queue else k.blocked_proc i

-- The memory holds all queues, at the heads `h`: each is a well-formed list without `NULL`, none is longer than the
-- table of blocks, and no two share a node.
pub record AreQueues (h : ℕ → ℕ) (c : ℕ → List ℕ) (m : Mem) : Type 0 where
  pub list : (i : ℕ) → i < lists → IsList m (h i) (c i)
  pub apart : (i j : ℕ) → i < lists → j < lists → i ≢ j → Apart (h i ∷ c i) (h j ∷ c j)
  pub head_live : (i : ℕ) → i < lists → h i ≢ null
  pub live : (i : ℕ) → i < lists → has null (c i) ≡ false
  pub short : (i : ℕ) → i < lists → length (c i) ≤ max_proc

abbrev pub IsRepresented : (h : ℕ → ℕ) → Store → Kernel → Type 0
IsRepresented h s k = AreQueues h (queue_of k) s.mem

-- The result of a search that ended, without the pointer.
abbrev pub inserted : (head p : ℕ) → Option (ℕ × Store) → Option Store
inserted head p none = none
inserted head p (some (q, s)) = some (insert_proc_q head p s)

-- `readyProcess(p, index)`, where the list has its head at `list` and the ready queue at `ready`.
unfoldable pub ready_process_linked : (ready list p : ℕ) → Store → Option Store
ready_process_linked ready list p s = inserted ready p (out_proc_q list p s)
