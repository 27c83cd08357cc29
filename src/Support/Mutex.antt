-- ===== src/Support/Mutex.antt =====
-- The processes that grant mutual exclusion: `swap_mutex` of phase3/vmSupport.c and the sixteen processes of
-- phase3/deviceMutex.c. Each is a loop that owns one `curr_…` variable and talks by messages without payload,
-- so its inbox is modelled by the senders of its messages, oldest first.
pub mod Exclusion
pub mod History
use progetto_so.Base.{ℕ, List, [], ◌∷◌, ◌++◌, ◌==◌, if◌then◌else◌, has, erase, update}
use progetto_so.Listx.{null}

-- The variable that names the process inside, `NULL` for none, the inbox of the mutex process, and the
-- processes to which it has sent its answer, oldest first.
pub record Mutex : Type 0 where
  pub curr : ℕ
  pub inbox : List ℕ
  pub answered : List ℕ

-- `SYSCALL(RECEIVEMESSAGE, ANYMESSAGE, 0, 0)`, stored in the variable, and the answer to its sender. Without
-- a message the process waits.
unfoldable pub admit : List ℕ → Mutex → Mutex
admit [] m = m
admit (p ∷ ps) m = record m { curr = p; inbox = ps; answered = m.answered ++ p ∷ [] }

-- `SYSCALL(RECEIVEMESSAGE, curr, 0, 0)`, and the variable reset. Without a message of that process it waits.
unfoldable pub release : Mutex → Mutex
release m = if has m.curr m.inbox then record m { curr = null; inbox = erase m.curr m.inbox } else m

-- One round of the loop of `swap_mutex`.
unfoldable pub swap_mutex : Mutex → Mutex
unfolding admit release
swap_mutex m = if m.curr == null then admit m.inbox m else release m

-- The device mutexes of all U-procs, by the index of the array.
pub record DeviceMutexes : Type 0 where
  pub terminal : ℕ → Mutex
  pub printer : ℕ → Mutex

-- One round of the loop of `terminal_mutex_<i + 1>`.
unfoldable pub terminal_mutex : (i : ℕ) → DeviceMutexes → DeviceMutexes
unfolding admit release
terminal_mutex i d =
    let m = d.terminal i in
    record d {
      terminal = update d.terminal i (if m.curr == null then admit m.inbox m else release m);
    }

-- One round of the loop of `printer_mutex_<i + 1>`.
unfoldable pub printer_mutex : (i : ℕ) → DeviceMutexes → DeviceMutexes
unfolding admit release
printer_mutex i d =
    let m = d.printer i in
    record d {
      printer = update d.printer i (if m.curr == null then admit m.inbox m else release m);
    }
