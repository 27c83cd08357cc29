-- ===== src/Support/Exceptions/Resumption.antt =====
-- A system call of a user process, as `generalExceptionHandler` of phase3/sysSupport.c makes it for the process.
use progetto_so.Base.{ℕ, ◌≡◌, ◌≢◌, List, ◌∷◌}
use progetto_so.Kernel.State.{ProcState}
use progetto_so.Kernel.Run.{add_word}
use progetto_so.Support.State.{Call, send, receive, receive_at, other, pointer, Level, World}
use progetto_so.Support.Exceptions.{set_v0, advance}

-- The system call that the registers of a user process ask for. The destination 0 is its parent.
pub data IsAsked (parent : ℕ) (s : ProcState) : Call → Type 0 where
  to_parent : s.reg_a0 ≡ 1 → s.reg_a1 ≡ 0 → IsAsked parent s (send parent (pointer s.reg_a2))
  to_other : s.reg_a0 ≡ 1 → s.reg_a1 ≢ 0 → IsAsked parent s (send s.reg_a1 (pointer s.reg_a2))
  from_other : s.reg_a0 ≡ 2 → IsAsked parent s (receive_at s.reg_a1 s.reg_a2)

-- The memory after a call of a user process: only the receipt of a message writes, where its pointer says.
abbrev pub memory_after : World → Call → (before : List Call) → (ℕ → ℕ) → ℕ → ℕ
memory_after w (receive_at p x) cs word = w.dma (receive_at p x ∷ cs) word
memory_after w (send p x) cs word = word
memory_after w (receive p) cs word = word
memory_after w (other n) cs word = word

-- The state `t` when the process with the support structure `support` goes on after the answer `v0` to the last of
-- `cs`: behind the instruction, with the answer in its register, and this memory.
pub record Resumed (support v0 : ℕ) (cs : List Call) (memory : ℕ → ℕ) (l t : Level) : Type 0 where
  pub state : t.sup_except_state support 1 ≡ record (l.sup_except_state support 1) {
    reg_v0 = v0;
    pc_epc = add_word (l.sup_except_state support 1).pc_epc 4;
  }
  pub fault_state : t.sup_except_state support 0 ≡ l.sup_except_state support 0
  pub others : (p : ℕ) → p ≢ support → t.sup_except_state p ≡ l.sup_except_state p
  pub calls : t.calls ≡ cs
  pub pool : t.swap_pool_table ≡ l.swap_pool_table
  pub free_support : t.free_support ≡ l.free_support
  pub word : t.word ≡ memory

module _ (w : World) (support : ℕ) where
  abbrev resume : (v0 : ℕ) → Level → Level
  resume v0 l = advance w support (set_v0 w support v0 l)
