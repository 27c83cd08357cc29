-- ===== src/Support/Exceptions.antt =====
-- The exception handlers of phase3/sysSupport.c, but for the trap, which stands with the pager.
pub mod Resumption
pub mod Trap
use progetto_so.Base.{ℕ, ◌==◌, if◌then◌else◌, update}
use progetto_so.Kernel.Run.{add_word}
use progetto_so.Support.State.{
  pointer, send, receive_at, Level, World, Act, ldst, ◌>>=◌, ◌>>◌, pure, modify, get, finish,
  syscall,
}
use progetto_so.Support.Calls.{get_support_ptr}
use progetto_so.Support.Paging.{trap_exception_handler}

module _ (w : World) where
  -- `USendMsg`: 0 stands for the parent. Its argument `payload` is a pointer of the user process.
  unfoldable pub usend_msg : (destination payload : ℕ) → Act ℕ
  usend_msg destination payload = do
    l ← get
    let to = if destination == 0 then l.p_parent l.current_process else destination
    a ← syscall w (send to (pointer payload))
    pure a.v0

  -- The nucleus stores the payload where the pointer of the user process says.
  unfoldable pub ureceive_msg : (sender payload : ℕ) → Act ℕ
  ureceive_msg sender payload = do
    a ← syscall w (receive_at sender payload)
    modify λ l. record l { word = w.dma l.calls l.word }
    pure a.v0

  -- `SUP_PROC_STATE(support).reg_v0 = …`
  abbrev pub set_v0 : (support v0 : ℕ) → Level → Level
  set_v0 support v0 l = record l {
    sup_except_state = update l.sup_except_state support (
        update (l.sup_except_state support) 1
          (record (l.sup_except_state support 1) { reg_v0 = v0 }));
  }

  abbrev pub advance : (support : ℕ) → Level → Level
  advance support l = record l {
    sup_except_state = update l.sup_except_state support (
        update (l.sup_except_state support) 1 (record (l.sup_except_state support 1) {
          pc_epc = add_word (l.sup_except_state support 1).pc_epc 4;
        }));
  }

  unfoldable pub supp_systemcall_handler : (support : ℕ) → Act (Unit {0})
  unfolding usend_msg ureceive_msg
  supp_systemcall_handler support = do
    l ← get
    let s = l.sup_except_state support 1
    if s.reg_a0 == 1
        then usend_msg s.reg_a1 s.reg_a2 >>= (λ v0. modify (set_v0 support v0))
        else if s.reg_a0 == 2
        then ureceive_msg s.reg_a1 s.reg_a2 >>= (λ v0. modify (set_v0 support v0))
        else trap_exception_handler w
    modify (advance support)
    l ← get
    finish (ldst (l.sup_except_state support 1))

  unfoldable pub general_exception_handler : Act (Unit {0})
  unfolding supp_systemcall_handler
  general_exception_handler = do
    support ← get_support_ptr w
    l ← get
    if w.exc_code (l.sup_except_state support 1).cause == 8
        then supp_systemcall_handler support
        else trap_exception_handler w
