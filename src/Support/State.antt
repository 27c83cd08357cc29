-- ===== src/Support/State.antt =====
-- The state of the support level: the variables of phase3/initProc.c, phase3/vmSupport.c and phase3/sst.c, the
-- support structures of headers/types.h, and the system calls that its processes have made.
use progetto_so.Base.{ℕ, List, ◌∷◌, Option, none, some}
use progetto_so.Kernel.State.{ProcState}

-- A pointer that a message carries: to nothing, to a word with this value, a pointer of a user process, or to one
-- of the requests to the service interface, each with the words of its structure.
pub data Payload : Type 0 where
  nothing : Payload
  value pointer : ℕ → Payload
  io_request : (addr value : ℕ) → Payload
  process_request : ProcState → (support : ℕ) → Payload
  end_request : ℕ → Payload
  support_request : Payload

-- The instruction SYSCALL by the contents of its registers: SENDMESSAGE, RECEIVEMESSAGE with a variable of the function
-- or with a pointer of a user process for the payload, or another number.
pub data Call : Type 0 where
  send : (destination : ℕ) → Payload → Call
  receive : (sender : ℕ) → Call
  receive_at : (sender payload : ℕ) → Call
  other : (number : ℕ) → Call

-- What a system call gives back: the register `v0`, and the words stored where the second argument of
-- RECEIVEMESSAGE points.
pub record Answer : Type 0 where
  pub v0 : ℕ
  pub word : ℕ
  pub next_word : ℕ

-- An entry of the swap pool table.
pub record Swap : Type 0 where
  pub sw_asid : ℕ
  pub sw_page_no : ℕ
  pub sw_pte : ℕ

-- `context_t`
pub record Context : Type 0 where
  pub stack_ptr : ℕ
  pub status : ℕ
  pub pc : ℕ

pub record Level : Type 0 where
  -- the nucleus's variable, the fields of the process control blocks that the level reads, the test process and
  -- the service interface
  pub current_process : ℕ
  pub p_parent : ℕ → ℕ
  pub p_support : ℕ → ℕ
  pub test_pcb : ℕ
  pub ssi_pcb : ℕ
  -- the free support structures, and the fields of each; a page table entry is named by its address
  pub free_support : List ℕ
  pub sup_asid : ℕ → ℕ
  pub sup_except_state : ℕ → ℕ → ProcState
  pub sup_except_context : ℕ → ℕ → Context
  pub pte_hi : ℕ → ℕ
  pub pte_lo : ℕ → ℕ
  -- the stack frames handed out, the swap pool and its counter, the mutex processes and who is in the pool
  pub curr_offset : ℕ
  pub swap_pool_table : ℕ → Swap
  pub frame_index : ℕ
  pub swap_mutex_proc : ℕ
  pub curr_mutex_proc : ℕ
  pub terminal_mutex_proc : ℕ → ℕ
  pub printer_mutex_proc : ℕ → ℕ
  -- the tables `terminal_mutex` and `printer_mutex` of addresses of functions
  pub terminal_mutex_at : ℕ → ℕ
  pub printer_mutex_at : ℕ → ℕ
  -- the child of the system service threads
  pub u_proc : ℕ
  -- the processes given to the nucleus's TerminateProcess, the last first
  pub terminated : List ℕ
  -- the words of the memory and the device registers, the status and EntryHi registers, the TLB from EntryHi
  -- to EntryLo, and the system calls made, the last first
  pub word : ℕ → ℕ
  pub cpu_status : ℕ
  pub entry_hi : ℕ
  pub entry_lo : ℕ
  pub tlb : ℕ → Option ℕ
  pub calls : List Call

-- What is not under the level's control: the answer to the last of the system calls made, `none` if it never
-- returns; and what the emulator's headers, the linker and the machine give.
pub record World : Type 0 where
  pub answer : List Call → Option Answer
  pub stck : List Call → ℕ
  pub stst : List Call → ProcState
  -- the memory after the last of the calls, to which a device may have written, or the nucleus where the call points
  pub dma : List Call → (ℕ → ℕ) → ℕ → ℕ
  -- the characters of the memory, each as the word that the language converts it to
  pub char_at : ℕ → ℕ
  pub ram_top : ℕ
  pub page_size : ℕ
  pub dev_reg_addr : (line dev : ℕ) → ℕ
  pub il_flash : ℕ
  pub il_terminal : ℕ
  -- cp0.h: the exception code of a cause, the page number and the identifier of an EntryHi register, the
  -- places of these two, the dirty bit and the mask of the frame number of an EntryLo register
  pub exc_code : ℕ → ℕ
  pub get_vpn : ℕ → ℕ
  pub get_asid : ℕ → ℕ
  pub vpn_bit : ℕ
  pub asid_bit : ℕ
  pub entrylo_dirty : ℕ
  pub entrylo_pfn_mask : ℕ
  -- the INDEX register after TLBP
  pub index_after_tlbp : (tlb : ℕ → Option ℕ) → (entry_hi : ℕ) → ℕ
  -- `container_of(&free_support, support_t, s_list)`, the address of an entry of the page table of a support
  -- structure, and the addresses of functions
  pub free_support_owner : ℕ
  pub sup_private_pg_tbl : (support index : ℕ) → ℕ
  pub swap_mutex_code : ℕ
  pub sst_server_code : ℕ
  pub terminal_mutex_code : ℕ → ℕ
  pub printer_mutex_code : ℕ → ℕ
  pub tlb_exception_code : ℕ
  pub general_exception_code : ℕ

-- How a function of the level ends: it returns, or control leaves it for good.
pub data End : Type 0 where
  never_answered : End
  ldst : ProcState → End
  panic : End

pub data Result (A : Type 0) : Type 0 where
  returns : A → Level → Result A
  ends : End → Level → Result A

abbrev pub Act : Type 0 → Type 0
Act A = Level → Result A

module _ {A B : Type 0} where
  abbrev pub and_then : Result A → (A → Act B) → Result B
  and_then (returns a l) f = f a l
  and_then (ends e l) f = ends e l

  infixl 5 ◌>>=◌ ◌>>◌
  abbrev pub ◌>>=◌ : Act A → (A → Act B) → Act B
  m >>= f = λ l. and_then (m l) f

  abbrev pub ◌>>◌ : Act A → Act B → Act B
  m >> n = m >>= λ _. n

abbrev pub pure : {A : Type 0} → A → Act A
pure = returns

abbrev pub done : Act (Unit {0})
done = returns tt

abbrev pub finish : {A : Type 0} → End → Act A
finish = ends

abbrev pub modify : (Level → Level) → Act (Unit {0})
modify f l = returns tt (f l)

abbrev pub get : Act Level
get l = returns l l

-- The state in which a function leaves the level, however it ends.
abbrev pub final : {A : Type 0} → Result A → Level
final (returns a l) = l
final (ends e l) = l

abbrev pub answered : Option Answer → Act Answer
answered none = ends never_answered
answered (some a) = returns a

-- One system call.
unfoldable pub syscall : World → Call → Act Answer
syscall w c l = answered (w.answer (c ∷ l.calls)) (record l { calls = c ∷ l.calls })
