-- ===== src/Kernel/State.antt =====
-- The state of the nucleus: the global variables of phase2/initial.c and phase2/scheduler.c, the fields
-- of headers/types.h, and what the hardware keeps for it.
use progetto_so.Base.{ℕ, ◌^◌, ◌-◌, List}

-- `state_t` of the emulator's library: the registers that the source names, and all others as one value.
pub record ProcState : Type 0 where
  pub status : ℕ
  pub cause : ℕ
  pub entry_hi : ℕ
  pub pc_epc : ℕ
  pub reg_a0 : ℕ
  pub reg_a1 : ℕ
  pub reg_a2 : ℕ
  pub reg_v0 : ℕ
  pub reg_sp : ℕ
  pub reg_t9 : ℕ
  pub others : ℕ

-- A pointer is an address, `NULL` is 0. `int` and `unsigned int` are words, below `2 ^ 32`.
pub record Kernel : Type 0 where
  -- the free lists, the ready queue, `blocked_proc[]`, and for each process its children and its inbox
  pub pcb_free : List ℕ
  pub msg_free : List ℕ
  pub ready_queue : List ℕ
  pub blocked_proc : ℕ → List ℕ
  pub p_child : ℕ → List ℕ
  pub msg_inbox : ℕ → List ℕ
  -- the other global variables
  pub current_process : ℕ
  pub process_count : ℕ
  pub soft_block_count : ℕ
  pub ssi_pcb : ℕ
  pub test_pcb : ℕ
  pub next_pid : ℕ
  pub timer_start : ℕ
  -- the other fields of a `pcb_t`
  pub p_parent : ℕ → ℕ
  pub p_s : ℕ → ProcState
  pub p_time : ℕ → ℕ
  pub p_support : ℕ → ℕ
  pub p_pid : ℕ → ℕ
  -- the fields of a `msg_t`
  pub m_sender : ℕ → ℕ
  pub m_payload : ℕ → ℕ
  pub m_string : ℕ → ℕ
  pub m_service : ℕ → ℕ
  pub m_arg : ℕ → ℕ
  -- `sup_asid` and the saved states of a `support_t`
  pub sup_asid : ℕ → ℕ
  pub sup_except_state : ℕ → ℕ → ProcState
  -- the saved exception state at `BIOSDATAPAGE`, the words of the memory, CP0's status register, the two
  -- timers, and how often the clock has been read
  pub proc_state : ProcState
  pub word : ℕ → ℕ
  pub cpu_status : ℕ
  pub local_timer : ℕ
  pub interval_timer : ℕ
  pub clock_reads : ℕ

-- The index of the general purpose list of `blocked_proc[]`; the one below is the pseudo-clock's.
abbrev pub sem_dev_len : ℕ
sem_dev_len = 49

abbrev pub clock_list : ℕ
clock_list = 48

abbrev pub word_mod : ℕ
word_mod = 2 ^ 32

abbrev pub int_max : ℕ
int_max = 2 ^ 31 - 1
