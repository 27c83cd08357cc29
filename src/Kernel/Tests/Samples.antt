-- ===== src/Kernel/Tests/Samples.antt =====
-- A state of the nucleus for the tests. The service interface 10 waits for requests. The test process 20
-- is ready; its children are 30, which runs, and 31, which waits for device 3. The child 40 of 30 waits for the
-- pseudo-clock. Block 50 and the messages 70 and 74 are free.
use progetto_so.Base.{ℕ, List, [], ◌∷◌, update}
use progetto_so.Kernel.State.{Kernel, ProcState}

abbrev pub registers : ProcState
registers = record {
  status = 0;
  cause = 0;
  entry_hi = 0;
  pc_epc = 0;
  reg_a0 = 0;
  reg_a1 = 0;
  reg_a2 = 0;
  reg_v0 = 0;
  reg_sp = 0;
  reg_t9 = 0;
  others = 0;
}

abbrev pub lists : ℕ → List ℕ
lists = update (update (update (λ i. []) 3 (31 ∷ [])) 48 (40 ∷ [])) 49 (10 ∷ [])

abbrev pub children : ℕ → List ℕ
children = update (update (λ p. []) 20 (30 ∷ 31 ∷ [])) 30 (40 ∷ [])

abbrev pub parents : ℕ → ℕ
parents = update (update (update (λ p. 0) 30 20) 31 20) 40 30

abbrev pub sample : Kernel
sample = record {
  pcb_free = 50 ∷ [];
  msg_free = 70 ∷ 74 ∷ [];
  ready_queue = 20 ∷ [];
  blocked_proc = lists;
  p_child = children;
  msg_inbox = λ p. [];
  current_process = 30;
  process_count = 5;
  soft_block_count = 2;
  ssi_pcb = 10;
  test_pcb = 20;
  next_pid = 6;
  timer_start = 0;
  p_parent = parents;
  p_s = λ p. registers;
  p_time = λ p. 0;
  p_support = λ p. 0;
  p_pid = update (λ p. 2) 10 1;
  m_sender = λ m. 0;
  m_payload = λ m. 0;
  m_string = λ m. 0;
  m_service = λ m. 0;
  m_arg = λ m. 0;
  sup_asid = λ s. 0;
  sup_except_state = λ s i. registers;
  proc_state = registers;
  word = update (λ a. 0) 900 4;
  cpu_status = 0;
  local_timer = 0;
  interval_timer = 0;
  clock_reads = 0;
}
