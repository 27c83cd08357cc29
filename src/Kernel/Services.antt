-- ===== src/Kernel/Services.antt =====
-- The services of phase2/ssi.c. The system call by which the service interface answers is its effect,
-- `SendMessage` by the running process; the registers that the trap saves and loads again are left aside.
pub mod Clock
use progetto_so.Base.{ℕ, ◌+◌, ◌%◌, List, [], ◌∷◌, ◌++◌, ◌==◌, not, if◌then◌else◌, has, update}
use progetto_so.Listx.{null}
use progetto_so.Kernel.State.{Kernel, ProcState, sem_dev_len, clock_list}
use progetto_so.Kernel.Run.{Cmd, ◌>>=◌, ◌>>◌, modify, get, returns, add_word, minus_one}
use progetto_so.Kernel.Queues.{insert_ready, insert_blocked, out_ready, out_blocked}
use progetto_so.Kernel.Scheduler.{interval_tod}
use progetto_so.Kernel.Messages.{send_message, receive_message}
use progetto_so.Kernel.Devices.{get_io_device_index}
use progetto_so.Kernel.Terminate.{terminate_process}

-- `send_response` with a pointer to `value`, which stands at `response_at`.
unfoldable pub send_response : (response_at destination value : ℕ) → Kernel → Kernel
send_response response_at destination value k =
    (send_message destination response_at k.current_process
      (record k { word = update k.word response_at value })).1

-- What `allocPcb()` leaves, where `p` is the first free block and `ps` are the others.
abbrev pub take_pcb : (p : ℕ) → List ℕ → Kernel → Kernel
take_pcb p ps k = record k {
  pcb_free = ps;
  p_parent = update k.p_parent p null;
  p_child = update k.p_child p [];
  p_time = update k.p_time p 0;
  msg_inbox = update k.msg_inbox p [];
  p_support = update k.p_support p null;
  p_pid = update k.p_pid p k.next_pid;
  p_s = update k.p_s p (record (k.p_s p) { entry_hi = k.next_pid });
  next_pid = add_word k.next_pid 1;
}

-- `insertChild(parent, p)`
abbrev pub insert_child : (parent p : ℕ) → Kernel → Kernel
insert_child parent p k = if parent == null then k else if p == null then k else record k {
  p_child = update k.p_child parent (k.p_child parent ++ p ∷ []);
  p_parent = update k.p_parent p parent;
}

module _ (response_at : ℕ) where
  -- The new process, with the state and the support structure of the request.
  unfoldable pub start_process : (sender p : ℕ) → ProcState → (support : ℕ) → Kernel → Kernel
  start_process sender p state support k = insert_ready p (
      insert_child sender p (record k {
        process_count = add_word k.process_count 1;
        p_s = update k.p_s p state;
        p_support = update k.p_support p support;
        p_time = update k.p_time p 0;
      }))

  -- `state_at` reads a `state_t` from the memory; the request has its address and the support structure's.
  unfoldable pub create_process_service :
      (state_at : (ℕ → ℕ) → ℕ → ProcState) (sender args : ℕ) → Kernel → Kernel
  unfolding send_response start_process
  create_process_service state_at sender args k = elim k.pcb_free [
    | [] ↦ send_response response_at sender minus_one k
    | p ∷ ps ↦ send_response response_at sender p (
        start_process sender p (state_at k.word (k.word args)) (k.word (args + 4))
          (take_pcb p ps k))
  ]

  unfoldable pub terminate_process_service : (fuel sender target : ℕ) → Cmd (Unit {0})
  terminate_process_service fuel sender target =
      terminate_process fuel (if target == null then sender else target)
      >> modify λ k. (send_message sender null k.current_process k).1

  unfoldable pub get_cpu_time : (tod : ℕ → ℕ) → (sender : ℕ) → Cmd (Unit {0})
  unfolding send_response
  get_cpu_time tod sender = do
    time ← interval_tod tod
    modify λ k. record k { p_time = update k.p_time sender (add_word (k.p_time sender) time) }
    modify λ k. send_response response_at sender (k.p_time sender) k

  unfoldable pub get_support_data : (sender : ℕ) → Kernel → Kernel
  unfolding send_response
  get_support_data sender k = send_response response_at sender (k.p_support sender) k

  unfoldable pub get_process_id : (sender arg : ℕ) → Kernel → Kernel
  unfolding send_response
  get_process_id sender arg k =
      send_response response_at sender
        (if arg == 0
          then k.p_pid sender
          else if not (k.p_parent sender == null)
          then k.p_pid (k.p_parent sender)
          else 0)
        k

-- The command's address is the first word of the request, its value the second.
unfoldable pub doio_service : (dev_start dev_size sender arg : ℕ) → Kernel → Kernel
doio_service dev_start dev_size sender arg k₀ =
    let index = get_io_device_index dev_start dev_size (k₀.word arg) in
    let k = insert_blocked index sender (out_blocked sem_dev_len sender (out_ready sender k₀)) in
    record k {
      soft_block_count = add_word k.soft_block_count 1;
      word = update k.word (k.word arg) (k.word (arg + 4));
    }

-- `insertProcQ(&blocked_proc[SEMDEVLEN - 1], sender); softBlock_count++;`
abbrev pub insert_clock : ℕ → Kernel → Kernel
insert_clock p k₀ =
    let k = insert_blocked clock_list p k₀ in
    record k { soft_block_count = add_word k.soft_block_count 1 }

unfoldable pub wait_for_clock_ready : (sender : ℕ) → Kernel → Kernel
wait_for_clock_ready sender k =
    if has sender k.ready_queue then insert_clock sender (out_ready sender k) else k

unfoldable pub wait_for_clock_blocked : (sender : ℕ) → Kernel → Kernel
wait_for_clock_blocked sender k =
    if has sender (k.blocked_proc sem_dev_len)
    then insert_clock sender (out_blocked sem_dev_len sender k)
    else k

unfoldable pub wait_for_clock_service : (sender : ℕ) → Kernel → Kernel
unfolding wait_for_clock_ready wait_for_clock_blocked
wait_for_clock_service sender k = wait_for_clock_blocked sender (wait_for_clock_ready sender k)

-- What the services need of the machine and of the stack.
pub record Context : Type 0 where
  pub tod : ℕ → ℕ
  pub state_at : (ℕ → ℕ) → ℕ → ProcState
  pub response_at : ℕ
  pub dev_start : ℕ
  pub dev_size : ℕ
  pub fuel : ℕ

unfoldable pub ssi_request : (c : Context) (sender service arg : ℕ) → Cmd (Unit {0})
unfolding create_process_service terminate_process_service get_cpu_time get_support_data
    get_process_id doio_service wait_for_clock_service
ssi_request c sender service arg =
    if service == 1
    then modify (create_process_service c.response_at c.state_at sender arg)
    else if service == 2
    then terminate_process_service c.response_at c.fuel sender arg
    else if service == 3
    then modify (doio_service c.dev_start c.dev_size sender arg)
    else if service == 4
    then get_cpu_time c.response_at c.tod sender
    else if service == 5
    then modify (wait_for_clock_service sender)
    else if service == 6
    then modify (get_support_data c.response_at sender)
    else if service == 7
    then modify (get_process_id c.response_at sender arg)
    else terminate_process c.fuel sender

-- `receive_request`: the payload comes to `request_at`.
unfoldable pub receive_request : (tod : ℕ → ℕ) → (request_at : ℕ) → Cmd ℕ
receive_request tod request_at = receive_message tod null request_at

-- A round of the loop of `SSI_server`.
unfoldable pub ssi_round : Context → (request_at : ℕ) → Cmd (Unit {0})
unfolding receive_request ssi_request
ssi_round c request_at = do
  sender ← receive_request c.tod request_at
  k ← get
  ssi_request c sender (k.word request_at) (k.word (request_at + 4))
