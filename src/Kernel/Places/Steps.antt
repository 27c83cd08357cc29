-- ===== src/Kernel/Places/Steps.antt =====
-- The runs of the nucleus as sequences of its operations, and where processes stand in each of their states.
use progetto_so.Base.{
  ℕ, zero, suc, ◌≤◌, ◌<◌, ◌≡◌, ◌≢◌, refl, sym, ap, subst, true, List, [], ◌∷◌, ◌==◌, ◌⊎◌,
  if◌then◌else◌, false, has, arith,
}
use progetto_so.Listx.{null}
use progetto_so.Kernel.State.{Kernel, ProcState, sem_dev_len}
use progetto_so.Kernel.Run.{final}
use progetto_so.Kernel.Devices.{get_io_device_index}
use progetto_so.Kernel.Messages.{send_message, receive_message}
use progetto_so.Kernel.Services.{create_process_service, doio_service, wait_for_clock_service}
use progetto_so.Kernel.Interrupts.{
  Machine, plt_handler, it_handler, interrupt_handler_exit, dev_interrupt_return,
}
use progetto_so.Kernel.Start.{Machinery, devnum, main}
use progetto_so.Kernel.Start.Boot.{Booted, main-Booted}
use progetto_so.Kernel.Places.{count, total, IsPlaced}
use progetto_so.Kernel.Services.{terminate_process_service}
use progetto_so.Kernel.Exceptions.{pass_up_or_die}
use progetto_so.Kernel.Terminate.Tree.{Tree, root, members}
use progetto_so.Kernel.Places.Ending.{
  CanEnd, terminate_process_service-IsPlaced, pass_up_or_die-IsPlaced,
}
use progetto_so.Kernel.Places.Moves.{NoMore-IsPlaced, send_message-NoMore}
use progetto_so.Kernel.Places.Handlers.{
  plt_handler-IsPlaced, it_handler-IsPlaced, receive_message-IsPlaced, device-IsPlaced,
}
use progetto_so.Kernel.Places.Services.{
  create_process_service-NoMore, doio_service-NoMore, wait_for_clock_service-NoMore,
}

-- What happens between two states: the running process computes, makes a system call, or as the service interface
-- serves a request, the end of a process included; its time slice ends, the clock ticks, a device is done, or it raises
-- an exception that is passed up or ends it. A request for a device comes from a process that is ready or waits
-- for messages, and names a command field. A process ends with its progeny, if the lists of children make a
-- tree of processes in use.
pub data Step (h : Machine) : Kernel → Kernel → Type 0 where
  computes :
      (word : ℕ → ℕ) (state : ProcState) (k : Kernel)
      → Step h k (record k { word = word; proc_state = state })
  sends :
      (destination payload : ℕ) (k : Kernel)
      → Step h k (send_message destination payload k.current_process k).1
  receives :
      (sender payload : ℕ) (k : Kernel) → Step h k (final (receive_message h.tod sender payload k))
  creates :
      (response_at : ℕ) (state_at : (ℕ → ℕ) → ℕ → ProcState) (sender args : ℕ) (k : Kernel)
      → Step h k (create_process_service response_at state_at sender args k)
  starts_io :
      (sender arg : ℕ) (k : Kernel)
      → get_io_device_index h.dev_reg_start h.dev_reg_size (k.word arg) < devnum
      → (has sender k.ready_queue ≡ true) ⊎ (has sender (k.blocked_proc sem_dev_len) ≡ true)
      → Step h k (doio_service h.dev_reg_start h.dev_reg_size sender arg k)
  waits_for_clock : (sender : ℕ) (k : Kernel) → Step h k (wait_for_clock_service sender k)
  slice_ends : (k : Kernel) → Step h k (final (plt_handler h k))
  clock_ticks : (k : Kernel) → Step h k (final (it_handler h k))
  device_ends :
      (status command : ℕ) (k : Kernel)
      → get_io_device_index h.dev_reg_start h.dev_reg_size command < devnum
      → Step h k (final (interrupt_handler_exit h (dev_interrupt_return h status command k)))
  ends :
      (t : Tree) (response_at fuel sender target : ℕ) (k : Kernel)
      → root t ≡ (if target == null then sender else target)
      → CanEnd t fuel k
      → has k.current_process (members t) ≡ false
      → Step h k (final (terminate_process_service response_at fuel sender target k))
  faults :
      (t : Tree) (fuel index : ℕ) (k : Kernel)
      → root t ≡ k.current_process
      → CanEnd t fuel k
      → Step h k (final (pass_up_or_die h fuel index k))

pub data Reach (h : Machine) : Kernel → Kernel → Type 0 where
  start : (k : Kernel) → Reach h k k
  next : (k t u : Kernel) → Reach h k t → Step h t u → Reach h k u

Step-IsPlaced : (h : Machine) (k t : Kernel) → Step h k t → IsPlaced k → IsPlaced t
Step-IsPlaced h k _ (computes word state _) placed = placed
Step-IsPlaced h k _ (sends destination payload _) placed =
    NoMore-IsPlaced (send_message-NoMore destination payload k.current_process k) placed
Step-IsPlaced h k _ (receives sender payload _) placed =
    receive_message-IsPlaced h.tod sender payload k placed
Step-IsPlaced h k _ (creates response_at state_at sender args _) placed =
    NoMore-IsPlaced (create_process_service-NoMore response_at state_at sender args k) placed
Step-IsPlaced h k _ (starts_io sender arg _ b place) placed =
    NoMore-IsPlaced (doio_service-NoMore h.dev_reg_start h.dev_reg_size sender arg k b place) placed
Step-IsPlaced h k _ (waits_for_clock sender _) placed =
    NoMore-IsPlaced (wait_for_clock_service-NoMore sender k) placed
Step-IsPlaced h k _ (ends t response_at fuel sender target _ named c runs) placed =
    terminate_process_service-IsPlaced t response_at fuel sender target k named c runs placed
Step-IsPlaced h k _ (faults t fuel index _ named c) placed =
    pass_up_or_die-IsPlaced h t fuel index k named c placed
Step-IsPlaced h k _ (slice_ends _) placed = plt_handler-IsPlaced h k placed
Step-IsPlaced h k _ (clock_ticks _) placed = it_handler-IsPlaced h k placed
Step-IsPlaced h k _ (device_ends status command _ b) placed =
    device-IsPlaced h status command k b placed

IsPlaced-Reach : (h : Machine) (k t : Kernel) → Reach h k t → IsPlaced k → IsPlaced t
IsPlaced-Reach h k _ (start _) placed = placed
IsPlaced-Reach h k u (next _ t _ r s) placed = Step-IsPlaced h t u s (IsPlaced-Reach h k t r placed)

-- The state that `main` leaves.
total-empty : (p : ℕ) (f : ℕ → List ℕ) (n : ℕ) → ((i : ℕ) → i < n → f i ≡ []) → total p f n ≡ 0
unfolding total
total-empty p f zero e = refl
total-empty p f (suc n) e =
    rw (e n (omega arith)) (omega (arith, total-empty p f n (λ i b. e i (omega (arith, b)))))

Booted-IsPlaced :
    (m : Machinery) (p q : ℕ) (ps : List ℕ) (t : Kernel)
    → Booted m p q ps t
    → ((r : ℕ) → count r (p ∷ q ∷ ps) ≤ 1)
    → IsPlaced t
Booted-IsPlaced m p q ps t b once r live =
    rw (b.current, b.ready, b.pcb_free)
      (omega (arith, once r, total-empty r t.blocked_proc devnum b.blocked))

-- From the start of a machine whose table has two blocks or more, all different, whatever sequence of the steps above
-- it goes through, no process block is in two places at once nor twice in a list; the places are the free list, the
-- processor, the ready queue and the lists of blocked processes. The steps have conditions: a request for a device comes
-- from a process that is ready or waits for messages, which the code does not test, and names a command field; an ended
-- device has such a field; a process ends with its progeny if the lists of children make a tree of processes in use,
-- without the running process or with it as the root in an exception.
pub Reach-IsPlaced :
    (m : Machinery) (h : Machine) (p q : ℕ) (ps : List ℕ) (k u : Kernel)
    → m.pcb_entries ≡ p ∷ q ∷ ps
    → ((r : ℕ) → count r (p ∷ q ∷ ps) ≤ 1)
    → p ≢ null
    → q ≢ null
    → p ≢ q
    → k.next_pid ≡ 1
    → Reach h (final (main m k)) u
    → IsPlaced u
Reach-IsPlaced m h p q ps k u entries once live_p live_q apart pid r =
    let (t, e, b) = main-Booted m p q ps k entries live_p live_q apart pid in
    IsPlaced-Reach h (final (main m k)) u r
      (subst IsPlaced (sym (ap final e)) (Booted-IsPlaced m p q ps t b once))
