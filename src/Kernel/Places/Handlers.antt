-- ===== src/Kernel/Places/Handlers.antt =====
-- The places of a process under the scheduler, the system calls, the services and the interrupt handlers.
use progetto_so.Base.{
  ℕ, zero, suc, ◌+◌, ◌≤◌, ◌<◌, ◌≡◌, ◌≢◌, refl, inl, inr, not, List, [], ◌∷◌, ◌==◌, ◌&&◌, update,
  if◌then◌else◌, arith, Bool-cases, ==-false,
}
use progetto_so.Listx.{null}
use progetto_so.Pcb.Queue.{head_or_null}
use progetto_so.Kernel.State.{Kernel, ProcState, sem_dev_len, clock_list}
use progetto_so.Kernel.Run.{Run, Cmd, returns, stops, and_then, final, int_gt, minus_one, sub_word}
use progetto_so.Kernel.Queues.{insert_blocked}
use progetto_so.Kernel.Scheduler.{
  interval_tod, update_process_cpu_time, no_ready_process, dispatch, scheduler, block_process,
}
use progetto_so.Kernel.Scheduler.Decision.{scheduler-dispatch, scheduler-no_ready_process}
use progetto_so.Kernel.Start.{devnum}
use progetto_so.Kernel.Devices.{get_io_device_index}
use progetto_so.Kernel.Messages.{going_on, store_payload, take_message, pop_inbox, receive_message}
use progetto_so.Kernel.Interrupts.{
  Machine, plt_handler, tick, tick_all, tick_fuel, it_handler, interrupt_handler_exit, device_done,
  dev_interrupt_return, psecond,
}
use progetto_so.Msg.Queue.{wanted}
use progetto_so.Kernel.Places.{count, waiting, IsPlaced, total-update}
use progetto_so.Kernel.Places.Moves.{
  NoMore, NoMore-refl, NoMore-trans, NoMore-if, NoMore-IsPlaced, waiting-insert_ready,
  waiting-insert_blocked, waiting-update, send_message-NoMore,
}

-- No process stands in two of the places other than the running one.
abbrev pub IsQueued : Kernel → Type 0
IsQueued k = (p : ℕ) → p ≢ null → waiting p k ≤ 1

pub IsPlaced-IsQueued : (k : Kernel) → IsPlaced k → IsQueued k
IsPlaced-IsQueued k placed p live = omega (arith, placed p live)

no_ready_process-NoMore : (tod : ℕ → ℕ) (u : Kernel) → NoMore u (final (no_ready_process tod u))
unfolding no_ready_process
no_ready_process-NoMore tod u =
    elim (Bool-cases
      ((u.process_count == 1) && (u.p_pid (head_or_null (u.blocked_proc sem_dev_len)) == 1))) [
        | inl a ↦ rw a (NoMore-refl u)
        | inr b ↦ elim (Bool-cases (int_gt u.process_count 1 && int_gt u.soft_block_count 0)) [
          | inl c ↦ rw (b, c) record { current = refl; waits = λ p live. omega arith }
          | inr d ↦ elim (Bool-cases (int_gt u.process_count 0 && (u.soft_block_count == 0))) [
            | inl e ↦ rw (b, d, e) (NoMore-refl u)
            | inr f ↦ rw (b, d, f) (NoMore-refl u)
          ]
        ]
      ]

dispatch-NoMore : (tod : ℕ → ℕ) (p : ℕ) (u : Kernel) → NoMore u (final (dispatch tod p u))
unfolding dispatch interval_tod
dispatch-NoMore tod p u = record { current = refl; waits = λ q live. omega arith }

-- The scheduler, when the process that ran has gone to another place.
scheduler-on :
    (tod : ℕ → ℕ) (k : Kernel) (q : List ℕ)
    → k.ready_queue ≡ q
    → IsQueued k
    → IsPlaced (final (scheduler tod k))
scheduler-on tod k [] e queued =
    let u = record k { current_process = null } in
    rw (scheduler-no_ready_process tod k e) (
      NoMore-IsPlaced (no_ready_process-NoMore tod u)
        (λ p live. rw (==-false p null live) (omega (arith, queued p live))))
scheduler-on tod k (r ∷ rs) e queued =
    let u = record k { current_process = r; ready_queue = rs } in
    rw (scheduler-dispatch tod r rs k e) (
      NoMore-IsPlaced (dispatch-NoMore tod r u) (λ p live.
        let first : count p k.ready_queue ≡ (if p == r then 1 else 0) + count p rs = rw e refl in
        omega (arith, queued p live, first)))

pub scheduler-IsPlaced :
    (tod : ℕ → ℕ) (k : Kernel) → IsQueued k → IsPlaced (final (scheduler tod k))
scheduler-IsPlaced tod k queued = scheduler-on tod k k.ready_queue refl queued

pub block_process-IsPlaced :
    (tod : ℕ → ℕ) (state : ProcState) (i : ℕ) (k : Kernel)
    → i < devnum
    → IsPlaced k
    → IsPlaced (final (block_process tod state i k))
unfolding block_process update_process_cpu_time interval_tod
block_process-IsPlaced tod state i k b placed =
    let u =
      final
        (update_process_cpu_time tod (record k { p_s = update k.p_s k.current_process state })) in
    scheduler-IsPlaced tod (insert_blocked i k.current_process u) (λ p live.
      omega (arith, waiting-insert_blocked i p k.current_process k b live, placed p live))

pub plt_handler-IsPlaced :
    (h : Machine) (k : Kernel) → IsPlaced k → IsPlaced (final (plt_handler h k))
unfolding plt_handler update_process_cpu_time interval_tod
plt_handler-IsPlaced h k placed =
    scheduler-IsPlaced h.tod _
      (λ p live. omega (arith, waiting-insert_ready p k.current_process k live, placed p live))

-- A message for the running process, or a wait for one.
store_payload-NoMore : (m payload : ℕ) (k : Kernel) → NoMore k (store_payload m payload k)
unfolding store_payload
store_payload-NoMore m payload k = NoMore-if (payload == null) (NoMore-refl k) (
    NoMore-if (not (k.m_service m == minus_one))
      record { current = refl; waits = λ p live. omega arith }
      (NoMore-if (not (k.m_string m == null))
        record { current = refl; waits = λ p live. omega arith }
        record { current = refl; waits = λ p live. omega arith }))

take_message-NoMore : (m payload : ℕ) (k : Kernel) → NoMore k (take_message m payload k).1
unfolding take_message
take_message-NoMore m payload k =
    let e = store_payload-NoMore m payload k in record { current = e.current; waits = e.waits }

taken-NoMore : (m payload : ℕ) (k : Kernel) → NoMore k (take_message m payload (pop_inbox m k)).1
taken-NoMore m payload k =
    let e = take_message-NoMore m payload (pop_inbox m k) in
    record { current = e.current; waits = e.waits }

-- Going on where the scheduler has returned.
resumed-IsPlaced :
    (payload : ℕ) (r : Run (Unit {0}))
    → IsPlaced (final r)
    → IsPlaced (final (and_then r (λ _. going_on payload null)))
resumed-IsPlaced payload (returns x k) placed =
    NoMore-IsPlaced (take_message-NoMore null payload k) placed
resumed-IsPlaced payload (stops e k) placed = placed

pub receive_message-IsPlaced :
    (tod : ℕ → ℕ) (sender payload : ℕ) (k : Kernel)
    → IsPlaced k
    → IsPlaced (final (receive_message tod sender payload k))
unfolding receive_message
receive_message-IsPlaced tod sender payload k placed =
    let m = wanted k.m_sender sender (k.msg_inbox k.current_process) in
    elim (Bool-cases (m == null)) [
      | inl nothing ↦ rw nothing (
          resumed-IsPlaced payload (block_process tod k.proc_state sem_dev_len k)
            (block_process-IsPlaced tod k.proc_state sem_dev_len k (omega arith) placed))
      | inr there ↦ rw there (NoMore-IsPlaced (taken-NoMore m payload k) placed)
    ]

-- The end of an interrupt.
pub interrupt_handler_exit-IsPlaced :
    (h : Machine) (k : Kernel) → IsPlaced k → IsPlaced (final (interrupt_handler_exit h k))
unfolding interrupt_handler_exit interval_tod
interrupt_handler_exit-IsPlaced h k placed = elim (Bool-cases (k.current_process == null)) [
  | inl idle ↦ rw idle (scheduler-IsPlaced h.tod _ (λ p live. IsPlaced-IsQueued k placed p live))
  | inr runs ↦ rw runs placed
]

tick-NoMore :
    (p : ℕ) (ps : List ℕ) (k : Kernel) → k.blocked_proc clock_list ≡ p ∷ ps → NoMore k (tick p ps k)
unfolding tick
tick-NoMore p ps k e =
    let out = record k { blocked_proc = update k.blocked_proc clock_list ps } in
    let moved = insert_blocked sem_dev_len p out in
    let s = send_message-NoMore p null k.ssi_pcb moved in
    record {
      current = s.current;
      waits = λ q live. omega (
        arith,
        s.waits q live,
        waiting-insert_blocked sem_dev_len q p out (omega arith) live,
        waiting-update clock_list q (if q == p then 1 else 0) ps k (omega arith) (rw e refl),
      );
    }

tick_all-step :
    (fuel p : ℕ) (ps : List ℕ) (k : Kernel)
    → k.blocked_proc clock_list ≡ p ∷ ps
    → tick_all (suc fuel) k ≡ tick_all fuel (tick p ps k)
unfolding tick_all
tick_all-step fuel p ps k e = rw (e, tick_all) refl

tick_all-end :
    (fuel : ℕ) (k : Kernel) → k.blocked_proc clock_list ≡ [] → tick_all (suc fuel) k ≡ returns tt k
unfolding tick_all
tick_all-end fuel k e = rw (e, tick_all) refl

tick_all-on :
    (fuel : ℕ) (k : Kernel) (q : List ℕ)
    → k.blocked_proc clock_list ≡ q
    → NoMore k (final (tick_all fuel k))
unfolding tick_all
tick_all-on zero k q e = NoMore-refl k
tick_all-on (suc fuel) k [] e = rw (tick_all-end fuel k e) (NoMore-refl k)
tick_all-on (suc fuel) k (p ∷ ps) e =
    let t = tick p ps k in
    rw (tick_all-step fuel p ps k e)
      (NoMore-trans (tick-NoMore p ps k e) (tick_all-on fuel t (t.blocked_proc clock_list) refl))

-- A command after another one.
then-IsPlaced :
    (r : Run (Unit {0})) (f : Cmd (Unit {0}))
    → IsPlaced (final r)
    → ((t : Kernel) → IsPlaced t → IsPlaced (final (f t)))
    → IsPlaced (final (and_then r (λ _. f)))
then-IsPlaced (returns a t) f placed next = next t placed
then-IsPlaced (stops e t) f placed next = placed

emptied-NoMore :
    (k : Kernel) → NoMore k (record k { blocked_proc = update k.blocked_proc clock_list [] })
emptied-NoMore k = record {
  current = refl;
  waits = λ p live. omega (arith, total-update p k.blocked_proc clock_list devnum [] (omega arith));
}

pub it_handler-IsPlaced :
    (h : Machine) (k : Kernel) → IsPlaced k → IsPlaced (final (it_handler h k))
unfolding it_handler
it_handler-IsPlaced h k placed =
    let u = record k { interval_timer = psecond } in
    then-IsPlaced (tick_all tick_fuel u)
      (λ t.
        interrupt_handler_exit h (record t { blocked_proc = update t.blocked_proc clock_list [] }))
      (NoMore-IsPlaced (tick_all-on tick_fuel u (u.blocked_proc clock_list) refl) placed)
      (λ t p. interrupt_handler_exit-IsPlaced h _ (NoMore-IsPlaced (emptied-NoMore t) p))

-- A process that waits for a device.
device_done-NoMore :
    (h : Machine) (i p status : ℕ) (ps : List ℕ) (k : Kernel)
    → i < devnum
    → k.blocked_proc i ≡ p ∷ ps
    → NoMore k (device_done h p status (record k { blocked_proc = update k.blocked_proc i ps }))
unfolding device_done
device_done-NoMore h i p status ps k b e =
    let out = record k { blocked_proc = update k.blocked_proc i ps } in
    let moved = insert_blocked sem_dev_len p out in
    let told = record moved {
      soft_block_count = sub_word moved.soft_block_count 1;
      word = update moved.word h.status_code_at status;
    } in
    let s = send_message-NoMore p h.status_code_at told.ssi_pcb told in
    record {
      current = s.current;
      waits = λ q live. omega (
        arith,
        s.waits q live,
        waiting-insert_blocked sem_dev_len q p out (omega arith) live,
        waiting-update i q (if q == p then 1 else 0) ps k b (rw e refl),
      );
    }

dev_interrupt_return-on :
    (h : Machine) (status command : ℕ) (k : Kernel) (q : List ℕ)
    → get_io_device_index h.dev_reg_start h.dev_reg_size command < devnum
    → k.blocked_proc (get_io_device_index h.dev_reg_start h.dev_reg_size command) ≡ q
    → NoMore k (dev_interrupt_return h status command k)
unfolding dev_interrupt_return
dev_interrupt_return-on h status command k [] b e =
    rw (e, dev_interrupt_return) record { current = refl; waits = λ p live. omega arith }
dev_interrupt_return-on h status command k (p ∷ ps) b e =
    let u = record k { word = update k.word command h.ack } in
    let d =
      device_done-NoMore h (get_io_device_index h.dev_reg_start h.dev_reg_size command) p status ps
        u b e in
    rw (e, dev_interrupt_return) record { current = d.current; waits = d.waits }

pub device-IsPlaced :
    (h : Machine) (status command : ℕ) (k : Kernel)
    → get_io_device_index h.dev_reg_start h.dev_reg_size command < devnum
    → IsPlaced k
    → IsPlaced (final (interrupt_handler_exit h (dev_interrupt_return h status command k)))
device-IsPlaced h status command k b placed =
    interrupt_handler_exit-IsPlaced h (dev_interrupt_return h status command k)
      (NoMore-IsPlaced (dev_interrupt_return-on h status command k _ b refl) placed)
