-- ===== src/Kernel/Interrupts.antt =====
-- phase2/interrupts.c: the timers, the devices and the order in which the lines are served.
pub mod Fairness
pub mod Tick
pub mod Clock
pub mod Done
use Prim.Native.Nat.{bit_and, bit_or}
use progetto_so.Base.{
  ℕ, zero, suc, ◌+◌, ◌*◌, ◌%◌, ◌^◌, Bool, List, [], ◌∷◌, ◌==◌, not, if◌then◌else◌, update,
}
use progetto_so.Listx.{null}
use progetto_so.Kernel.State.{Kernel, ProcState, sem_dev_len, clock_list, word_mod}
use progetto_so.Kernel.Run.{
  Cmd, panic, out_of_fuel, returns, stops, ◌>>=◌, ◌>>◌, stop, modify, get, sub_word,
}
use progetto_so.Kernel.Queues.{insert_ready, insert_blocked}
use progetto_so.Kernel.Scheduler.{
  tebiton, tebitoff, timeslice, timescale_addr, interval_tod, update_process_cpu_time, scheduler,
}
use progetto_so.Kernel.Run.{ldst}
use progetto_so.Kernel.Messages.{send_message}
use progetto_so.Kernel.Devices.{get_io_device_index}

-- What the emulator's library gives: the addresses of the device registers and of the bitmaps of pending
-- interrupts by line, the code that acknowledges, the numbers of the lines, the mask of the pending lines;
-- the clock; and where the stack has the variable `status_code`.
pub record Machine : Type 0 where
  pub tod : ℕ → ℕ
  pub dev_reg_start : ℕ
  pub dev_reg_size : ℕ
  pub dev_reg_addr : (line dev : ℕ) → ℕ
  pub interrupt_dev : ℕ → ℕ
  pub ack : ℕ
  pub il_disk : ℕ
  pub il_flash : ℕ
  pub il_ethernet : ℕ
  pub il_printer : ℕ
  pub il_terminal : ℕ
  pub cause_ip_mask : ℕ
  pub status_code_at : ℕ

abbrev pub psecond : ℕ
psecond = 100000

module _ (h : Machine) where
  unfoldable pub interrupt_handler_exit : Cmd (Unit {0})
  interrupt_handler_exit = do
    modify λ k. record k { cpu_status = bit_or k.cpu_status tebiton }
    _ ← interval_tod h.tod
    k ← get
    if not (k.current_process == null) then stop (ldst k.proc_state) else scheduler h.tod

  unfoldable pub plt_handler : Cmd (Unit {0})
  plt_handler = do
    modify λ k. record k { local_timer = (timeslice * k.word timescale_addr) % word_mod }
    update_process_cpu_time h.tod
    modify λ k. record k { p_s = update k.p_s k.current_process k.proc_state }
    modify λ k. insert_ready k.current_process k
    modify λ k. record k { current_process = null }
    scheduler h.tod

-- One process of the pseudo-clock's list: `p` is its first entry and `ps` are the others.
unfoldable pub tick : (p : ℕ) → List ℕ → Kernel → Kernel
tick p ps k =
    let moved =
      insert_blocked sem_dev_len p
        (record k { blocked_proc = update k.blocked_proc clock_list ps }) in
    let sent = (send_message p null k.ssi_pcb moved).1 in
    record sent { soft_block_count = sub_word sent.soft_block_count 1 }

-- `while ((pos = removeProcQ(&blocked_proc[SEMDEVLEN - 1])) != NULL)`
unfoldable pub tick_all : (fuel : ℕ) → Cmd (Unit {0})
unfolding tick
tick_all zero k = stops out_of_fuel k
tick_all (suc fuel) k = elim (k.blocked_proc clock_list) [
  | [] ↦ returns tt k
  | p ∷ ps ↦ tick_all fuel (tick p ps k)
]

-- More rounds than the table has blocks.
abbrev pub tick_fuel : ℕ
tick_fuel = 41

module _ (h : Machine) where
  unfoldable pub it_handler : Cmd (Unit {0})
  it_handler = do
    modify λ k. record k { interval_timer = psecond }
    tick_all tick_fuel
    modify λ k. record k { blocked_proc = update k.blocked_proc clock_list [] }
    interrupt_handler_exit h

  -- The part of `devInterruptReturn` for the process `p` that waits for the device.
  unfoldable pub device_done : (p status : ℕ) → Kernel → Kernel
  device_done p status k₀ =
      let k₁ = insert_blocked sem_dev_len p k₀ in
      let k₂ = record k₁ {
        soft_block_count = sub_word k₁.soft_block_count 1;
        word = update k₁.word h.status_code_at status;
      } in
      let k₃ = (send_message p h.status_code_at k₂.ssi_pcb k₂).1 in
      record k₃ { p_s = update k₃.p_s p (record (k₃.p_s p) { reg_v0 = status }) }

  unfoldable pub dev_interrupt_return : (status command : ℕ) → Kernel → Kernel
  unfolding device_done
  dev_interrupt_return status command k₀ =
      let k = record k₀ { word = update k₀.word command h.ack } in
      let index = get_io_device_index h.dev_reg_start h.dev_reg_size command in
      elim (k.blocked_proc index) [
        | [] ↦ k
        | p ∷ ps ↦ device_done p status (record k { blocked_proc = update k.blocked_proc index ps })
      ]

  -- The status of a device stands at the start of its registers, the command after it; a terminal has these
  -- two for its receiver and two more for its transmitter.
  unfoldable pub non_terminal_handler : (line dev : ℕ) → Cmd (Unit {0})
  unfolding dev_interrupt_return
  non_terminal_handler line dev k =
      let reg = h.dev_reg_addr line dev in
      returns tt (dev_interrupt_return (k.word reg) (reg + 4) k)

  unfoldable pub terminal_handler : (dev : ℕ) → Cmd (Unit {0})
  unfolding dev_interrupt_return
  terminal_handler dev k =
      let reg = h.dev_reg_addr h.il_terminal dev in
      if bit_and (k.word reg) 0xff == 5
      then returns tt (dev_interrupt_return (k.word reg) (reg + 4) k)
      else if bit_and (k.word (reg + 8)) 0xff == 5
      then returns tt (dev_interrupt_return (k.word (reg + 8)) (reg + 12) k)
      else stops panic k

  -- The loop of `deviceHandler` from device `dev` on, for `rounds` more devices.
  unfoldable pub devices_from : (line bitmap : ℕ) → (rounds dev : ℕ) → Cmd (Unit {0})
  unfolding non_terminal_handler terminal_handler
  devices_from line bitmap zero dev = returns tt
  devices_from line bitmap (suc rounds) dev =
      let rest = devices_from line bitmap rounds (dev + 1) in
      if not (bit_and bitmap (2 ^ dev) == 0)
      then (if not (line == h.il_terminal)
          then non_terminal_handler line dev
          else terminal_handler dev)
        >> interrupt_handler_exit h
        >> rest
      else rest

  unfoldable pub device_handler : (line : ℕ) → Cmd (Unit {0})
  unfolding devices_from
  device_handler line k = devices_from line (k.word (h.interrupt_dev line)) 8 0 k

  -- The choice of the handler by the pending lines.
  unfoldable pub serve_line : (ip : ℕ) → Cmd (Unit {0})
  serve_line ip =
      if not (bit_and ip 0x200 == 0)
      then plt_handler h
      else if not (bit_and ip 0x400 == 0)
      then it_handler
      else if not (bit_and ip 0x800 == 0)
      then device_handler h.il_disk
      else if not (bit_and ip 0x1000 == 0)
      then device_handler h.il_flash
      else if not (bit_and ip 0x2000 == 0)
      then device_handler h.il_ethernet
      else if not (bit_and ip 0x4000 == 0)
      then device_handler h.il_printer
      else if not (bit_and ip 0x8000 == 0)
      then device_handler h.il_terminal
      else interrupt_handler_exit h

  unfoldable pub interrupt_handler : Cmd (Unit {0})
  unfolding serve_line
  interrupt_handler = do
    k ← get
    if not (k.current_process == null) then update_process_cpu_time h.tod else returns tt
    modify λ u. record u { cpu_status = bit_and u.cpu_status tebitoff }
    u ← get
    serve_line (bit_and u.proc_state.cause h.cause_ip_mask)
