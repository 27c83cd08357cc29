-- ===== src/Kernel/Tests/Interrupts.antt =====
-- Concrete runs of the interrupt handlers, on the addresses that the machine's manual gives.
use progetto_so.Base.{
  update, subst, Bool-cases, inl, inr, ◌==◌, ◌+◌, ◌-◌, ◌*◌, ◌≡◌, ◌<◌, refl, [], ◌∷◌, some, arith,
}
use progetto_so.Kernel.State.{Kernel, clock_list}
use progetto_so.Kernel.Run.{stops, ldst}
use progetto_so.Kernel.Devices.{device, get_io_device_index, get_io_device_index-position}
use progetto_so.Kernel.Interrupts.Done.{Done, dev_interrupt_return-doio_service}
use progetto_so.Kernel.Services.{doio_service}
use progetto_so.Kernel.Interrupts.{dev_interrupt_return, Machine, it_handler}
use progetto_so.Kernel.Interrupts.Tick.{IsWaiting}
use progetto_so.Kernel.Interrupts.Clock.{AreWaiting, AllTicked, it_handler-AllTicked}
use progetto_so.Kernel.Interrupts.Fairness.{IsSlice, slices, slices-turn}
use progetto_so.Kernel.Tests.Samples.{sample}

abbrev pub machine : Machine
machine = record {
  tod = λ n. n;
  dev_reg_start = 0x1000_0054;
  dev_reg_size = 16;
  dev_reg_addr = λ line dev. 0x1000_0054 + ((line - 3) * 8 + dev) * 16;
  interrupt_dev = λ line. 0x1000_0040 + (line - 3) * 4;
  ack = 1;
  il_disk = 3;
  il_flash = 4;
  il_ethernet = 5;
  il_printer = 6;
  il_terminal = 7;
  cause_ip_mask = 0xff00;
  status_code_at = 0x2000_0f00;
}

-- A process that computes until its time is over.
abbrev computes : Kernel → Kernel
computes k = record k { proc_state = record k.proc_state { cause = 0x200 } }

computes-IsSlice : IsSlice machine computes
computes-IsSlice = record { current = λ k. refl; ready = λ k. refl; pending = λ k. refl }

abbrev three_ready : Kernel
three_ready = record sample { ready_queue = 20 ∷ 10 ∷ 31 ∷ [] }

-- Process 10 runs after two slices, and 30, which runs now, is then followed by 20.
slices-turn_example :
    (t : Kernel) × (slices machine computes 2 three_ready ≡ some t)
    × (t.current_process ≡ 10)
    × (t.ready_queue ≡ 31 ∷ 30 ∷ 20 ∷ [])
slices-turn_example =
    slices-turn machine computes (20 ∷ []) 10 (31 ∷ []) three_ready computes-IsSlice
      (λ e. omega (arith, e)) refl refl

-- Two processes wait for the clock, and there are two free messages.
abbrev clock_sample : Kernel
clock_sample = record sample {
  blocked_proc = update sample.blocked_proc 48 (40 ∷ 41 ∷ []);
  soft_block_count = 3;
}

clock_sample-AreWaiting : AreWaiting (40 ∷ 41 ∷ []) clock_sample
clock_sample-AreWaiting p i = elim (Bool-cases (p == 40)) [
  | inl first ↦
      let same : 40 ≡ p = ground arith in
      subst (λ q. IsWaiting q clock_sample) same
        record { live = λ e. omega (arith, e); alive = refl; not_near = refl; not_blocked = refl }
  | inr other ↦
      let same : 41 ≡ p = ground (arith, i) in
      subst (λ q. IsWaiting q clock_sample) same
        record { live = λ e. omega (arith, e); alive = refl; not_near = refl; not_blocked = refl }
]

it_handler-AllTicked_example :
    (t : Kernel) × (it_handler machine clock_sample ≡ stops (ldst clock_sample.proc_state) t)
    × AllTicked (40 ∷ 41 ∷ []) 1 clock_sample t
it_handler-AllTicked_example =
    it_handler-AllTicked machine (40 ∷ 41 ∷ []) 1 clock_sample refl (omega arith) (omega arith)
      (refl, (refl, tt)) clock_sample-AreWaiting refl (omega arith)

-- The third printer, and the transmitter of the first terminal.
get_io_device_index-position_example :
    (get_io_device_index 0x1000_0054 16 0x1000_01f8 ≡ 26) × (26 < clock_list)
get_io_device_index-position_example =
    get_io_device_index-position 0x1000_0054 16 (device 3 2) refl refl (omega arith, omega arith)

-- The service interface runs and serves the request of 20, which stands at 5000, for the device with list 26.
abbrev requested : Kernel
requested = record sample {
  current_process = 10;
  blocked_proc = update (λ i. []) 3 (31 ∷ []);
  word = update (update (λ a. 0) 5000 0x1000_01f8) 5004 7;
}

list_26 : get_io_device_index 0x1000_0054 16 0x1000_01f8 ≡ 26
list_26 =
    (get_io_device_index-position 0x1000_0054 16 (device 3 2) refl refl
      (omega arith, omega arith)).0

dev_interrupt_return-doio_service_example :
    Done
      (get_io_device_index 0x1000_0054 16 0x1000_01f8)
      20
      70
      1
      2
      []
      requested
      (dev_interrupt_return machine 1 0x1000_01f8 (doio_service 0x1000_0054 16 20 5000 requested))
dev_interrupt_return-doio_service_example =
    dev_interrupt_return-doio_service machine 20 5000 1 70 (74 ∷ []) requested
      (record {
        live = λ e. omega (arith, e);
        resting = λ e. omega (arith, e);
        other = λ e. omega (arith, e);
        plain = refl;
        alive = refl;
      })
      refl (rw list_26 (omega arith)) (rw list_26 refl) (omega arith)
