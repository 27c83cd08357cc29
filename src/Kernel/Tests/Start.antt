-- ===== src/Kernel/Tests/Start.antt =====
-- The start of the nucleus and the decisions of the scheduler, on small examples.
use progetto_so.Base.{◌≡◌, refl, [], ◌∷◌, arith}
use progetto_so.Kernel.State.{Kernel}
use progetto_so.Kernel.Run.{Stop, final, stops, ldst}
use progetto_so.Kernel.Scheduler.{scheduler}
use progetto_so.Kernel.Scheduler.Decision.{IsReason, scheduler-IsReason}
use progetto_so.Kernel.Start.{Machinery, main}
use progetto_so.Kernel.Start.Boot.{Booted, main-Booted}
use progetto_so.Kernel.Messages.{send_message, receive_message}
use progetto_so.Kernel.Interrupts.{plt_handler}
use progetto_so.Kernel.Places.{IsPlaced}
use progetto_so.Kernel.Places.Steps.{
  Reach, start, next, receives, sends, slice_ends, Reach-IsPlaced,
}
use progetto_so.Kernel.Tests.Interrupts.{machine}
use progetto_so.Kernel.Tests.Samples.{registers, sample}

abbrev machinery : Machinery
machinery = record {
  tod = λ n. n;
  pcb_entries = 30 ∷ 20 ∷ 10 ∷ [];
  msg_entries = 74 ∷ 70 ∷ [];
  page_size = 4096;
  ram_top = 0x2010_0000;
  refill_handler_at = 0x0fff_f900;
  refill_stack_at = 0x0fff_f904;
  exception_handler_at = 0x0fff_f908;
  exception_stack_at = 0x0fff_f90c;
  refill_code = 500;
  exception_code = 600;
  ssi_code = 700;
  test_code = 800;
  ssi_state = registers;
  test_state = registers;
}

main-Booted_example :
    (t : Kernel) × (main machinery (record sample { next_pid = 1 }) ≡ stops (ldst (t.p_s 30)) t)
    × Booted machinery 30 20 (10 ∷ []) t
main-Booted_example =
    main-Booted machinery 30 20 (10 ∷ []) (record sample { next_pid = 1 }) refl
      (λ e. omega (arith, e)) (λ e. omega (arith, e)) (λ e. omega (arith, e)) refl

-- No process is ready, and some wait.
scheduler-IsReason_example :
    (e : Stop) × (t : Kernel) × (scheduler (λ n. n) (record sample { ready_queue = [] })
      ≡ stops e t)
    × IsReason (record sample { ready_queue = [] }) e t
scheduler-IsReason_example =
    scheduler-IsReason (λ n. n) (record sample { ready_queue = [] })
      record {
        processes = (omega arith, omega arith);
        blocked = omega arith;
        last_is_ssi = λ e. absurd (omega (arith, e));
      }

-- The service interface waits for a request, the test process sends one, and its time slice ends.
abbrev booted : Kernel
booted = final (main machinery (record sample { next_pid = 1 }))

abbrev waited : Kernel
waited = final (receive_message machine.tod 0 0 booted)

abbrev sent : Kernel
sent = (send_message 30 5000 waited.current_process waited).1

first_run : Reach machine booted (final (plt_handler machine sent))
first_run =
    next booted sent _
      (next booted waited sent (next booted booted waited (start booted) (receives 0 0 booted))
        (sends 30 5000 waited))
      (slice_ends sent)

Reach-IsPlaced_example : IsPlaced (final (plt_handler machine sent))
Reach-IsPlaced_example =
    Reach-IsPlaced machinery machine 30 20 (10 ∷ []) (record sample { next_pid = 1 })
      (final (plt_handler machine sent)) refl (λ r. ground arith) (λ e. omega (arith, e))
      (λ e. omega (arith, e)) (λ e. omega (arith, e)) refl first_run
