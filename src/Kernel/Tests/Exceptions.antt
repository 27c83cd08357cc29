-- ===== src/Kernel/Tests/Exceptions.antt =====
-- Concrete runs of the exception handlers.
use progetto_so.Base.{◌≡◌, refl, update, arith}
use progetto_so.Kernel.State.{Kernel}
use progetto_so.Kernel.Run.{ldcxt, stops}
use progetto_so.Kernel.Exceptions.{system_call_handler}
use progetto_so.Kernel.Exceptions.Privilege.{PassedUp, system_call_handler-PassedUp}
use progetto_so.Kernel.Tests.Samples.{sample, registers}
use progetto_so.Kernel.Tests.Interrupts.{machine}

-- Process 30, in user mode and with the support structure 600, tries to send to the service interface.
abbrev user_sends : Kernel
user_sends = record sample {
  p_support = update sample.p_support 30 600;
  proc_state = record registers { status = 8; reg_a0 = 0xffff_ffff; reg_a1 = 10 };
}

system_call_handler-PassedUp_example :
    (t : Kernel) × (system_call_handler machine 5 user_sends ≡ stops (ldcxt 600 1) t)
    × PassedUp user_sends t
system_call_handler-PassedUp_example =
    system_call_handler-PassedUp machine 5 user_sends (λ e. omega (arith, e)) refl
