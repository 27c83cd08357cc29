-- ===== src/Kernel/Exceptions/Privilege.antt =====
-- What a user process gets from a system call in phase2/exceptions.c.
use Prim.Native.Nat.{bit_and}
use progetto_so.Base.{ℕ, ◌==◌, ◌≡◌, ◌≢◌, refl, false, Bool-cases, inl, inr, ==-false, ==-refl}
use progetto_so.Listx.{null}
use progetto_so.Kernel.State.{Kernel}
use progetto_so.Kernel.Run.{ldcxt, stops, int_ge}
use progetto_so.Kernel.Interrupts.{Machine}
use progetto_so.Kernel.Exceptions.{
  generalexcept, userpon, pass_up_or_die, reserved_instruction, syscall_program_trap,
  system_call_handler,
}

-- The state `t` differs from `k` in the saved exception states of one support structure and in the cause.
pub record PassedUp (k t : Kernel) : Type 0 where
  pub inboxes : t.msg_inbox ≡ k.msg_inbox
  pub msg_free : t.msg_free ≡ k.msg_free
  pub ready : t.ready_queue ≡ k.ready_queue
  pub blocked : t.blocked_proc ≡ k.blocked_proc
  pub current : t.current_process ≡ k.current_process
  pub memory : t.word ≡ k.word
  pub saved : t.sup_except_state (k.p_support k.current_process) generalexcept ≡ t.proc_state
  pub resumes_at : t.proc_state.pc_epc ≡ k.proc_state.pc_epc

-- A system call from user mode, whatever its number and arguments, sends and receives nothing: control goes to
-- the support level's general handler, for which the state at the call is saved, and no queue, no inbox and no
-- word of the memory changes.
pub system_call_handler-PassedUp :
    (h : Machine) (fuel : ℕ) (k : Kernel)
    → k.p_support k.current_process ≢ null
    → (bit_and k.proc_state.status userpon == 0) ≡ false
    → (t : Kernel) × (system_call_handler h fuel k
        ≡ stops (ldcxt (k.p_support k.current_process) generalexcept) t)
      × PassedUp k t
unfolding system_call_handler pass_up_or_die syscall_program_trap reserved_instruction
system_call_handler-PassedUp h fuel k supported user =
    elim (Bool-cases (int_ge k.proc_state.reg_a0 1)) [
      | inl high ↦
          rw (high, ==-false (k.p_support k.current_process) null supported)
            (
              _,
              refl,
              record {
                inboxes = refl;
                msg_free = refl;
                ready = refl;
                blocked = refl;
                current = refl;
                memory = refl;
                saved = rw (==-refl (k.p_support k.current_process)) refl;
                resumes_at = refl;
              },
            )
      | inr low ↦
          rw (low, user, ==-false (k.p_support k.current_process) null supported)
            (
              _,
              refl,
              record {
                inboxes = refl;
                msg_free = refl;
                ready = refl;
                blocked = refl;
                current = refl;
                memory = refl;
                saved = rw (==-refl (k.p_support k.current_process)) refl;
                resumes_at = refl;
              },
            )
    ]
