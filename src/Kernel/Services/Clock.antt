-- ===== src/Kernel/Services/Clock.antt =====
-- The service that waits for the pseudo-clock, `WaitForClock_service` of phase2/ssi.c.
use progetto_so.Base.{
  ℕ, ◌≡◌, ◌≢◌, refl, sym, inl, inr, ◌⊎◌, false, true, [], ◌∷◌, ◌++◌, has, erase, arith, ==-false,
  erase_absent,
}
use progetto_so.Listx.{null}
use progetto_so.Kernel.State.{Kernel, sem_dev_len, clock_list}
use progetto_so.Kernel.Run.{add_word}
use progetto_so.Kernel.Services.{
  wait_for_clock_ready, wait_for_clock_blocked, wait_for_clock_service,
}

-- The process `p` has gone from the ready queue or the list of those that wait for messages, whichever has
-- it, to the end of the pseudo-clock's list.
pub record Clocked (p : ℕ) (k t : Kernel) : Type 0 where
  pub clock : t.blocked_proc clock_list ≡ k.blocked_proc clock_list ++ p ∷ []
  pub ready : t.ready_queue ≡ erase p k.ready_queue
  pub general : t.blocked_proc sem_dev_len ≡ erase p (k.blocked_proc sem_dev_len)
  pub others : (i : ℕ) → i ≢ clock_list → i ≢ sem_dev_len → t.blocked_proc i ≡ k.blocked_proc i
  pub soft : t.soft_block_count ≡ add_word k.soft_block_count 1
  pub inboxes : t.msg_inbox ≡ k.msg_inbox

-- The process is ready, or waits for messages, and not both.
abbrev pub IsQueued : ℕ → Kernel → Type 0
IsQueued p k =
    ((has p k.ready_queue ≡ true) × (has p (k.blocked_proc sem_dev_len) ≡ false))
    ⊎ ((has p k.ready_queue ≡ false) × (has p (k.blocked_proc sem_dev_len) ≡ true))

-- A process that is ready, or waits for messages, and not both, stands last in the pseudo-clock's list after the
-- request and has left the queue that it was in; the count of the blocked has gone up by one, modulo
-- the word's size, and no other queue and no inbox changes.
pub wait_for_clock_service-Clocked :
    (p : ℕ) (k : Kernel) → p ≢ null → IsQueued p k → Clocked p k (wait_for_clock_service p k)
unfolding wait_for_clock_service wait_for_clock_ready wait_for_clock_blocked
wait_for_clock_service-Clocked p k live (inl (ready, away)) =
    rw (ready, away, ==-false p null live)
      record {
        clock = refl;
        ready = refl;
        general = sym (erase_absent p (k.blocked_proc sem_dev_len) away);
        others = λ i a b. ground (arith, a);
        soft = refl;
        inboxes = refl;
      }
wait_for_clock_service-Clocked p k live (inr (away, waits)) =
    rw (away, waits, ==-false p null live)
      record {
        clock = refl;
        ready = sym (erase_absent p k.ready_queue away);
        general = refl;
        others = λ i a b. ground (arith, a, b);
        soft = refl;
        inboxes = refl;
      }
