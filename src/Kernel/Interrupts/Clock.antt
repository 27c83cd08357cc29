-- ===== src/Kernel/Interrupts/Clock.antt =====
-- The pseudo-clock: what `ITHandler` of phase2/interrupts.c does to the processes that wait for a tick.
use progetto_so.Base.{
  ℕ, zero, suc, ◌+◌, ◌<◌, ◌≤◌, ◌==◌, ◌≡◌, ◌≢◌, refl, sym, subst, ap, ◌∙◌, inl, inr, false, true,
  List, [], ◌∷◌, ◌++◌, length, has, update, arith, Bool-cases, ==-false, has-append, length-append,
  ==-refl, Distinct, if◌then◌else◌,
}
use Prim.Native.Nat.{bit_or}
use mathlib.Core.List.{append-nil, append_assoc}
use progetto_so.Kernel.State.{Kernel, sem_dev_len, clock_list, word_mod}
use progetto_so.Kernel.Run.{returns, stops, ldst, sub_word, and_then}
use progetto_so.Kernel.Scheduler.{tebiton, interval_tod, scheduler}
use progetto_so.Listx.{null}
use progetto_so.Kernel.Interrupts.{
  Machine, psecond, interrupt_handler_exit, it_handler, tick, tick_all, tick_fuel,
}
use progetto_so.Kernel.Interrupts.Tick.{IsWaiting, Ticked, tick-Ticked}

abbrev pub AreWaiting : List ℕ → Kernel → Type 0
AreWaiting ps k = (p : ℕ) → has p ps ≡ true → IsWaiting p k

-- All processes of the list are woken, each with one message.
pub record AllTicked (ps : List ℕ) (soft : ℕ) (k t : Kernel) : Type 0 where
  pub ready : t.ready_queue ≡ k.ready_queue ++ ps
  pub clock : t.blocked_proc clock_list ≡ []
  pub others : (i : ℕ) → i ≢ clock_list → t.blocked_proc i ≡ k.blocked_proc i
  pub inbox : (q : ℕ) → has q ps ≡ true → length (t.msg_inbox q) ≡ suc (length (k.msg_inbox q))
  pub inboxes : (q : ℕ) → has q ps ≡ false → t.msg_inbox q ≡ k.msg_inbox q
  pub current : t.current_process ≡ k.current_process
  pub soft_block_count : t.soft_block_count ≡ soft
  pub proc_state : t.proc_state ≡ k.proc_state

still-IsWaiting :
    {p m : ℕ} {ps ms : List ℕ} {k t : Kernel} (q : ℕ)
    → Ticked p m ps ms k t
    → q ≢ p
    → IsWaiting q k
    → IsWaiting q t
still-IsWaiting {p} {k} {t} q d qp w = record {
  live = w.live;
  alive = rw d.pcb_free w.alive;
  not_near =
      rw (d.current, d.ready, has-append q k.ready_queue (p ∷ [])) (ground (arith, w.not_near));
  not_blocked = rw (d.others sem_dev_len (λ e. omega (arith, e))) w.not_blocked;
}

AllTicked-cons :
    {p m soft : ℕ} {ps ms : List ℕ} {k u t : Kernel}
    → Ticked p m ps ms k u
    → has p ps ≡ false
    → AllTicked ps soft u t
    → AllTicked (p ∷ ps) soft k t
AllTicked-cons {p} {m} {ps} {k} {u} {t} one apart all = record {
  ready = all.ready ∙ ap (λ w. w ++ ps) one.ready ∙ append_assoc k.ready_queue (p ∷ []) ps;
  clock = all.clock;
  others = λ i h. all.others i h ∙ one.others i h;
  inbox = λ q h. elim (Bool-cases (q == p)) [
    | inl here ↦
        let same : p ≡ q = ground arith in
        subst (λ w. length (t.msg_inbox w) ≡ suc (length (k.msg_inbox w))) same
          (ap length (all.inboxes p apart ∙ one.inbox)
            ∙ length-append (k.msg_inbox p) (m ∷ [])
            ∙ omega arith)
    | inr away ↦
        let other : q ≢ p = λ e. ground arith in
        all.inbox q (ground (arith, h)) ∙ ap (λ w. suc (length w)) (one.inboxes q other)
  ];
  inboxes = λ q h.
      let other : q ≢ p = λ e. ground (arith, h) in
      all.inboxes q (ground (arith, h)) ∙ one.inboxes q other;
  current = all.current ∙ one.current;
  soft_block_count = all.soft_block_count;
  proc_state = all.proc_state ∙ one.proc_state;
}

one_less : (soft n : ℕ) → soft + suc n < word_mod → sub_word (soft + suc n) 1 ≡ soft + n
one_less soft n small = omega (arith, small)

tick_all-AllTicked :
    (fuel : ℕ) (ps ms : List ℕ) (soft : ℕ) (k : Kernel)
    → k.blocked_proc clock_list ≡ ps
    → k.msg_free ≡ ms
    → length ps < fuel
    → length ps ≤ length ms
    → Distinct ps
    → AreWaiting ps k
    → k.soft_block_count ≡ soft + length ps
    → soft + length ps < word_mod
    → (t : Kernel) × (tick_all fuel k ≡ returns tt t) × AllTicked ps soft k t
unfolding tick_all
tick_all-AllTicked zero ps ms soft k queue free bound enough d w count small =
    absurd (omega (arith, bound))
tick_all-AllTicked (suc fuel) [] ms soft k queue free bound enough d w count small = (
  k,
  rw (queue, tick_all) refl,
  record {
    ready = sym (append-nil k.ready_queue);
    clock = queue;
    others = λ i h. refl;
    inbox = λ q h. absurd (ground (arith, h));
    inboxes = λ q h. refl;
    current = refl;
    soft_block_count = ground arith;
    proc_state = refl;
  },
)
tick_all-AllTicked (suc fuel) (p ∷ ps) [] soft k queue free bound enough d w count small =
    absurd (omega (arith, enough))
tick_all-AllTicked (suc fuel) (p ∷ ps) (m ∷ ms) soft k queue free bound enough d w count small =
    let here : has p (p ∷ ps) ≡ true = rw (==-refl p) refl in
    let one = tick-Ticked p m ps ms k (w p here) free in
    let (t, e, all) =
      tick_all-AllTicked fuel ps ms soft (tick p ps k) one.clock one.msg_free (omega (arith, bound))
        (omega (arith, enough)) d.1
        (λ q h. still-IsWaiting q one (λ i. ground (arith, d, h)) (w q (ground (arith, h))))
        (one.soft ∙ ap (λ n. sub_word n 1) count ∙ one_less soft (length ps) small)
        (omega (arith, small)) in
    (t, rw (queue, tick_all) e, AllTicked-cons one d.0 all)

-- The state once the timer is on and the clock is read.
abbrev timed : Machine → Kernel → Kernel
timed h k = record k {
  cpu_status = bit_or k.cpu_status tebiton;
  timer_start = h.tod (k.clock_reads + 1);
  clock_reads = k.clock_reads + 2;
}

interrupt_handler_exit-timed :
    (h : Machine) (k : Kernel)
    → interrupt_handler_exit h k ≡ (
        if k.current_process == null
        then scheduler h.tod (timed h k)
        else stops (ldst k.proc_state) (timed h k))
unfolding interrupt_handler_exit interval_tod
interrupt_handler_exit-timed h k = elim (Bool-cases (k.current_process == null)) [
  | inl idle ↦ rw idle refl
  | inr runs ↦ rw runs refl
]

-- The interval timer's interrupt: with a free message for each process that waits for the clock, all of them, which
-- are in use, all different and neither ready, running nor waiting for messages, become ready in the order in which they wait, each with one message more and the rest with none, the count
-- of the blocked falls by their number and no other queue changes. If a process was interrupted, it then goes on in
-- the state that was saved, and with none the scheduler chooses one.
pub it_handler-AllTicked :
    (h : Machine) (ps : List ℕ) (soft : ℕ) (k : Kernel)
    → k.blocked_proc clock_list ≡ ps
    → length ps < tick_fuel
    → length ps ≤ length k.msg_free
    → Distinct ps
    → AreWaiting ps k
    → k.soft_block_count ≡ soft + length ps
    → soft + length ps < word_mod
    → (t : Kernel) × (it_handler h k
        ≡ (if k.current_process == null then scheduler h.tod t else stops (ldst k.proc_state) t))
      × AllTicked ps soft k t
unfolding it_handler
it_handler-AllTicked h ps soft k queue bound enough d w count small =
    let set = record k { interval_timer = psecond } in
    let w' : AreWaiting ps set = λ q i.
      let v = w q i in
      record {
        live = v.live;
        alive = v.alive;
        not_near = v.not_near;
        not_blocked = v.not_blocked;
      } in
    let (t, e, all) =
      tick_all-AllTicked tick_fuel ps k.msg_free soft set queue refl bound enough d w' count
        small in
    let u = record t { blocked_proc = update t.blocked_proc clock_list [] } in
    let v = timed h u in
    (
      v,
      ap
            (λ r. and_then r (λ _ u.
              interrupt_handler_exit h
                (record u { blocked_proc = update u.blocked_proc clock_list [] })))
            e
          ∙ interrupt_handler_exit-timed h u
          ∙ ap (λ c. if c == null then scheduler h.tod v else stops (ldst t.proc_state) v)
              all.current
          ∙ ap (λ s. if k.current_process == null then scheduler h.tod v else stops (ldst s) v)
              all.proc_state,
      record {
        ready = all.ready;
        clock = refl;
        others = λ i h.
            ap (λ b. if b then [] else t.blocked_proc i) (==-false i clock_list h) ∙ all.others i h;
        inbox = all.inbox;
        inboxes = all.inboxes;
        current = all.current;
        soft_block_count = all.soft_block_count;
        proc_state = all.proc_state;
      },
    )
