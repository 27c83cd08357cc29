-- ===== src/Kernel/Tests/Linked.antt =====
-- A memory in which one process waits for device 3, and its way to the ready queue.
use progetto_so.Base.{
  ℕ, ◌+◌, ◌*◌, ◌<◌, ◌≡◌, ◌≢◌, refl, subst, fun_ext, false, List, [], ◌∷◌, some, ◌==◌, if◌then◌else◌,
  Apart, update, arith, Bool-cases, inl, inr,
}
use progetto_so.Listx.Chain.{IsList}
use progetto_so.Store.{Store}
use progetto_so.Pcb.Samples.{with_mem}
use progetto_so.Kernel.State.{Kernel}
use progetto_so.Kernel.Scheduler.{ready_process}
use progetto_so.Kernel.Linked.{lists, AreQueues, IsRepresented, ready_process_linked}
use progetto_so.Kernel.Linked.Moves.{ready_process_linked-IsRepresented}
use progetto_so.Kernel.Tests.Samples.{sample}

abbrev head_at : ℕ → ℕ
head_at i = 100 + 8 * i

abbrev other_end : ℕ → ℕ
other_end a = if a == 124 then 1000 else if a == 1000 then 124 else a

abbrev one_waits : Store
one_waits = with_mem (record { next = other_end; prev = other_end })

abbrev waiting : Kernel
waiting = record sample { ready_queue = []; blocked_proc = update (λ i. []) 3 (1000 ∷ []) }

abbrev queues : ℕ → List ℕ
queues i = if i == 3 then 1000 ∷ [] else []

empty-IsList : (i : ℕ) → i < lists → i ≢ 3 → IsList one_waits.mem (head_at i) []
empty-IsList i b ne = record {
  chain = (ground (arith, b, ne), ground (arith, b, ne));
  distinct = ground (arith, b, ne);
}

-- The three lists that are tested for a common node.
queues-Apart :
    (i j : ℕ) → i < lists → j < lists → i ≢ j → Apart (head_at i ∷ queues i) (head_at j ∷ queues j)
queues-Apart i j b c ne a = elim (Bool-cases (i == 3)) [
  | inl here ↦
      let away : (j == 3) ≡ false = ground (arith, ne) in rw (here, away) (ground (arith, b, c, ne))
  | inr away ↦ elim (Bool-cases (j == 3)) [
    | inl here ↦ rw (here, away) (ground (arith, b, c, ne))
    | inr other ↦ rw (away, other) (ground (arith, b, c, ne))
  ]
]

waiting-AreQueues : AreQueues head_at queues one_waits.mem
waiting-AreQueues = record {
  list = λ i b. elim (Bool-cases (i == 3)) [
    | inl here ↦
        let same : i ≡ 3 = ground arith in
        rw same record { chain = (refl, refl, (refl, refl)); distinct = (refl, (refl, tt)) }
    | inr away ↦ rw away (empty-IsList i b (λ e. ground arith))
  ];
  apart = queues-Apart;
  head_live = λ i b e. omega (arith, e);
  live = λ i b. ground arith;
  short = λ i b. ground arith;
}

waiting-IsRepresented : IsRepresented head_at one_waits waiting
waiting-IsRepresented =
    subst (λ c. AreQueues head_at c one_waits.mem) (fun_ext (λ i. ground arith)) waiting-AreQueues

ready_process_linked-IsRepresented_example :
    (t : Store) × (ready_process_linked 500 124 1000 one_waits ≡ some t)
    × IsRepresented head_at t (ready_process 1000 3 waiting)
ready_process_linked-IsRepresented_example =
    ready_process_linked-IsRepresented head_at one_waits waiting 3 1000 waiting-IsRepresented
      (omega arith) (λ e. omega (arith, e)) refl (omega arith)
