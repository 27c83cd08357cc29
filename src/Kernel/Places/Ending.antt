-- ===== src/Kernel/Places/Ending.antt =====
-- The places of a process when a tree of processes ends: `TerminateProcess` of phase2/ssi.c, called by the service
-- interface or, for the running process, by `passUpOrDie` of phase2/exceptions.c.
use progetto_so.Base.{
  ℕ, zero, suc, ◌+◌, ◌≤◌, ◌<◌, ◌≡◌, ◌≢◌, refl, sym, ap, ◌∙◌, inl, inr, true, false, List, [], ◌∷◌,
  ◌==◌, has, erase, length, Distinct, if◌then◌else◌, arith, Bool-cases, ==-false,
}
use progetto_so.Listx.{null}
use progetto_so.Kernel.State.{Kernel}
use progetto_so.Kernel.Run.{returns, final}
use progetto_so.Kernel.Start.{devnum}
use progetto_so.Kernel.Terminate.{terminate_process}
use progetto_so.Kernel.Services.{terminate_process_service}
use progetto_so.Kernel.Exceptions.{pass_up_or_die}
use progetto_so.Kernel.Interrupts.{Machine}
use progetto_so.Kernel.Terminate.Unlink.{without}
use progetto_so.Kernel.Terminate.Tree.{
  Tree, Forest, node, nil, cons, root, members, forest_members, freed, forest_freed, IsTree,
}
use progetto_so.Kernel.Terminate.Progeny.{Killable, Ended, terminate_process-Ended}
use progetto_so.Kernel.Places.{count, total, waiting, IsPlaced, count-append, count-erase_le}
use progetto_so.Kernel.Places.Handlers.{IsQueued, scheduler-IsPlaced}
use progetto_so.Kernel.Places.Moves.{NoMore-IsPlaced, send_message-NoMore}

-- An address that is absent, and one in a list without repetition.
count_absent : (q : ℕ) (xs : List ℕ) → has q xs ≡ false → count q xs ≡ 0
count_absent q [] h = refl
count_absent q (x ∷ xs) h = ground (arith, count_absent q xs)

count-Distinct : (q : ℕ) (xs : List ℕ) → Distinct xs → count q xs ≤ 1
count-Distinct q [] d = omega arith
count-Distinct q (x ∷ xs) d = elim (Bool-cases (q == x)) [
  | inl here ↦
      let same : q ≡ x = ground arith in
      let rest : count q xs ≡ 0 = rw same (count_absent x xs d.0) in ground (arith, here, rest)
  | inr away ↦ rw away (omega (arith, count-Distinct q xs d.1))
]

-- The others of a list stay; those who leave it are gone if none stood in it twice.
count-without_le : (q : ℕ) (ms xs : List ℕ) → count q (without ms xs) ≤ count q xs
count-without_le q [] xs = omega arith
count-without_le q (m ∷ ms) xs =
    omega (arith, count-without_le q ms (erase m xs), count-erase_le q m xs)

count-erase_self : (q : ℕ) (xs : List ℕ) → count q xs ≤ 1 → count q (erase q xs) ≡ 0
count-erase_self q [] h = refl
count-erase_self q (x ∷ xs) h = ground (arith, count-erase_self q xs)

count-without :
    (q : ℕ) (ms xs : List ℕ) → has q ms ≡ true → count q xs ≤ 1 → count q (without ms xs) ≡ 0
count-without q [] xs there once = absurd (ground arith)
count-without q (m ∷ ms) xs there once = elim (Bool-cases (q == m)) [
  | inl here ↦
      let same : q ≡ m = ground arith in
      let gone : count q (erase m xs) ≡ 0 = rw⁻¹ same (count-erase_self q xs once) in
      omega (arith, count-without_le q ms (erase m xs), gone)
  | inr away ↦
      count-without q ms (erase m xs) (ground arith) (omega (arith, count-erase_le q m xs, once))
]

-- All lists of blocked processes at once.
module _ (q : ℕ) (ms : List ℕ) (f g : ℕ → List ℕ) where
  total-without_le :
      (n : ℕ) → ((j : ℕ) → j < n → g j ≡ without ms (f j)) → total q g n ≤ total q f n
  unfolding total
  total-without_le zero e = omega arith
  total-without_le (suc n) e = rw (e n (omega arith)) (
      omega
        (arith, count-without_le q ms (f n), total-without_le n (λ j b. e j (omega (arith, b)))))

  total-without :
      (n : ℕ)
      → ((j : ℕ) → j < n → g j ≡ without ms (f j))
      → has q ms ≡ true
      → total q f n ≤ 1
      → total q g n ≡ 0
  unfolding total
  total-without zero e there once = refl
  total-without (suc n) e there once = rw (e n (omega arith)) (
      omega (
        arith,
        count-without q ms (f n) there (omega (arith, once)),
        total-without n (λ j b. e j (omega (arith, b))) there (omega (arith, once)),
      ))

mutual
  unfolding members freed

  count-freed : (q : ℕ) (t : Tree) → count q (freed t) ≡ count q (members t)
  count-freed q (node p fs) = omega (arith, count-forest_freed q fs)

  count-forest_freed :
      (q : ℕ) (fs : Forest) → count q (forest_freed fs) ≡ count q (forest_members fs)
  count-forest_freed q nil = refl
  count-forest_freed q (cons t fs) = omega (
    arith,
    count-append q (forest_freed fs) (freed t),
    count-append q (members t) (forest_members fs),
    count-freed q t,
    count-forest_freed q fs,
  )

-- What a call of `TerminateProcess` needs: the tree of the process, more fuel than it has processes, and that all
-- of these can be ended.
pub record CanEnd (t : Tree) (fuel : ℕ) (k : Kernel) : Type 0 where
  pub enough : length (members t) < fuel
  pub tree : IsTree k t
  pub killable : Killable k (members t)
  pub outer : has (k.p_parent (root t)) (members t) ≡ false

-- The processes of the tree are only free, and the others where they were.
record Buried (ms : List ℕ) (k u : Kernel) : Type 0 where
  current : u.current_process ≡ k.current_process
  inside : (q : ℕ) → q ≢ null → has q ms ≡ true → waiting q u ≤ 1
  outside : (q : ℕ) → has q ms ≡ false → waiting q u ≤ waiting q k

Ended-Buried :
    (t : Tree) (k u : Kernel)
    → IsPlaced k
    → Killable k (members t)
    → Ended (members t) (freed t) k u
    → Buried (members t) k u
Ended-Buried t k u placed can e =
    let ms = members t in
    let blocked : (j : ℕ) → j < devnum → u.blocked_proc j ≡ without ms (k.blocked_proc j) =
      λ j b. e.removed.blocked j (omega (arith, b)) in
    let free : (q : ℕ) → count q u.pcb_free ≡ count q ms + count q k.pcb_free = λ q.
      ap (count q) e.free ∙ omega (arith, count-append q (freed t) k.pcb_free, count-freed q t) in
    record {
      current = e.removed.current;
      inside = λ q live there.
          let once : count q ms ≤ 1 = count-Distinct q ms can.distinct in
          let new : count q k.pcb_free ≡ 0 = count_absent q k.pcb_free (can.alive q there) in
          let p = placed q live in
          let ready : count q u.ready_queue ≡ 0 =
            ap (count q) e.removed.ready
            ∙ count-without q ms k.ready_queue there (omega (arith, p)) in
          let lists =
            total-without q ms k.blocked_proc u.blocked_proc devnum blocked there
              (omega (arith, p)) in
          omega (arith, free q, once, new, ready, lists);
      outside = λ q away.
          let ready : count q u.ready_queue ≤ count q k.ready_queue =
            rw e.removed.ready (count-without_le q ms k.ready_queue) in
          let lists = total-without_le q ms k.blocked_proc u.blocked_proc devnum blocked in
          omega (arith, free q, count_absent q ms away, ready, lists);
    }

Buried-IsQueued : (ms : List ℕ) (k u : Kernel) → IsPlaced k → Buried ms k u → IsQueued u
Buried-IsQueued ms k u placed b q live = elim (Bool-cases (has q ms)) [
  | inl there ↦ b.inside q live there
  | inr away ↦ omega (arith, b.outside q away, placed q live)
]

Buried-IsPlaced :
    (ms : List ℕ) (k u : Kernel)
    → has k.current_process ms ≡ false
    → IsPlaced k
    → Buried ms k u
    → IsPlaced u
Buried-IsPlaced ms k u runs placed b q live = elim (Bool-cases (has q ms)) [
  | inl there ↦
      let other : (q == u.current_process) ≡ false = ==-false q u.current_process (λ e.
        (let bad : has q ms ≡ false = rw (e, b.current) runs in ground (arith, bad, there))) in
      rw other (omega (arith, b.inside q live there))
  | inr away ↦ rw b.current (omega (arith, b.outside q away, placed q live))
]

-- The service interface ends a process: the one that the request names, or the sender.
pub terminate_process_service-IsPlaced :
    (t : Tree) (response_at fuel sender target : ℕ) (k : Kernel)
    → root t ≡ (if target == null then sender else target)
    → CanEnd t fuel k
    → has k.current_process (members t) ≡ false
    → IsPlaced k
    → IsPlaced (final (terminate_process_service response_at fuel sender target k))
unfolding terminate_process_service
terminate_process_service-IsPlaced t response_at fuel sender target k named c runs placed =
    let (u, run, e, less) = terminate_process-Ended t fuel k c.enough c.tree c.killable c.outer in
    let buried =
      Buried-IsPlaced (members t) k u runs placed (Ended-Buried t k u placed c.killable e) in
    rw (sym named, run)
      (NoMore-IsPlaced (send_message-NoMore sender null u.current_process u) buried)

-- An exception of the running process is passed up, or ends it.
pub pass_up_or_die-IsPlaced :
    (h : Machine) (t : Tree) (fuel index : ℕ) (k : Kernel)
    → root t ≡ k.current_process
    → CanEnd t fuel k
    → IsPlaced k
    → IsPlaced (final (pass_up_or_die h fuel index k))
unfolding pass_up_or_die
pass_up_or_die-IsPlaced h t fuel index k named c placed =
    let (u, run, e, less) = terminate_process-Ended t fuel k c.enough c.tree c.killable c.outer in
    let same : terminate_process fuel k.current_process k ≡ returns tt u =
      ap (λ p. terminate_process fuel p k) (sym named) ∙ run in
    let buried = Buried-IsQueued (members t) k u placed (Ended-Buried t k u placed c.killable e) in
    elim (Bool-cases (k.p_support k.current_process == null)) [
      | inl dies ↦ rw (dies, same) (scheduler-IsPlaced h.tod u buried)
      | inr up ↦ rw up placed
    ]
