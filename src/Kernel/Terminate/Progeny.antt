-- ===== src/Kernel/Terminate/Progeny.antt =====
-- `TerminateProcess` of phase2/ssi.c on the tree of a process and its progeny: it returns, and ends exactly
-- the processes of the tree.
use mathlib.Core.List.{append_assoc}
use progetto_so.Base.{
  ◌⊎◌, ℕ, zero, suc, ◌<◌, ◌≡◌, ◌≢◌, refl, sym, ap, ◌∙◌, true, false, List, [], ◌∷◌, ◌++◌, ◌==◌, has,
  erase, length, length-append, arith, Bool-cases, if◌then◌else◌, ==-refl, ==-false, inl, inr,
  Distinct, has-append, Apart, AreApart, Distinct-append,
}
use progetto_so.Listx.{null}
use progetto_so.Kernel.State.{Kernel}
use progetto_so.Kernel.Run.{returns}
use progetto_so.Kernel.Queues.{remove_child, free_pcb}
use progetto_so.Kernel.Terminate.{unlink_process, kill_children, terminate_process}
use progetto_so.Kernel.Terminate.Unlink.{
  IsExclusive, Removed, Removed-append, Detached, unlink_process-Removed,
}
use progetto_so.Kernel.Terminate.Tree.{
  Tree, Forest, node, nil, cons, root, roots, members, forest_members, freed, forest_freed, IsTree,
  IsForest, has-freed, IsTree-frame, IsForest-frame,
}

-- Processes that can be ended: none of them is free, the service interface or `NULL`, and none stands twice.
pub record Killable (k : Kernel) (ms : List ℕ) : Type 0 where
  pub exclusive : IsExclusive k
  pub distinct : Distinct ms
  pub alive : Apart ms k.pcb_free
  pub not_ssi : has k.ssi_pcb ms ≡ false
  pub live : has null ms ≡ false

-- What is left once the processes `ms` have ended, where `gone` are the blocks that were freed.
pub record Ended (ms gone : List ℕ) (k u : Kernel) : Type 0 where
  pub removed : Removed ms k u
  pub free : u.pcb_free ≡ gone ++ k.pcb_free

-- No list of children changes but those of the ended processes and of the parent of the first.
abbrev pub OneChildLess : Tree → Kernel → Kernel → Type 0
OneChildLess t k u =
    (x : ℕ)
    → x ≢ null
    → has x (members t) ≡ false
    → u.p_child x ≡ (if x == k.p_parent (root t) then erase (root t) (k.p_child x) else k.p_child x)

abbrev ChildrenKept : List ℕ → Kernel → Kernel → Type 0
ChildrenKept ms k u = (x : ℕ) → x ≢ null → has x ms ≡ false → u.p_child x ≡ k.p_child x

Removed-free_pcb :
    (p : ℕ) {ms : List ℕ} {k u : Kernel} → Removed ms k u → Removed ms k (free_pcb p u)
Removed-free_pcb p r = record {
  ready = r.ready;
  blocked = r.blocked;
  count = r.count;
  soft = r.soft;
  exclusive = r.exclusive;
  ssi = r.ssi;
  current = r.current;
  inbox = r.inbox;
}

-- The claim for a tree, and for the children that the loop of a process `p` has still to end.
abbrev TreeEnds : Tree → Type 0
TreeEnds t =
    (fuel : ℕ) (k : Kernel)
    → length (members t) < fuel
    → IsTree k t
    → Killable k (members t)
    → has (k.p_parent (root t)) (members t) ≡ false
    → (u : Kernel) × (terminate_process fuel (root t) k ≡ returns tt u)
      × Ended (members t) (freed t) k u
      × OneChildLess t k u

abbrev ForestEnds : Forest → Type 0
ForestEnds fs =
    (rounds fuel p : ℕ) (k : Kernel)
    → length (forest_members fs) < rounds
    → length (forest_members fs) < fuel
    → k.p_child p ≡ roots fs
    → IsForest k fs
    → Killable k (p ∷ forest_members fs)
    → (u : Kernel) × (kill_children (terminate_process fuel) rounds p k ≡ returns tt u)
      × Ended (forest_members fs) (forest_freed fs) k u
      × ChildrenKept (p ∷ forest_members fs) k u

Removed-nil : (k : Kernel) → IsExclusive k → Removed [] k k
Removed-nil k ex = record {
  ready = refl;
  blocked = λ j h. refl;
  count = omega arith;
  soft = λ c. c;
  exclusive = ex;
  ssi = refl;
  current = refl;
  inbox = refl;
}

nil_step : ForestEnds nil
unfolding kill_children members freed
nil_step zero fuel p k r f kids is can = elim r [ ]
nil_step (suc rounds) fuel p k r f kids is can = (
  k,
  rw (kill_children, kids) refl,
  record { removed = Removed-nil k can.exclusive; free = refl },
  λ x h o. refl,
)

mem_ne : (x q : ℕ) (ms : List ℕ) → has x ms ≡ true → has q ms ≡ false → (x == q) ≡ false
mem_ne x q ms a b = ==-false x q λ e. let a' : has q ms ≡ true = rw e at a in cc

-- Of all lists of children only that of the parent of `p` changes, and the parent is none of `ms`.
Detached-kept :
    (p : ℕ) (ms : List ℕ) (k u : Kernel)
    → Detached p k u
    → has null ms ≡ false
    → has (k.p_parent p) ms ≡ false
    → (x : ℕ) → has x ms ≡ true
    → u.p_child x ≡ k.p_child x
Detached-kept p ms k u d live outer x h =
    let xn : x ≢ null = λ e. (let h' : has null ms ≡ true = rw e at h in cc) in
    d.children x xn ∙ rw (mem_ne x (k.p_parent p) ms h outer) refl

-- What makes `ms` killable is left by a step that frees none of them.
Killable-step :
    (ms : List ℕ) (k u : Kernel)
    → Killable k ms
    → IsExclusive u
    → ((a : ℕ) → has a ms ≡ true → has a u.pcb_free ≡ has a k.pcb_free)
    → u.ssi_pcb ≡ k.ssi_pcb
    → Killable u ms
Killable-step ms k u can ex free ssi = record {
  exclusive = ex;
  distinct = can.distinct;
  alive = λ a h. free a h ∙ can.alive a h;
  not_ssi = ap (λ n. has n ms) ssi ∙ can.not_ssi;
  live = can.live;
}

tree_step : (p : ℕ) (fs : Forest) → ForestEnds fs → TreeEnds (node p fs)
unfolding terminate_process members freed IsTree
tree_step p fs ends zero k f is can outer = elim f [ ]
tree_step p fs ends (suc fuel) k f is can outer =
    let ms = p ∷ forest_members fs in
    let pn : p ≢ null =
      λ e. (let bad : (p == null) ≡ true = rw e refl in ground (arith, can.live)) in
    let ps : (p == k.ssi_pcb) ≡ false = ground (arith, can.not_ssi) in
    let pf : has p k.pcb_free ≡ false = can.alive p (ground arith) in
    let (r, d) = unlink_process-Removed p k can.exclusive in
    let kept = Detached-kept p ms k (unlink_process p k) d can.live outer in
    let can' =
      Killable-step ms k (unlink_process p k) can r.exclusive (λ a h. ap (has a) d.free) r.ssi in
    let (u, run, ended, same) =
      ends fuel fuel p (unlink_process p k) (omega arith) (omega arith)
        (kept p (ground arith) ∙ is.0)
        (IsForest-frame fs k (unlink_process p k) (λ x h. kept x (ground arith)) is.1) can' in
    (
      free_pcb p u,
      rw (ps, pf, run) refl,
      record {
        removed = Removed-free_pcb p (Removed-append (p ∷ []) (forest_members fs) r ended.removed);
        free =
            rw (==-false p null pn)
              (ap (λ l. p ∷ l) (ended.free ∙ ap (λ l. forest_freed fs ++ l) d.free));
      },
      λ x h o. same x h o ∙ d.children x h,
    )

-- Fewer processes are killable where more are.
Killable-sub :
    (ms ns : List ℕ) (k : Kernel)
    → Killable k ms
    → Distinct ns
    → ((a : ℕ) → has a ns ≡ true → has a ms ≡ true)
    → Killable k ns
Killable-sub ms ns k can d sub = record {
  exclusive = can.exclusive;
  distinct = d;
  alive = λ a h. can.alive a (sub a h);
  not_ssi = not_mem k.ssi_pcb can.not_ssi;
  live = not_mem null can.live;
}
  where
    not_mem : (a : ℕ) → has a ms ≡ false → has a ns ≡ false
    not_mem a out = elim (Bool-cases (has a ns)) [ inl h ↦ let h' = sub a h in cc | inr h ↦ h ]

-- The state in which `TerminateProcess` is called on the first child.
module _ (t : Tree) (fs : Forest) (p : ℕ) (k : Kernel)
    (can : Killable k (p ∷ members t ++ forest_members fs)) where
  child_taken : Kernel
  child_taken = remove_child p (root t) (roots fs) k

  split : AreApart (members t) (forest_members fs)
  split = Distinct-append (members t) (forest_members fs) can.distinct.1

  p_outside : (has p (members t) ≡ false) × (has p (forest_members fs) ≡ false)
  p_outside = ground (arith, has-append p (members t) (forest_members fs), can.distinct)

  Killable-tree : Killable child_taken (members t)
  unfolding child_taken
  Killable-tree =
      let sub =
        Killable-sub _ (members t) k can split.left
          λ a h. ground (arith, has-append a (members t) (forest_members fs)) in
      Killable-step (members t) k child_taken sub sub.exclusive (λ a h. refl) refl

  Killable-rest : Killable k (p ∷ forest_members fs)
  Killable-rest =
      Killable-sub _ (p ∷ forest_members fs) k can (p_outside.1, split.right)
        λ a h. ground (arith, has-append a (members t) (forest_members fs))

  IsTree-kept : IsTree k t → IsTree child_taken t
  unfolding child_taken
  IsTree-kept = IsTree-frame t k child_taken λ x h. rw (mem_ne x p (members t) h p_outside.0) refl

  no_parent : has (child_taken.p_parent (root t)) (members t) ≡ false
  unfolding child_taken
  no_parent = rw (==-refl (root t)) Killable-tree.live

  -- After the call on the first child, the lists of children outside its tree are as before the call.
  module _ (u : Kernel) (ended : Ended (members t) (freed t) child_taken u)
      (less : OneChildLess t child_taken u) where
    others_kept :
        (x : ℕ)
        → x ≢ null
        → has x (members t) ≡ false
        → (x == p) ≡ false
        → u.p_child x ≡ k.p_child x
    unfolding child_taken
    others_kept x xn out ne = less x xn out ∙ rw (==-refl (root t), ==-false x null xn, ne) refl

    -- The list of `p` itself is that of its other children.
    siblings : u.p_child p ≡ roots fs
    unfolding child_taken
    siblings =
        let pn : p ≢ null =
          λ e. (let bad : (p == null) ≡ true = rw e refl in ground (arith, can.live)) in
        less p pn p_outside.0 ∙ rw (==-refl (root t), ==-refl p, ==-false p null pn) refl

    IsForest-kept : IsForest k fs → IsForest u fs
    IsForest-kept = IsForest-frame fs k u λ x h.
        let xn : x ≢ null = λ e.
          (let h' : has null (forest_members fs) ≡ true = rw e at h in
            ground (arith, Killable-rest.live)) in
        let out : has x (members t) ≡ false = apart_of x h in
        others_kept x xn out (mem_ne x p (forest_members fs) h p_outside.1)
      where
        apart_of : (x : ℕ) → has x (forest_members fs) ≡ true → has x (members t) ≡ false
        apart_of x h = elim (Bool-cases (has x (members t))) [
          | inl i ↦ let out = split.apart x i in cc
          | inr o ↦ o
        ]

    Killable-rest_after : Killable u (p ∷ forest_members fs)
    unfolding child_taken
    Killable-rest_after =
        Killable-step (p ∷ forest_members fs) k u Killable-rest ended.removed.exclusive
          (λ a h. free a h (Bool-cases (has a (members t)))) ended.removed.ssi
      where
        free :
            (a : ℕ)
            → has a (p ∷ forest_members fs) ≡ true
            → (has a (members t) ≡ true) ⊎ (has a (members t) ≡ false)
            → has a u.pcb_free ≡ has a k.pcb_free
        free a h (inl i) =
            let out = split.apart a i in
            let pt = p_outside.0 in
            let ne : (a == p) ≡ false = mem_ne a p (members t) i pt in absurd (ground arith)
        free a h (inr o) = rw (ended.free, has-append a (freed t) k.pcb_free, has-freed a t, o) refl

  Removed-child_taken : {ms : List ℕ} {u : Kernel} → Removed ms child_taken u → Removed ms k u
  unfolding child_taken
  Removed-child_taken r = record {
    ready = r.ready;
    blocked = r.blocked;
    count = r.count;
    soft = r.soft;
    exclusive = r.exclusive;
    ssi = r.ssi;
    current = r.current;
    inbox = r.inbox;
  }

members_pos : (t : Tree) → 0 < length (members t)
unfolding members
members_pos (node p fs) = omega arith

outside :
    (x p : ℕ) (ms ns : List ℕ)
    → has x (p ∷ ms ++ ns) ≡ false
    → (has x (p ∷ ns) ≡ false) × (has x ms ≡ false) × ((x == p) ≡ false)
outside x p ms ns h = ground (arith, has-append x ms ns)

cons_step : (t : Tree) (fs : Forest) → TreeEnds t → ForestEnds fs → ForestEnds (cons t fs)
unfolding kill_children members freed IsTree child_taken
cons_step t fs tree ends zero fuel p k r f kids is can = elim r [ ]
cons_step t fs tree ends (suc rounds) fuel p k r f kids is can =
    let k₁ = child_taken t fs p k can in
    let size = length-append (members t) (forest_members fs) in
    let (u, run, ended, less) =
      tree fuel k₁ (omega arith) (IsTree-kept t fs p k can is.0) (Killable-tree t fs p k can)
        (no_parent t fs p k can) in
    let (v, run', ended', same) =
      ends rounds fuel p u (omega (arith, members_pos t)) (omega arith)
        (siblings t fs p k can u ended less) (IsForest-kept t fs p k can u ended less is.1)
        (Killable-rest_after t fs p k can u ended less) in
    (
      v,
      rw (kill_children, kids, run) run',
      record {
        removed =
            Removed-append (members t) (forest_members fs)
              (Removed-child_taken t fs p k can ended.removed) ended'.removed;
        free =
            ended'.free
            ∙ ap (λ l. forest_freed fs ++ l) ended.free
            ∙ sym (append_assoc (forest_freed fs) (freed t) k.pcb_free);
      },
      λ x h o.
          (let (a, b, c) = outside x p (members t) (forest_members fs) o in
            same x h a ∙ others_kept t fs p k can u ended less x h b c),
    )

mutual
  end_tree : (t : Tree) → TreeEnds t
  end_tree (node p fs) = tree_step p fs (end_forest fs)

  end_forest : (fs : Forest) → ForestEnds fs
  end_forest nil = nil_step
  end_forest (cons t fs) = cons_step t fs (end_tree t) (end_forest fs)

-- `TerminateProcess`, on a process whose progeny is the tree `t`, returns: more fuel than the tree has
-- processes is enough. Exactly the processes of the tree have left the ready queue and the lists of blocked
-- processes, `process_count` is less by their number, `softBlock_count` is still the number of processes in
-- the device lists if it was, the blocks of the tree and no others are now free, children before their
-- parents, and of all other processes only the parent of the root has a child less. It holds if none of them
-- is free, the service interface or its own ancestor, and no process waits for two devices.
pub terminate_process-Ended :
    (t : Tree) (fuel : ℕ) (k : Kernel)
    → length (members t) < fuel
    → IsTree k t
    → Killable k (members t)
    → has (k.p_parent (root t)) (members t) ≡ false
    → (u : Kernel) × (terminate_process fuel (root t) k ≡ returns tt u)
      × Ended (members t) (freed t) k u
      × OneChildLess t k u
terminate_process-Ended t = end_tree t
