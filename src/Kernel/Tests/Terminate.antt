-- ===== src/Kernel/Tests/Terminate.antt =====
-- Runs of `TerminateProcess` of phase2/ssi.c, and its theorem at a concrete state.
use progetto_so.Base.{◌≡◌, refl, arith}
use progetto_so.Kernel.State.{Kernel}
use progetto_so.Kernel.Run.{returns}
use progetto_so.Kernel.Terminate.{terminate_process}
use progetto_so.Kernel.Terminate.Unlink.{IsExclusive}
use progetto_so.Kernel.Terminate.Tree.{Tree, node, nil, cons, members, freed, IsTree}
use progetto_so.Kernel.Terminate.Progeny.{Killable, Ended, OneChildLess, terminate_process-Ended}
use progetto_so.Kernel.Tests.Samples.{sample}

-- The running process 30 and its child 40.
abbrev progeny : Tree
progeny = node 30 (cons (node 40 nil) nil)

sample-IsExclusive : IsExclusive sample
sample-IsExclusive p i j hi hj a b = ground arith

progeny-Killable : Killable sample (members progeny)
unfolding members
progeny-Killable = record {
  exclusive = sample-IsExclusive;
  distinct = (refl, (refl, tt));
  alive = λ a h. ground arith;
  not_ssi = refl;
  live = refl;
}

progeny-IsTree : IsTree sample progeny
unfolding IsTree
progeny-IsTree = (refl, ((refl, tt), tt))

terminate_process-Ended_example :
    (u : Kernel) × (terminate_process 41 30 sample ≡ returns tt u)
    × Ended (members progeny) (freed progeny) sample u
    × OneChildLess progeny sample u
unfolding members
terminate_process-Ended_example =
    terminate_process-Ended progeny 41 sample (omega arith) progeny-IsTree progeny-Killable refl
