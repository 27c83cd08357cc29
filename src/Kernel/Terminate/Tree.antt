-- ===== src/Kernel/Terminate/Tree.antt =====
-- `TerminateProcess` of phase2/ssi.c on the tree of a process and its progeny.

use progetto_so.Base.{ℕ, ◌≡◌, refl, ◌∙◌, true, List, [], ◌∷◌, ◌++◌, has, arith, has-append}
use progetto_so.Kernel.State.{Kernel}

-- A process with its children, in the order of its list.
mutual
  pub data Tree : Type 0 where
    node : ℕ → Forest → Tree

  pub data Forest : Type 0 where
    nil : Forest
    cons : Tree → Forest → Forest

abbrev pub root : Tree → ℕ
root (node p fs) = p

abbrev pub roots : Forest → List ℕ
roots nil = []
roots (cons t fs) = root t ∷ roots fs

unfoldable mutual
  -- All processes of the tree, each before its children.
  pub members : Tree → List ℕ
  members (node p fs) = p ∷ forest_members fs

  pub forest_members : Forest → List ℕ
  forest_members nil = []
  forest_members (cons t fs) = members t ++ forest_members fs

unfoldable mutual
  -- The same processes in the order of the free list that they end in: the last freed comes first.
  pub freed : Tree → List ℕ
  freed (node p fs) = p ∷ forest_freed fs

  pub forest_freed : Forest → List ℕ
  forest_freed nil = []
  forest_freed (cons t fs) = forest_freed fs ++ freed t

unfoldable mutual
  -- The lists of children in the nucleus are those of the tree.
  pub IsTree : Kernel → Tree → Type 0
  IsTree k (node p fs) = (k.p_child p ≡ roots fs) × IsForest k fs

  pub IsForest : Kernel → Forest → Type 0
  IsForest k nil = Unit {0}
  IsForest k (cons t fs) = IsTree k t × IsForest k fs

mutual
  unfolding members freed

  pub has-freed : (a : ℕ) (t : Tree) → has a (freed t) ≡ has a (members t)
  has-freed a (node p fs) = rw (has-forest_freed a fs)

  pub has-forest_freed : (a : ℕ) (fs : Forest) → has a (forest_freed fs) ≡ has a (forest_members fs)
  has-forest_freed a nil = refl
  has-forest_freed a (cons t fs) = ground (
    arith,
    has-append a (forest_freed fs) (freed t),
    has-append a (members t) (forest_members fs),
    has-freed a t,
    has-forest_freed a fs,
  )

mutual
  unfolding members IsTree

  pub IsTree-frame :
      (t : Tree) (k u : Kernel)
      → ((x : ℕ) → has x (members t) ≡ true → u.p_child x ≡ k.p_child x)
      → IsTree k t
      → IsTree u t
  IsTree-frame (node p fs) k u same is =
      (same p (ground arith) ∙ is.0, IsForest-frame fs k u (λ x h. same x (ground arith)) is.1)

  pub IsForest-frame :
      (fs : Forest) (k u : Kernel)
      → ((x : ℕ) → has x (forest_members fs) ≡ true → u.p_child x ≡ k.p_child x)
      → IsForest k fs
      → IsForest u fs
  IsForest-frame nil k u same is = tt
  IsForest-frame (cons t fs) k u same is = (
    IsTree-frame t k u (λ x h. same x (rw (has-append x (members t) (forest_members fs), h) refl))
        is.0,
    IsForest-frame fs k u
        (λ x h. same x (ground (arith, has-append x (members t) (forest_members fs)))) is.1,
  )
