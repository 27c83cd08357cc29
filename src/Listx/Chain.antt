-- ===== src/Listx/Chain.antt =====
-- What it means that a `list_head` (listx.h) heads a list: the links run through the nodes of the
-- list in order and back to the head, in both directions, and no node occurs twice.
use progetto_so.Base.{ℕ, ◌≡◌, true, List, [], ◌∷◌, has, Distinct, arith}
use progetto_so.Listx.{Mem}

-- From `a` the links run through `xs` to `b`, forwards and backwards.
abbrev pub Linked : Mem → ℕ → List ℕ → ℕ → Type 0
Linked m a [] b = (m.next a ≡ b) × (m.prev b ≡ a)
Linked m a (x ∷ xs) b = (m.next a ≡ x) × (m.prev x ≡ a) × Linked m x xs b

-- The list with this head holds the nodes `xs`, in this order.
pub record IsList (m : Mem) (head : ℕ) (xs : List ℕ) : Type 0 where
  pub chain : Linked m head xs head
  pub distinct : Distinct (head ∷ xs)

-- The node before the end of a segment.
abbrev pub last : ℕ → List ℕ → ℕ
last a [] = a
last a (x ∷ xs) = last x xs

-- The node after the start of a segment.
abbrev pub first : List ℕ → ℕ → ℕ
first [] b = b
first (x ∷ xs) b = x

pub last-mem : (a : ℕ) (xs : List ℕ) → has (last a xs) (a ∷ xs) ≡ true
last-mem a [] = ground arith
last-mem a (x ∷ xs) = ground (arith, last-mem x xs)

-- Both ends of a segment can be read at its outer nodes.
pub next-first : (m : Mem) (a : ℕ) (xs : List ℕ) (b : ℕ) → Linked m a xs b → m.next a ≡ first xs b
next-first m a [] b l = l.0
next-first m a (x ∷ xs) b l = l.0

pub prev-last : (m : Mem) (a : ℕ) (xs : List ℕ) (b : ℕ) → Linked m a xs b → m.prev b ≡ last a xs
prev-last m a [] b l = l.1
prev-last m a (x ∷ xs) b l = prev-last m x xs b l.2

-- A segment survives a change that spares its own links.
pub Linked-frame :
    (m g : Mem) (a : ℕ) (xs : List ℕ) (b : ℕ)
    → Linked m a xs b
    → ((c : ℕ) → has c (a ∷ xs) ≡ true → g.next c ≡ m.next c)
    → ((c : ℕ) → has c (b ∷ xs) ≡ true → g.prev c ≡ m.prev c)
    → Linked g a xs b
Linked-frame m g a [] b l n p = ground (arith, n a, p b)
Linked-frame m g a (x ∷ xs) b l n p = (
  ground (arith, n a),
  ground (arith, p x),
  Linked-frame m g x xs b l.2 (λ c h. n c (ground arith)) (λ c h. p c (ground arith)),
)
