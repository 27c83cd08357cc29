-- ===== src/Kernel/Places.antt =====
-- The places of a process in the nucleus: it is free, runs, is ready or is in one of the lists of blocked processes.
pub mod Moves
pub mod Handlers
pub mod Services
pub mod Ending
pub mod Steps
use progetto_so.Base.{
  ℕ, zero, suc, ◌+◌, ◌*◌, ◌≤◌, ◌<◌, ◌≡◌, ◌≢◌, List, [], ◌∷◌, ◌++◌, ◌==◌, if◌then◌else◌, true, has,
  erase, update, arith, ==-refl, refl, Bool-cases, inl, inr,
}
use progetto_so.Listx.{null}
use progetto_so.Kernel.State.{Kernel}
use progetto_so.Kernel.Start.{devnum}

-- How often an address stands in a list, and in the first lists of a family.
abbrev pub count : ℕ → List ℕ → ℕ
count p [] = 0
count p (x ∷ xs) = (if p == x then 1 else 0) + count p xs

unfoldable pub total : ℕ → (ℕ → List ℕ) → ℕ → ℕ
total p f zero = 0
total p f (suc n) = count p (f n) + total p f n

-- The places of `p` without the one of the running process, and all of them.
abbrev pub waiting : ℕ → Kernel → ℕ
waiting p k = count p k.pcb_free + (count p k.ready_queue + total p k.blocked_proc devnum)

abbrev pub places : ℕ → Kernel → ℕ
places p k = (if p == k.current_process then 1 else 0) + waiting p k

-- No process is in two places, or in one place twice.
abbrev pub IsPlaced : Kernel → Type 0
IsPlaced k = (p : ℕ) → p ≢ null → places p k ≤ 1

pub count-append : (p : ℕ) (xs ys : List ℕ) → count p (xs ++ ys) ≡ count p xs + count p ys
count-append p [] ys = omega arith
count-append p (x ∷ xs) ys = omega (arith, count-append p xs ys)

pub count-erase :
    (p q : ℕ) (xs : List ℕ)
    → has q xs ≡ true
    → count p xs ≡ (if p == q then 1 else 0) + count p (erase q xs)
count-erase p q [] h = absurd (ground arith)
count-erase p q (x ∷ xs) h = ground (arith, count-erase p q xs)

pub count-erase_le : (p q : ℕ) (xs : List ℕ) → count p (erase q xs) ≤ count p xs
count-erase_le p q [] = omega arith
count-erase_le p q (x ∷ xs) = ground (arith, count-erase_le p q xs)

pub total-outside :
    (p : ℕ) (f : ℕ → List ℕ) (i n : ℕ) (xs : List ℕ)
    → n ≤ i
    → total p (update f i xs) n ≡ total p f n
unfolding total
total-outside p f i zero xs b = refl
total-outside p f i (suc n) xs b = ground (arith, b, total-outside p f i n xs (omega (arith, b)))

-- A list of the family changes.
pub total-update :
    (p : ℕ) (f : ℕ → List ℕ) (i n : ℕ) (xs : List ℕ)
    → i < n
    → total p (update f i xs) n + count p (f i) ≡ total p f n + count p xs
unfolding total
total-update p f i zero xs b = absurd (omega (arith, b))
total-update p f i (suc n) xs b = elim (Bool-cases (n == i)) [
  | inl here ↦
      let same : n ≡ i = ground arith in
      rw (same, ==-refl i, total-outside p f i i xs (omega arith)) (omega arith)
  | inr away ↦
      let below : i < n = ground (arith, b) in
      rw away (omega (arith, total-update p f i n xs below))
]
