-- ===== src/Base/Lists.antt =====
-- Lists measured and indexed by native numbers, and lists of addresses without repetition.
use Prim.Native.Nat.{ℕ, zero, suc, ◌+◌}
use mathlib.Core.Path.{◌≡◌, refl, ap}
use mathlib.Core.Logic.{◌≢◌, inl, inr}
use mathlib.Core.Bool.{Bool, true, false, ◌||◌}
use mathlib.Core.List.{List, [], ◌∷◌, ◌++◌}
use native.Mathlib.Omega.{arith}
use progetto_so.Base.Tests.{Bool-cases, ◌==◌, if◌then◌else◌}

module _ {ℓ} {A : Type ℓ} where
  abbrev pub length : List A → ℕ
  length [] = 0
  length (x ∷ xs) = suc (length xs)

  abbrev pub get_or : List A → ℕ → A → A
  get_or [] i d = d
  get_or (x ∷ xs) zero d = x
  get_or (x ∷ xs) (suc i) d = get_or xs i d

  -- A write out of bounds changes nothing.
  abbrev pub set : List A → ℕ → A → List A
  set [] i v = []
  set (x ∷ xs) zero v = v ∷ xs
  set (x ∷ xs) (suc i) v = x ∷ set xs i v

  abbrev pub replicate : ℕ → A → List A
  replicate zero a = []
  replicate (suc n) a = a ∷ replicate n a

  pub length-append : (xs ys : List A) → length (xs ++ ys) ≡ length xs + length ys
  length-append [] ys = omega arith
  length-append (x ∷ xs) ys = omega (arith, length-append xs ys)

  pub length-set : (xs : List A) (i : ℕ) (v : A) → length (set xs i v) ≡ length xs
  length-set [] i v = refl
  length-set (x ∷ xs) zero v = refl
  length-set (x ∷ xs) (suc i) v = ap suc (length-set xs i v)

  pub length-replicate : (n : ℕ) (a : A) → length (replicate n a) ≡ n
  length-replicate zero a = refl
  length-replicate (suc n) a = ap suc (length-replicate n a)

-- A function, such as a field of every object, changed at one address.
abbrev pub update {ℓ} : {A : Type ℓ} → (ℕ → A) → ℕ → A → ℕ → A
update f a v b = if b == a then v else f b

-- Membership of an address in a list.
abbrev pub has : ℕ → List ℕ → Bool
has a [] = false
has a (x ∷ xs) = (a == x) || has a xs

-- No address stands in the list twice.
abbrev pub Distinct : List ℕ → Type 0
Distinct [] = Unit {0}
Distinct (x ∷ xs) = (has x xs ≡ false) × Distinct xs

-- The two lists share no address.
abbrev pub Apart : List ℕ → List ℕ → Type 0
Apart xs ys = (a : ℕ) → has a xs ≡ true → has a ys ≡ false

-- The list without the first occurrence of an address.
abbrev pub erase : ℕ → List ℕ → List ℕ
erase a [] = []
erase a (x ∷ xs) = if a == x then xs else x ∷ erase a xs

pub has-cons : (p s : ℕ) (ss : List ℕ) → has p (s ∷ ss) ≡ false → (p ≢ s) × (has p ss ≡ false)
has-cons p s ss e = elim (Bool-cases (p == s)) [
  | inl here ↦ absurd (ground (arith, here, e))
  | inr away ↦ (λ f. ground (arith, away, f), ground (arith, away, e))
]

pub has-append : (a : ℕ) (xs ys : List ℕ) → has a (xs ++ ys) ≡ (has a xs || has a ys)
has-append a [] ys = refl
has-append a (x ∷ xs) ys = ground (arith, has-append a xs ys)

pub has-erase_ne : (a b : ℕ) (xs : List ℕ) → a ≢ b → has a (erase b xs) ≡ has a xs
has-erase_ne a b [] h = refl
has-erase_ne a b (x ∷ xs) h = ground (arith, has-erase_ne a b xs h)

pub has-erase_self : (a : ℕ) (xs : List ℕ) → Distinct xs → has a (erase a xs) ≡ false
has-erase_self a [] d = refl
has-erase_self a (x ∷ xs) d = ground (arith, has-erase_self a xs d.1)

pub erase_absent : (a : ℕ) (xs : List ℕ) → has a xs ≡ false → erase a xs ≡ xs
erase_absent a [] h = refl
erase_absent a (x ∷ xs) h = ground (arith, erase_absent a xs)

pub erase_not_mem : (a b : ℕ) (xs : List ℕ) → has a xs ≡ false → has a (erase b xs) ≡ false
erase_not_mem a b [] h = refl
erase_not_mem a b (x ∷ xs) h = ground (arith, erase_not_mem a b xs)

pub Distinct-erase : (a : ℕ) (xs : List ℕ) → Distinct xs → Distinct (erase a xs)
Distinct-erase a [] d = tt
Distinct-erase a (x ∷ xs) d = ground (arith, erase_not_mem x a xs, Distinct-erase a xs)

pub Distinct-snoc : (a : ℕ) (xs : List ℕ) → has a xs ≡ false → Distinct xs → Distinct (xs ++ a ∷ [])
Distinct-snoc a [] h d = (refl, tt)
Distinct-snoc a (x ∷ xs) h d = ground (arith, has-append x xs (a ∷ []), Distinct-snoc a xs)

pub length-erase : (a : ℕ) (xs : List ℕ) → has a xs ≡ true → length xs ≡ length (erase a xs) + 1
length-erase a [] h = absurd (ground arith)
length-erase a (x ∷ xs) h = ground (arith, length-erase a xs)

-- What it means for a joined list to have no repetition.
pub record AreApart (xs ys : List ℕ) : Type 0 where
  pub left : Distinct xs
  pub right : Distinct ys
  pub apart : Apart xs ys

pub Distinct-append : (xs ys : List ℕ) → Distinct (xs ++ ys) → AreApart xs ys
Distinct-append [] ys d = record { left = tt; right = d; apart = λ a h. absurd (ground arith) }
Distinct-append (x ∷ xs) ys d =
    let rest = Distinct-append xs ys d.1 in
    record {
      left = ground (arith, has-append x xs ys, rest.left);
      right = rest.right;
      apart = λ a h. ground (arith, has-append x xs ys, rest.apart a);
    }
