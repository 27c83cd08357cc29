-- ===== src/Listx/Delete.antt =====
-- `list_del` of listx.h on a well-formed list.
use progetto_so.Base.{
  ℕ, ◌≡◌, inl, inr, true, false, List, [], ◌∷◌, ◌==◌, has, erase, Distinct, Distinct-erase,
  erase_not_mem, arith, Bool-cases,
}
use progetto_so.Listx.{Mem, list_del}
use progetto_so.Listx.Chain.{Linked, IsList, Linked-frame}

-- The neighbours of a node lie in the segment or are its ends.
pub neighbours :
    (m : Mem) (n a : ℕ) (xs : List ℕ) (b : ℕ)
    → Linked m a xs b
    → has n xs ≡ true
    → (has (m.prev n) (a ∷ xs) ≡ true) × (has (m.next n) (b ∷ xs) ≡ true)
neighbours m n a [] b l i = absurd (ground arith)
neighbours m n a (x ∷ []) b l i = ground arith
neighbours m n a (x ∷ y ∷ xs) b l i = ground (arith, neighbours m n x (y ∷ xs) b l.2)

list_del-Linked :
    (m : Mem) (n a : ℕ) (xs : List ℕ) (b : ℕ)
    → Linked m a xs b
    → has n xs ≡ true
    → Distinct (a ∷ xs)
    → has b xs ≡ false
    → Linked (list_del n m) a (erase n xs) b
unfolding list_del
list_del-Linked m n a [] b l i d hb = absurd (ground arith)
list_del-Linked m n a (x ∷ []) b l i d hb = ground arith
list_del-Linked m n a (x ∷ y ∷ xs) b l i d hb = elim (Bool-cases (n == x)) [
  | inl e ↦ rw e (
    ground arith,
    ground arith,
    Linked-frame m (list_del n m) y xs b l.2.2 (λ c k. ground arith) (λ c k. ground arith),
  )
  | inr e ↦
      let near = neighbours m n x (y ∷ xs) b l.2 (ground arith) in
      rw e (
        ground arith,
        ground arith,
        list_del-Linked m n x (y ∷ xs) b l.2 (ground arith) d.1 (ground arith),
      )
]

-- `list_del` of a node of the list takes that node out and keeps the order of the others.
pub list_del-IsList :
    (n : ℕ) {m : Mem} {h : ℕ} {xs : List ℕ}
    → IsList m h xs
    → has n xs ≡ true
    → IsList (list_del n m) h (erase n xs)
list_del-IsList n {m} {h} {xs} is i = record {
  chain = list_del-Linked m n h xs h is.chain i is.distinct is.distinct.0;
  distinct = (erase_not_mem h n xs is.distinct.0, Distinct-erase n xs is.distinct.1);
}
