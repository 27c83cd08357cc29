-- ===== src/Listx/Frame.antt =====
-- What the list operations of listx.h leave alone: every list that shares no node with the one that
-- they work on.
use progetto_so.Base.{ℕ, ◌≡◌, true, false, List, [], ◌∷◌, has, Apart, arith}
use progetto_so.Listx.{Mem, init_list_head, list_add, list_add_tail, list_del}
use progetto_so.Listx.Chain.{IsList, first, last-mem, next-first, prev-last, Linked-frame}
use progetto_so.Listx.Delete.{neighbours}

-- `g` has the links of `m` except at the addresses `s`.
abbrev pub SameOutside : List ℕ → Mem → Mem → Type 0
SameOutside s m g = (c : ℕ) → has c s ≡ false → (g.next c ≡ m.next c) × (g.prev c ≡ m.prev c)

-- A list that shares no address with the changed ones stays as it was.
pub IsList-frame :
    (s : List ℕ) {m g : Mem} {k : ℕ} {ys : List ℕ}
    → SameOutside s m g
    → Apart (k ∷ ys) s
    → IsList m k ys
    → IsList g k ys
IsList-frame s {m} {g} {k} {ys} same apart is = record {
  chain =
      Linked-frame m g k ys k is.chain (λ c i. (same c (apart c i)).0)
        (λ c i. (same c (apart c i)).1);
  distinct = is.distinct;
}

first-mem : (xs : List ℕ) (b : ℕ) → has (first xs b) (b ∷ xs) ≡ true
first-mem [] b = ground arith
first-mem (x ∷ xs) b = ground arith

pub init_list_head-same : (h : ℕ) (m : Mem) → SameOutside (h ∷ []) m (init_list_head h m)
unfolding init_list_head
init_list_head-same h m c out = ground arith

module _ {m : Mem} {h : ℕ} {xs : List ℕ} (is : IsList m h xs) (n : ℕ) where
  pub list_add-same : SameOutside (n ∷ h ∷ xs) m (list_add n h m)
  unfolding list_add
  list_add-same c out = ground (arith, next-first m h xs h is.chain, first-mem xs h)

  pub list_add_tail-same : SameOutside (n ∷ h ∷ xs) m (list_add_tail n h m)
  unfolding list_add_tail
  list_add_tail-same c out = ground (arith, prev-last m h xs h is.chain, last-mem h xs)

  pub list_del-same : has n xs ≡ true → SameOutside (h ∷ xs) m (list_del n m)
  unfolding list_del
  list_del-same i c out = ground (arith, neighbours m n h xs h is.chain i)
