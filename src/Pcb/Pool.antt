-- ===== src/Pcb/Pool.antt =====
-- The free list of phase1/pcb.c: `initPcbs`, `allocPcb` and `freePcb`.
use progetto_so.Base.{
  ℕ, zero, suc, ◌+◌, ◌*◌, ◌≤◌, ◌<◌, ◌≡◌, ◌≢◌, refl, inl, inr, false, List, [], ◌∷◌, has, arith,
  ==-refl, ==-false, dec_lt,
}
use progetto_so.Listx.{Mem, null, init_list_head}
use progetto_so.Listx.Chain.{IsList}
use progetto_so.Listx.Insert.{init_list_head-IsList, list_add-IsList}
use progetto_so.Listx.Delete.{list_del-IsList}
use progetto_so.Listx.Scan.{list_empty-is_nil}
use progetto_so.Listx.Frame.{IsList-frame, init_list_head-same}
use progetto_so.Store.{
  Layout, IsLayout, IsPcb, ArePcbs, Store, max_proc, p_child, p_sib, msg_inbox, pcb_size,
  pcb_entries,
}
use progetto_so.Pcb.{reset_pcb, init_pcbs_from, init_pcbs, free_pcb, alloc_pcb}

-- Two different places of an array do not meet, and no place of the array lies inside another one.
place_lt : (size i j : ℕ) → i < j → i * size + size ≤ j * size
place_lt size i j h = let up : (i + 1) * size ≤ j * size = grind arith in omega arith

pub inside_ne :
    (base size i j off : ℕ) → 0 < off → off < size → base + i * size + off ≢ base + j * size
inside_ne base size i j off pos small e = elim (dec_lt i j) [
  | yes h ↦ omega (arith, place_lt size i j h)
  | no h ↦ let back : j * size ≤ i * size = grind arith in omega arith
]

pub entry_ne : (base size i j : ℕ) → 0 < size → j < i → base + i * size ≢ base + j * size
entry_ne base size i j pos h e = omega (arith, place_lt size j i h)

entries-later :
    (l : Layout) (i j : ℕ) → j ≤ i → has (l.pcb_table + i * pcb_size l) (pcb_entries l j) ≡ false
entries-later l i zero h = refl
entries-later l i (suc j) h =
    let apart = entry_ne l.pcb_table (pcb_size l) i j (omega arith) (omega arith) in
    rw (==-false _ _ apart) (entries-later l i j (omega arith))

module _ (l : Layout) (ok : IsLayout l) where
  -- No address inside a table entry is the head of the free list.
  head_ne :
      (i off : ℕ)
      → i < max_proc
      → off < pcb_size l
      → l.pcb_table + i * pcb_size l + off ≢ l.pcb_free_h
  head_ne i off below small e =
      let top = place_lt (pcb_size l) i max_proc below in
      elim ok.head_apart [ inl h ↦ omega arith | inr h ↦ omega arith ]

  -- Nor does a field of one process block lie at another block.
  field-not-mem :
      (p off : ℕ) (xs : List ℕ)
      → IsPcb l p
      → 0 < off
      → off < pcb_size l
      → ArePcbs l xs
      → has (p + off) xs ≡ false
  field-not-mem p off [] is pos small all = refl
  field-not-mem p off (x ∷ xs) is pos small all =
      let apart = inside_ne l.pcb_table (pcb_size l) is.index all.0.index off pos small in
      let ne : p + off ≢ x = rw (is.place, all.0.place) apart in
      rw (==-false _ _ ne) (field-not-mem p off xs is pos small all.1)

  field-outside :
      (p off : ℕ) (xs : List ℕ)
      → IsPcb l p
      → 0 < off
      → off < pcb_size l
      → ArePcbs l xs
      → has (p + off) (l.pcb_free_h ∷ xs) ≡ false
  field-outside p off xs is pos small all =
      let ne : p + off ≢ l.pcb_free_h = rw is.place (head_ne is.index off is.below small) in
      rw (==-false _ _ ne) (field-not-mem p off xs is pos small all)

  pcb_live : (p : ℕ) → IsPcb l p → p ≢ null
  pcb_live p is e = omega (arith, is.place, ok.table_live)

  -- The rounds of `initPcbs`: each puts the next table entry in front of the free list.
  init_pcbs_from-IsList :
      (rounds i : ℕ) (s : Store)
      → rounds + i ≤ max_proc
      → IsList s.mem l.pcb_free_h (pcb_entries l i)
      → IsList (init_pcbs_from l rounds i s).mem l.pcb_free_h (pcb_entries l (rounds + i))
  unfolding init_pcbs_from
  init_pcbs_from-IsList zero i s h is = let e : 0 + i ≡ i = omega arith in rw e is
  init_pcbs_from-IsList (suc rounds) i s h is =
      let e : suc rounds + i ≡ rounds + (i + 1) = omega arith in
      let e' : i + 1 ≡ suc i = omega arith in
      let apart : l.pcb_table + i * pcb_size l ≢ l.pcb_free_h =
        λ q. head_ne i 0 (omega arith) (omega arith) (omega arith) in
      rw e (
        init_pcbs_from-IsList rounds (i + 1) _ (omega arith) (
          rw e'
            (list_add-IsList _ is (rw (==-false _ _ apart) (entries-later l i i (omega arith))))))

  -- `initPcbs`, on the free list that is empty at the start, puts every entry of `pcbTable` into it, the
  -- last entry first.
  pub init_pcbs-entries :
      (s : Store)
      → IsList s.mem l.pcb_free_h []
      → IsList (init_pcbs l s).mem l.pcb_free_h (pcb_entries l max_proc)
  unfolding init_pcbs
  init_pcbs-entries s is = init_pcbs_from-IsList max_proc 0 s (omega arith) is

-- `INIT_LIST_HEAD` on an address outside a list leaves the list as it is.
pub init_list_head-keeps :
    (a : ℕ) (m : Mem) (k : ℕ) (ys : List ℕ)
    → has a (k ∷ ys) ≡ false
    → IsList m k ys
    → IsList (init_list_head a m) k ys
init_list_head-keeps a m k ys out is =
    IsList-frame (a ∷ []) (init_list_head-same a m) (λ c i. ground arith) is

-- A process block as `allocPcb` hands it out: a new identifier, no relatives, an empty inbox, nothing
-- left of its last life.
pub record IsFresh (l : Layout) (p pid : ℕ) (t : Store) : Type 0 where
  pub p_pid : t.p_pid p ≡ pid
  pub p_entry_hi : t.p_entry_hi p ≡ pid
  pub next_pid : t.next_pid ≡ pid + 1
  pub p_parent : t.p_parent p ≡ null
  pub p_time : t.p_time p ≡ 0
  pub p_support : t.p_support p ≡ null
  pub p_child : IsList t.mem (p_child p) []
  pub p_sib : IsList t.mem (p_sib p) []
  pub msg_inbox : IsList t.mem (msg_inbox l p) []

reset_pcb-IsFresh : (l : Layout) (p : ℕ) (s : Store) → IsFresh l p s.next_pid (reset_pcb l p s)
unfolding reset_pcb
reset_pcb-IsFresh l p s = record {
  p_pid = ground arith;
  p_entry_hi = ground arith;
  next_pid = refl;
  p_parent = ground arith;
  p_time = ground arith;
  p_support = ground arith;
  p_child =
      init_list_head-keeps _ _ _ [] (ground arith)
        (init_list_head-keeps _ _ _ [] (ground arith) (init_list_head-IsList _ _));
  p_sib = init_list_head-keeps _ _ _ [] (ground arith) (init_list_head-IsList _ _);
  msg_inbox = init_list_head-IsList _ _;
}

-- What `allocPcb` does on a free list: `NULL` and no change if it is empty, else its first block, fresh,
-- and the rest of the list.
abbrev pub Allocates : Layout → Store → List ℕ → ℕ × Store → Type 0
Allocates l s [] (p, t) = (p ≡ null) × (t ≡ s)
Allocates l s (x ∷ xs) (p, t) = (p ≡ x) × IsList t.mem l.pcb_free_h xs × IsFresh l x s.next_pid t

module _ (l : Layout) (ok : IsLayout l) where
  reset_pcb-keeps :
      (p : ℕ) (xs : List ℕ) (s : Store)
      → IsPcb l p
      → ArePcbs l xs
      → has p (l.pcb_free_h ∷ xs) ≡ false
      → IsList s.mem l.pcb_free_h xs
      → IsList (reset_pcb l p s).mem l.pcb_free_h xs
  unfolding reset_pcb
  reset_pcb-keeps p xs s is all out li =
      let away = λ (off : ℕ) (pos : 0 < off) (small : off < pcb_size l).
        field-outside l ok p off xs is pos small all in
      init_list_head-keeps _ _ _ xs (away (32 + l.state_size) (omega arith) (omega arith)) (
        init_list_head-keeps _ _ _ xs (away 20 (omega arith) (omega arith)) (
          init_list_head-keeps _ _ _ xs (away 12 (omega arith) (omega arith))
            (init_list_head-keeps _ _ _ xs out li)))

  -- `allocPcb` returns `NULL` and changes nothing if no block is free. Otherwise it returns the first free
  -- block, takes it out of the list, and gives every field its initial value and the block a new identifier.
  pub alloc_pcb-Allocates :
      (s : Store) (xs : List ℕ)
      → IsList s.mem l.pcb_free_h xs
      → ArePcbs l xs
      → Allocates l s xs (alloc_pcb l s)
  unfolding alloc_pcb
  alloc_pcb-Allocates s [] is all = rw (list_empty-is_nil [] is) (refl, refl)
  alloc_pcb-Allocates s (x ∷ xs) is all =
      rw (list_empty-is_nil (x ∷ xs) is, is.chain.0)
        (
          refl,
          reset_pcb-keeps x xs _ all.0 all.1 (ground (arith, is.distinct))
              (rw (==-refl x) at (list_del-IsList x is (ground arith))),
          reset_pcb-IsFresh l x _,
        )

  -- The block that `freePcb` gives back is the next one that `allocPcb` hands out, and the free list is
  -- then what it was before both.
  pub alloc_pcb-free_pcb :
      (s : Store) (xs : List ℕ) (p : ℕ)
      → IsList s.mem l.pcb_free_h xs
      → ArePcbs l xs
      → IsPcb l p
      → has p (l.pcb_free_h ∷ xs) ≡ false
      → ((alloc_pcb l (free_pcb l p s)).0 ≡ p)
        × IsList (alloc_pcb l (free_pcb l p s)).1.mem l.pcb_free_h xs
  unfolding free_pcb
  alloc_pcb-free_pcb s xs p is all at out =
      let (got, rest, _) =
        alloc_pcb-Allocates (free_pcb l p s) (p ∷ xs)
          (rw (==-false p null (pcb_live l ok p at)) (list_add-IsList p is out)) (at, all) in
      (got, rest)
