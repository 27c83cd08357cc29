-- ===== src/Pcb/Tree.antt =====
-- The process tree of phase1/pcb.c: `emptyChild`, `insertChild`, `removeChild` and `outChild`. The
-- children of a process are the list of the `p_sib` nodes behind its `p_child`.
use progetto_so.Base.{
  ℕ, ◌+◌, ◌-◌, sym, ◌∙◌, Distinct, has-append, has-erase_self, has-erase_ne, ◌≡◌, ◌≢◌, refl, true,
  false, List, [], ◌∷◌, ◌++◌, has, erase, arith, ==-refl, ==-false,
}
use progetto_so.Listx.{null}
use progetto_so.Listx.Chain.{IsList}
use progetto_so.Listx.Insert.{list_add_tail-IsList}
use progetto_so.Listx.Delete.{list_del-IsList}
use progetto_so.Listx.Scan.{list_empty-is_nil}
use progetto_so.Store.{Store, p_child, p_sib}
use progetto_so.Pcb.{insert_child, orphan, remove_child, out_child}

-- The `p_sib` nodes of these processes.
abbrev pub sibs : List ℕ → List ℕ
sibs [] = []
sibs (c ∷ cs) = p_sib c ∷ sibs cs

-- `cs` are the children of `p`, in this order, and each knows its parent.
pub record HasChildren (s : Store) (p : ℕ) (cs : List ℕ) : Type 0 where
  pub list : IsList s.mem (p_child p) (sibs cs)
  pub parent : (c : ℕ) → has c cs ≡ true → s.p_parent c ≡ p

sibs-append : (xs ys : List ℕ) → sibs (xs ++ ys) ≡ sibs xs ++ sibs ys
sibs-append [] ys = refl
sibs-append (x ∷ xs) ys = rw (sibs-append xs ys)

has-sibs : (c : ℕ) (cs : List ℕ) → has (p_sib c) (sibs cs) ≡ has c cs
has-sibs c [] = refl
has-sibs c (x ∷ cs) = ground (arith, has-sibs c cs)

erase-sibs : (c : ℕ) (cs : List ℕ) → erase (p_sib c) (sibs cs) ≡ sibs (erase c cs)
erase-sibs c [] = refl
erase-sibs c (x ∷ cs) = ground (arith, erase-sibs c cs)

Distinct-sibs : (cs : List ℕ) → Distinct (sibs cs) → Distinct cs
Distinct-sibs [] d = tt
Distinct-sibs (c ∷ cs) d = (sym (has-sibs c cs) ∙ d.0, Distinct-sibs cs d.1)

module _ {s : Store} {p : ℕ} {cs : List ℕ} (is : HasChildren s p cs) (c : ℕ) where
  -- `insertChild` makes a process without a parent the last child.
  pub insert_child-append :
      p ≢ null
      → c ≢ null
      → has (p_sib c) (p_child p ∷ sibs cs) ≡ false
      → HasChildren (insert_child p c s) p (cs ++ c ∷ [])
  unfolding insert_child
  insert_child-append pn cn out =
      rw (==-false p null pn, ==-false c null cn)
        (record {
          list = rw (sibs-append cs (c ∷ [])) (list_add_tail-IsList (p_sib c) is.list out);
          parent = λ d i. ground (arith, has-append d cs (c ∷ []), is.parent d);
        })

  orphan-HasChildren : has c cs ≡ true → HasChildren (orphan c s) p (erase c cs)
  unfolding orphan
  orphan-HasChildren i =
      let d = Distinct-sibs cs is.list.distinct.1 in
      record {
        list = rw (← erase-sibs c cs) (list_del-IsList (p_sib c) is.list (has-sibs c cs ∙ i));
        parent = λ e k. ground (arith, has-erase_self c cs d, has-erase_ne e c cs, is.parent e);
      }

  -- `outChild` takes a child out of its siblings, wherever it stands, and returns it; the others keep
  -- their order and their parent.
  pub out_child-erase :
      has c cs ≡ true
      → p ≢ null
      → c ≢ null
      → ((out_child c s).0 ≡ c)
        × ((out_child c s).1.p_parent c ≡ null)
        × HasChildren (out_child c s).1 p (erase c cs)
  unfolding out_child
  out_child-erase i pn cn =
      rw (==-false c null cn, is.parent c i, ==-false p null pn)
        (refl, ground arith, orphan-HasChildren i)

-- Without a parent `outChild` returns `NULL` and changes nothing.
pub out_child_root : (s : Store) (c : ℕ) → s.p_parent c ≡ null → out_child c s ≡ (null, s)
unfolding out_child
out_child_root s c e = ground arith

-- What `removeChild` does to these children.
abbrev pub RemovesChild : Store → ℕ → List ℕ → ℕ × Store → Type 0
RemovesChild s p [] (r, t) = (r ≡ null) × (t ≡ s)
RemovesChild s p (c ∷ cs) (r, t) = (r ≡ c) × (t.p_parent c ≡ null) × HasChildren t p cs

-- `removeChild` takes the first child away and returns it, without a parent; the others stay. A process
-- without children gives `NULL` and nothing changes.
pub remove_child-tail :
    (s : Store) (p : ℕ) (cs : List ℕ)
    → HasChildren s p cs
    → p ≢ null
    → RemovesChild s p cs (remove_child p s)
unfolding remove_child
remove_child-tail s p [] is pn =
    let live : p_child p ≢ null = omega arith in
    rw (==-false p null pn, ==-false (p_child p) null live, list_empty-is_nil [] is.list)
      (refl, refl)
remove_child-tail s p (c ∷ cs) is pn =
    let live : p_child p ≢ null = omega arith in
    let owner : c + 20 - 20 ≡ c = omega arith in
    let first : s.mem.next (p_child p) ≡ c + 20 = is.list.chain.0 in
    rw
      (
        ==-false p null pn,
        ==-false (p_child p) null live,
        list_empty-is_nil (p_sib c ∷ sibs cs) is.list,
        first,
        owner,
      )
      (refl, ground arith, rw (==-refl c) at (orphan-HasChildren is c (ground arith)))
