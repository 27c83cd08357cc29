-- ===== src/Listx/Insert.antt =====
-- `INIT_LIST_HEAD`, `list_add` and `list_add_tail` of listx.h on a well-formed list.
use progetto_so.Base.{
  ℕ, ◌≡◌, ◌≢◌, false, List, [], ◌∷◌, ◌++◌, has, Distinct, Distinct-snoc, arith, has-append,
}
use progetto_so.Listx.{Mem, list_add_between, init_list_head, list_add, list_add_tail}
use progetto_so.Listx.Chain.{Linked, IsList, last, last-mem, prev-last, Linked-frame}

pub init_list_head-IsList : (head : ℕ) (m : Mem) → IsList (init_list_head head m) head []
unfolding init_list_head
init_list_head-IsList head m = record { chain = ground arith; distinct = ground arith }

module _ (n : ℕ) (m : Mem) where
  list_add-Linked :
      (h : ℕ) (xs : List ℕ)
      → Linked m h xs h
      → has n (h ∷ xs) ≡ false
      → Distinct (h ∷ xs)
      → Linked (list_add n h m) h (n ∷ xs) h
  unfolding list_add
  list_add-Linked h [] l out d = ground arith
  list_add-Linked h (x ∷ xs) l out d = (
    ground arith,
    ground arith,
    (
      ground arith,
      ground arith,
      Linked-frame m (list_add n h m) x xs h l.2 (λ c i. ground arith) (λ c i. ground arith),
    ),
  )

  -- The walk to the end of the segment, where the new node is linked in.
  between-Linked :
      (a : ℕ) (xs : List ℕ) (h : ℕ)
      → Linked m a xs h
      → has n (a ∷ xs) ≡ false
      → n ≢ h
      → has h xs ≡ false
      → Distinct (a ∷ xs)
      → Linked (list_add_between n (last a xs) h m) a (xs ++ n ∷ []) h
  unfolding list_add_between
  between-Linked a [] h l out ne hx d = ground arith
  between-Linked a (x ∷ xs) h l out ne hx d = (
    ground (arith, last-mem x xs),
    ground (arith, last-mem x xs),
    between-Linked x xs h l.2 (ground arith) ne (ground arith) d.1,
  )

module _ (n : ℕ) {h : ℕ} {m : Mem} {xs : List ℕ} where
  -- `list_add` puts a node that is not in the list in front of it.
  pub list_add-IsList : IsList m h xs → has n (h ∷ xs) ≡ false → IsList (list_add n h m) h (n ∷ xs)
  list_add-IsList is out = record {
    chain = list_add-Linked n m h xs is.chain out is.distinct;
    distinct = ground (arith, is.distinct);
  }

  -- `list_add_tail` puts it at the end.
  pub list_add_tail-IsList :
      IsList m h xs → has n (h ∷ xs) ≡ false → IsList (list_add_tail n h m) h (xs ++ n ∷ [])
  unfolding list_add_tail
  list_add_tail-IsList is out = record {
    chain =
        rw (prev-last m h xs h is.chain)
          (between-Linked n m h xs h is.chain out (ground arith) is.distinct.0 is.distinct);
    distinct = (
      ground (arith, has-append h xs (n ∷ []), is.distinct),
      Distinct-snoc n xs (ground arith) is.distinct.1,
    );
  }
