-- ===== src/Pcb/Queue.antt =====
-- The process queues of phase1/pcb.c against lists of pointers: `emptyProcQ`, `insertProcQ`,
-- `headProcQ`, `removeProcQ`, `outProcQ` and `searchInList` on a well-formed queue.
use progetto_so.Base.{
  ℕ, ◌≤◌, ◌≡◌, ◌≢◌, refl, inl, inr, true, false, some, List, [], ◌∷◌, ◌++◌, ◌==◌, if◌then◌else◌,
  has, erase, length, arith, Bool-cases, erase_absent, ==-refl, ==-false,
}
use progetto_so.Listx.{Mem, null, found, absent, list_search, init_list_head, list_del}
use progetto_so.Listx.Chain.{IsList}
use progetto_so.Listx.Insert.{init_list_head-IsList, list_add_tail-IsList}
use progetto_so.Listx.Delete.{list_del-IsList}
use progetto_so.Listx.Scan.{first_match, list_search-first_match, is_nil, list_empty-is_nil}
use progetto_so.Listx.Frame.{SameOutside, list_del-same, init_list_head-same}
use progetto_so.Store.{Layout, Store, max_proc}
use progetto_so.Pcb.{
  search_fuel, on_mem, result_of, search_in_list, empty_proc_q, insert_proc_q, head_proc_q,
  remove_proc_q, out_proc_q,
}

-- The first entry of a queue, `NULL` if there is none.
abbrev pub head_or_null : List ℕ → ℕ
head_or_null [] = null
head_or_null (x ∷ xs) = x

abbrev pub tail_of : List ℕ → List ℕ
tail_of [] = []
tail_of (x ∷ xs) = xs

first_match-has :
    (p : ℕ) (xs : List ℕ)
    → first_match (λ pos. pos == p) xs ≡ (if has p xs then found p else absent)
unfolding first_match
first_match-has p [] = refl
first_match-has p (x ∷ xs) = ground (arith, first_match-has p xs)

pub search-has :
    (p : ℕ) {m : Mem} {h : ℕ} {xs : List ℕ}
    → IsList m h xs
    → length xs ≤ max_proc
    → list_search search_fuel (λ pos. pos == p) h m ≡ (if has p xs then found p else absent)
search-has p {xs} is short =
    rw (list_search-first_match search_fuel (λ pos. pos == p) is (omega arith))
      (first_match-has p xs)

module _ (head : ℕ) (s : Store) (xs : List ℕ) (is : IsList s.mem head xs) where
  -- On a queue `emptyProcQ` tells whether it has no entry, and `headProcQ` gives the first one.
  pub head_proc_q-head_or_null :
      head ≢ null → (empty_proc_q head s ≡ is_nil xs) × (head_proc_q head s ≡ head_or_null xs)
  unfolding head_proc_q
  head_proc_q-head_or_null ne = ground (arith, list_empty-is_nil xs is, is.chain)

  -- `insertProcQ` puts a process that is not in the queue at its end, and changes no field.
  pub insert_proc_q-append :
      (p : ℕ)
      → p ≢ null
      → has p (head ∷ xs) ≡ false
      → IsList (insert_proc_q head p s).mem head (xs ++ p ∷ [])
  unfolding insert_proc_q
  insert_proc_q-append p ne out = rw (==-false p null ne) (list_add_tail-IsList p is out)

  -- `searchInList` ends and returns the pointer that it looks for, or `NULL` if it is not there.
  pub search_in_list-has :
      (l : Layout) (p list : ℕ)
      → head ≡ (if list == null then l.pcb_free_h else list)
      → p ≢ null
      → length xs ≤ max_proc
      → search_in_list l p list s ≡ some (if has p xs then p else null)
  unfolding search_in_list
  search_in_list-has l p list e ne short =
      rw (← e, ==-false p null ne, list_empty-is_nil xs is, search-has p is short) (split xs)
    where
      split :
          (ys : List ℕ)
          → (if is_nil ys then some null else result_of (if has p ys then found p else absent))
            ≡ some (if has p ys then p else null)
      split [] = refl
      split (y ∷ ys) = ground arith

-- What a queue and the store are after `removeProcQ` or `outProcQ`: the queue holds `ys`, and the links of
-- all nodes but those of the queue are as they were.
pub record Leaves (s : Store) (head : ℕ) (xs ys : List ℕ) (t : Store) : Type 0 where
  pub queue : IsList t.mem head ys
  pub same : SameOutside (head ∷ xs) s.mem t.mem

list_del-Leaves :
    (head p : ℕ) (s : Store) (xs : List ℕ)
    → IsList s.mem head xs
    → has p xs ≡ true
    → Leaves s head xs (erase p xs) (on_mem (list_del p) s)
list_del-Leaves head p s xs is i = record {
  queue = list_del-IsList p is i;
  same = list_del-same is p i;
}

-- The one entry of a queue goes, and `removeProcQ` makes the head point to itself once more.
list_del-init-Leaves :
    (head x : ℕ) (s : Store)
    → IsList s.mem head (x ∷ [])
    → Leaves s head (x ∷ []) [] (on_mem (init_list_head head) (on_mem (list_del x) s))
list_del-init-Leaves head x s is = record {
  queue = init_list_head-IsList head (list_del x s.mem);
  same = λ c out. ground (
    arith,
    list_del-same is x (ground arith) c out,
    init_list_head-same head (list_del x s.mem) c (ground arith),
  );
}

pub remove_proc_q-tail :
    (head : ℕ) (s : Store) (xs : List ℕ)
    → IsList s.mem head xs
    → head ≢ null
    → ((remove_proc_q head s).0 ≡ head_or_null xs)
      × Leaves s head xs (tail_of xs) (remove_proc_q head s).1
unfolding remove_proc_q
remove_proc_q-tail head s [] is ne =
    rw (==-false head null ne, list_empty-is_nil [] is)
      (refl, record { queue = is; same = λ c o. (refl, refl) })
remove_proc_q-tail head s (x ∷ []) is ne =
    rw
      (==-false head null ne, list_empty-is_nil (x ∷ []) is, is.chain.0, is.chain.2.0, ==-refl head)
      (refl, list_del-init-Leaves head x s is)
remove_proc_q-tail head s (x ∷ y ∷ ys) is ne =
    let apart : (y == head) ≡ false = ground (arith, is.distinct) in
    rw (==-false head null ne, list_empty-is_nil (x ∷ y ∷ ys) is, is.chain.0, is.chain.2.0, apart)
      (refl, rw (==-refl x) at (list_del-Leaves head x s (x ∷ y ∷ ys) is (ground arith)))

pub out_proc_q-erase :
    (head p : ℕ) (s : Store) (xs : List ℕ)
    → IsList s.mem head xs
    → head ≢ null
    → length xs ≤ max_proc
    → has null xs ≡ false
    → (t : Store) × (out_proc_q head p s ≡ some (if has p xs then p else null, t))
      × Leaves s head xs (erase p xs) t
unfolding out_proc_q
out_proc_q-erase head p s [] is ne short live = (
  s,
  rw (==-false head null ne, list_empty-is_nil [] is),
  record { queue = is; same = λ c o. (refl, refl) },
)
out_proc_q-erase head p s (x ∷ xs) is ne short live = elim (Bool-cases (p == null)) [
  | inl e ↦
      let out : has p (x ∷ xs) ≡ false = ground arith in
      (
        s,
        rw (out, e, ==-false head null ne) (ground arith),
        rw (erase_absent p (x ∷ xs) out) (record { queue = is; same = λ c o. (refl, refl) }),
      )
  | inr e ↦ elim (Bool-cases (x == p)) [
    | inl hit ↦
        let same : p ≡ x = ground arith in
        let (got, left) = remove_proc_q-tail head s (x ∷ xs) is ne in
        (
          (remove_proc_q head s).1,
          rw (e, ==-false head null ne, list_empty-is_nil (x ∷ xs) is, is.chain.0, hit)
              (ground arith),
          rw (same, ==-refl x) left,
        )
    | inr miss ↦ elim (Bool-cases (has p xs)) [
      | inl i ↦ (
        on_mem (list_del p) s,
        rw
            (
              e,
              ==-false head null ne,
              list_empty-is_nil (x ∷ xs) is,
              is.chain.0,
              miss,
              search-has p is short,
              i,
            )
            (ground arith),
        list_del-Leaves head p s (x ∷ xs) is (ground arith),
      )
      | inr o ↦
          let out : has p (x ∷ xs) ≡ false = ground arith in
          (
            s,
            rw
                (
                  e,
                  ==-false head null ne,
                  list_empty-is_nil (x ∷ xs) is,
                  is.chain.0,
                  miss,
                  search-has p is short,
                  o,
                )
                (ground arith),
            rw (erase_absent p (x ∷ xs) out) (record { queue = is; same = λ c k. (refl, refl) }),
          )
    ]
  ]
]
