-- ===== src/Msg/Pool.antt =====
-- The free list of phase1/msg.c: `initMsgs`, `allocMsg` and `freeMsg`.
use progetto_so.Base.{
  ℕ, zero, suc, ◌+◌, ◌*◌, ◌≤◌, ◌<◌, ◌≡◌, ◌≢◌, refl, inl, inr, false, List, [], ◌∷◌, has, arith,
  ==-refl, ==-false,
}
use progetto_so.Listx.{null, init_list_head}
use progetto_so.Listx.Chain.{IsList}
use progetto_so.Listx.Insert.{init_list_head-IsList, list_add-IsList}
use progetto_so.Listx.Delete.{list_del-IsList}
use progetto_so.Listx.Scan.{list_empty-is_nil}
use progetto_so.Pcb.{on_mem}
use progetto_so.Pcb.Pool.{init_list_head-keeps}
use progetto_so.Store.{
  Layout, IsLayout, Store, max_proc, max_messages, msg_size, msg_entries, minus_one,
}
use progetto_so.Msg.{reset_msg, init_msgs_from, init_msgs, free_msg, alloc_msg}

entries-later :
    (l : Layout) (i j : ℕ) → j ≤ i → has (l.msg_table + i * msg_size) (msg_entries l j) ≡ false
entries-later l i zero h = refl
entries-later l i (suc j) h =
    let apart : l.msg_table + i * msg_size ≢ l.msg_table + j * msg_size = omega arith in
    rw (==-false _ _ apart) (entries-later l i j (omega arith))

-- A message as `allocMsg` hands it out: nothing left of the last one that it carried.
pub record IsClear (m : ℕ) (t : Store) : Type 0 where
  pub m_sender : t.m_sender m ≡ null
  pub m_payload : t.m_payload m ≡ 0
  pub m_string : t.m_string m ≡ null
  pub m_service : t.m_service m ≡ minus_one
  pub m_arg : t.m_arg m ≡ null

-- What `allocMsg` does on a free list.
abbrev pub Allocates : Layout → Store → List ℕ → ℕ × Store → Type 0
Allocates l s [] (m, t) = (m ≡ null) × (t ≡ s)
Allocates l s (x ∷ xs) (m, t) = (m ≡ x) × IsList t.mem l.msg_free_h xs × IsClear x t

module _ (l : Layout) (ok : IsLayout l) where
  head_ne : (i : ℕ) → i < max_messages → l.msg_table + i * msg_size ≢ l.msg_free_h
  head_ne i below e = elim ok.msg_head_apart [ inl h ↦ omega arith | inr h ↦ omega arith ]

  init_msgs_from-IsList :
      (rounds i : ℕ) (s : Store)
      → rounds + i ≤ max_messages
      → IsList s.mem l.msg_free_h (msg_entries l i)
      → IsList (init_msgs_from l rounds i s).mem l.msg_free_h (msg_entries l (rounds + i))
  unfolding init_msgs_from
  init_msgs_from-IsList zero i s h is = let e : 0 + i ≡ i = omega arith in rw e is
  init_msgs_from-IsList (suc rounds) i s h is =
      let e : suc rounds + i ≡ rounds + (i + 1) = omega arith in
      let e' : i + 1 ≡ suc i = omega arith in
      let apart = head_ne i (omega arith) in
      rw e (
        init_msgs_from-IsList rounds (i + 1) _ (omega arith) (
          rw e'
            (list_add-IsList _ is (rw (==-false _ _ apart) (entries-later l i i (omega arith))))))

  -- `initMsgs` makes a free list of every entry of `msgTable`, the last entry first, though the bound of
  -- its loop is `MAXPROC`.
  pub init_msgs-entries :
      (s : Store) → IsList (init_msgs l s).mem l.msg_free_h (msg_entries l max_messages)
  unfolding init_msgs
  init_msgs-entries s =
      init_msgs_from-IsList max_proc 0 (on_mem (init_list_head l.msg_free_h) s) (omega arith)
        (init_list_head-IsList l.msg_free_h s.mem)

  -- `allocMsg` returns `NULL` and changes nothing if no message is free. Otherwise it returns the first free
  -- message, takes it out of the list, and gives every field its initial value.
  pub alloc_msg-Allocates :
      (s : Store) (xs : List ℕ) → IsList s.mem l.msg_free_h xs → Allocates l s xs (alloc_msg l s)
  unfolding alloc_msg reset_msg
  alloc_msg-Allocates s [] is = rw (list_empty-is_nil [] is) (refl, refl)
  alloc_msg-Allocates s (x ∷ xs) is =
      rw (list_empty-is_nil (x ∷ xs) is, is.chain.0)
        (
          refl,
          init_list_head-keeps x _ l.msg_free_h xs (ground (arith, is.distinct))
              (rw (==-refl x) at (list_del-IsList x is (ground arith))),
          ground arith,
        )

  -- The message that `freeMsg` gives back is the next one that `allocMsg` hands out, and the free list is
  -- then what it was before both.
  pub alloc_msg-free_msg :
      (s : Store) (xs : List ℕ) (m : ℕ)
      → IsList s.mem l.msg_free_h xs
      → m ≢ null
      → has m (l.msg_free_h ∷ xs) ≡ false
      → ((alloc_msg l (free_msg l m s)).0 ≡ m)
        × IsList (alloc_msg l (free_msg l m s)).1.mem l.msg_free_h xs
  unfolding free_msg
  alloc_msg-free_msg s xs m is mn out =
      let (got, rest, _) =
        alloc_msg-Allocates (free_msg l m s) (m ∷ xs)
          (rw (==-false m null mn) (list_add-IsList m is out)) in
      (got, rest)
