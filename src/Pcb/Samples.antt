-- ===== src/Pcb/Samples.antt =====
-- A layout and stores for the tests of phase 1.
use progetto_so.Base.{refl, [], ◌∷◌, arith, inl}
use progetto_so.Listx.{Mem, init_list_head, list_add_tail}
use progetto_so.Listx.Chain.{IsList}
use progetto_so.Listx.Insert.{init_list_head-IsList, list_add_tail-IsList}
use progetto_so.Store.{Layout, IsLayout, Store}

abbrev pub blank : Mem
blank = record { next = λ a. 0; prev = λ a. 0 }

abbrev pub layout : Layout
layout = record {
  state_size = 140;
  pcb_table = 10_000;
  pcb_free_h = 100;
  msg_table = 30_000;
  msg_free_h = 200;
}

pub layout-IsLayout : IsLayout layout
layout-IsLayout = record {
  table_live = omega arith;
  head_live = omega arith;
  head_apart = inl (omega arith);
  msg_table_live = omega arith;
  msg_head_live = omega arith;
  msg_head_apart = inl (omega arith);
}

abbrev pub with_mem : Mem → Store
with_mem m = record {
  mem = m;
  p_parent = λ p. 0;
  p_time = λ p. 0;
  p_support = λ p. 0;
  p_entry_hi = λ p. 0;
  p_pid = λ p. 0;
  next_pid = 1;
  m_sender = λ m. 5;
  m_payload = λ m. 0;
  m_string = λ m. 0;
  m_service = λ m. 0;
  m_arg = λ m. 0;
}

-- The store in which the free list of the process blocks is empty.
abbrev pub boot : Store
boot = with_mem (init_list_head 100 blank)

pub boot-IsList : IsList boot.mem 100 []
boot-IsList = init_list_head-IsList 100 blank

-- The queue with head 300 and the entries 10, 20 and 30.
abbrev pub queue : Store
queue =
    with_mem (
      list_add_tail 30 300 (list_add_tail 20 300 (list_add_tail 10 300 (init_list_head 300 blank))))

pub queue-IsList : IsList queue.mem 300 (10 ∷ 20 ∷ 30 ∷ [])
queue-IsList =
    list_add_tail-IsList 30
      (list_add_tail-IsList 20 (list_add_tail-IsList 10 (init_list_head-IsList 300 blank) refl)
        refl)
      refl
