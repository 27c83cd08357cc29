-- ===== src/Pcb/Tests.antt =====
-- Runs of phase1/pcb.c, and the theorems at concrete stores.
use progetto_so.Base.{◌≡◌, refl, some, [], ◌∷◌, arith}
use progetto_so.Listx.{init_list_head, list_add, list_add_tail, list_del, list_empty}
use progetto_so.Listx.Chain.{IsList}
use progetto_so.Listx.Insert
use progetto_so.Store.{Store, IsPcb}
use progetto_so.Pcb.{
  init_pcbs, alloc_pcb, free_pcb, insert_proc_q, remove_proc_q, search_in_list, insert_child,
  out_child,
}
use progetto_so.Pcb.Queue.{insert_proc_q-append, search_in_list-has}
use progetto_so.Pcb.Pool.{alloc_pcb-free_pcb}
use progetto_so.Pcb.Tree.{HasChildren, insert_child-append, out_child-erase}
use progetto_so.Pcb.Samples.{
  blank, layout, layout-IsLayout, with_mem, boot, boot-IsList, queue, queue-IsList,
}

-- The first block handed out is the last of the table, and its identifier is 1.
first_block : (alloc_pcb layout (init_pcbs layout boot)).0 ≡ 17_332
unfolding init_list_head list_add list_del list_empty init_pcbs alloc_pcb
first_block = refl

served_in_order : (remove_proc_q 300 (remove_proc_q 300 queue).1).0 ≡ 20
unfolding init_list_head list_add_tail list_del list_empty remove_proc_q
served_in_order = refl

-- A free list that holds the third block of the table.
abbrev one_free : Store
one_free = with_mem (list_add_tail 10_376 100 (init_list_head 100 blank))

one_free-IsList : IsList one_free.mem 100 (10_376 ∷ [])
one_free-IsList = Insert.list_add_tail-IsList 10_376 boot-IsList refl

third-IsPcb : IsPcb layout 10_376
third-IsPcb = record { index = 2; below = omega arith; place = refl }

fourth-IsPcb : IsPcb layout 10_564
fourth-IsPcb = record { index = 3; below = omega arith; place = refl }

alloc_pcb-free_pcb_example :
    ((alloc_pcb layout (free_pcb layout 10_564 one_free)).0 ≡ 10_564)
    × IsList (alloc_pcb layout (free_pcb layout 10_564 one_free)).1.mem 100 (10_376 ∷ [])
alloc_pcb-free_pcb_example =
    alloc_pcb-free_pcb layout layout-IsLayout one_free (10_376 ∷ []) 10_564 one_free-IsList
      (third-IsPcb, tt) fourth-IsPcb refl

insert_proc_q-append_example : IsList (insert_proc_q 300 40 queue).mem 300 (10 ∷ 20 ∷ 30 ∷ 40 ∷ [])
insert_proc_q-append_example =
    insert_proc_q-append 300 queue (10 ∷ 20 ∷ 30 ∷ []) queue-IsList 40 (omega arith) refl

search_in_list-has_example : search_in_list layout 20 300 queue ≡ some 20
search_in_list-has_example =
    search_in_list-has 300 queue (10 ∷ 20 ∷ 30 ∷ []) queue-IsList layout 20 300 refl (omega arith)
      (omega arith)

-- Process 1000 and its children 2000 and 3000.
abbrev family : Store
family = insert_child 1000 3000 (insert_child 1000 2000 (with_mem (init_list_head 1012 blank)))

childless : HasChildren (with_mem (init_list_head 1012 blank)) 1000 []
childless = record {
  list = Insert.init_list_head-IsList 1012 blank;
  parent = λ c i. absurd (ground arith);
}

family-HasChildren : HasChildren family 1000 (2000 ∷ 3000 ∷ [])
family-HasChildren =
    insert_child-append (insert_child-append childless 2000 (omega arith) (omega arith) refl) 3000
      (omega arith) (omega arith) refl

out_child-erase_example :
    ((out_child 3000 family).0 ≡ 3000)
    × ((out_child 3000 family).1.p_parent 3000 ≡ 0)
    × HasChildren (out_child 3000 family).1 1000 (2000 ∷ [])
out_child-erase_example = out_child-erase family-HasChildren 3000 refl (omega arith) (omega arith)
