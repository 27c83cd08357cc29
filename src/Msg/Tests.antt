-- ===== src/Msg/Tests.antt =====
-- Runs of phase1/msg.c, and the theorems at concrete stores.
use progetto_so.Base.{◌≡◌, refl, [], ◌∷◌, arith, update}
use progetto_so.Listx.{init_list_head, list_add, list_add_tail, list_del, list_empty}
use progetto_so.Listx.Chain.{IsList}
use progetto_so.Listx.Insert
use progetto_so.Store.{Store, msg_entries}
use progetto_so.Pcb.Samples.{blank, layout, layout-IsLayout, with_mem, boot, queue, queue-IsList}
use progetto_so.Msg.{init_msgs, alloc_msg, free_msg, insert_message, push_message, pop_message}
use progetto_so.Msg.Queue.{Pops, insert_message-append, pop_message-wanted}
use progetto_so.Msg.Pool.{init_msgs-entries, alloc_msg-free_msg}

-- The queue of `Pcb.Samples` as an inbox: its second message is from process 7.
abbrev inbox : Store
inbox = record queue { m_sender = update queue.m_sender 20 7 }

first_message : (alloc_msg layout (init_msgs layout boot)).0 ≡ 31_092
unfolding init_list_head list_add list_del list_empty init_msgs alloc_msg
first_message = refl

init_msgs-entries_example : IsList (init_msgs layout boot).mem 200 (msg_entries layout 40)
init_msgs-entries_example = init_msgs-entries layout layout-IsLayout boot

-- A free list of one message.
abbrev one_free : Store
one_free = with_mem (list_add_tail 30_056 200 (init_list_head 200 blank))

one_free-IsList : IsList one_free.mem 200 (30_056 ∷ [])
one_free-IsList = Insert.list_add_tail-IsList 30_056 (Insert.init_list_head-IsList 200 blank) refl

alloc_msg-free_msg_example :
    ((alloc_msg layout (free_msg layout 30_028 one_free)).0 ≡ 30_028)
    × IsList (alloc_msg layout (free_msg layout 30_028 one_free)).1.mem 200 (30_056 ∷ [])
alloc_msg-free_msg_example =
    alloc_msg-free_msg layout layout-IsLayout one_free (30_056 ∷ []) 30_028 one_free-IsList
      (omega arith) refl

insert_message-append_example :
    IsList (insert_message 300 40 queue).mem 300 (10 ∷ 20 ∷ 30 ∷ 40 ∷ [])
    × IsList (push_message 300 40 queue).mem 300 (40 ∷ 10 ∷ 20 ∷ 30 ∷ [])
insert_message-append_example =
    insert_message-append 300 queue (10 ∷ 20 ∷ 30 ∷ []) queue-IsList (omega arith) 40 (omega arith)
      refl

-- The message of process 7 is taken from behind another one.
pop_message-wanted_example : Pops 300 inbox (10 ∷ 20 ∷ 30 ∷ []) 20 (pop_message 300 7 inbox)
pop_message-wanted_example =
    pop_message-wanted 300 7 inbox (10 ∷ 20 ∷ 30 ∷ []) queue-IsList (omega arith) (omega arith) refl
