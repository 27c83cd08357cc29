-- ===== src/Kernel/Messages.antt =====
-- The two system calls of phase2/exceptions.c: `SendMessage` and `ReceiveMessage`.
pub mod Send
pub mod Receive
pub mod Leak
use progetto_so.Base.{
  ℕ, ◌+◌, Bool, true, false, ◌&&◌, ◌||◌, not, List, [], ◌∷◌, ◌==◌, if◌then◌else◌, has, erase,
  update,
}
use progetto_so.Listx.{null}
use progetto_so.Msg.Queue.{wanted}
use progetto_so.Kernel.State.{Kernel, sem_dev_len}
use progetto_so.Kernel.Run.{
  Run, Cmd, returns, ◌>>=◌, ◌>>◌, and_then, pure, modify, get, minus_one, minus_two,
}
use progetto_so.Kernel.Queues.{take_msg, free_msg, insert_message}
use progetto_so.Kernel.Scheduler.{block_process, ready_process}

unfoldable pub is_uproc_to_sst : (destination sender : ℕ) → Kernel → Bool
is_uproc_to_sst destination sender k =
    not (k.p_support destination == null)
    && not (k.p_support sender == null)
    && (destination == k.p_parent sender)
    && (k.sup_asid (k.p_support sender) == k.sup_asid (k.p_support destination))

unfoldable pub is_sst_to_uproc : (destination sender : ℕ) → Kernel → Bool
is_sst_to_uproc destination sender k =
    not (k.p_support destination == null)
    && not (k.p_support sender == null)
    && (sender == k.p_parent destination)
    && (k.sup_asid (k.p_support sender) == k.sup_asid (k.p_support destination))

-- What a message carries: a request of two words, one word of the memory, or a pointer.
pub data Kind : Type 0 where
  request value text : Kind

-- The tests of `SendMessage` that choose the payload field.
unfoldable pub kind_of : (destination sender : ℕ) → Kernel → Kind
unfolding is_uproc_to_sst is_sst_to_uproc
kind_of destination sender k =
    if (destination == k.ssi_pcb) || is_uproc_to_sst destination sender k
    then request
    else if (sender == k.ssi_pcb) || is_sst_to_uproc destination sender k
    then value
    else text

-- The payload field of a message of each kind.
unfoldable pub fill_payload : Kind → (m payload : ℕ) → Kernel → Kernel
fill_payload request m payload k = record k {
  m_service = update k.m_service m (k.word payload);
  m_arg = update k.m_arg m (k.word (payload + 4));
}
fill_payload value m payload k = record k { m_payload = update k.m_payload m (k.word payload) }
fill_payload text m payload k = record k { m_string = update k.m_string m payload }

-- The message `m` gets its sender, and its payload in the field that fits sender and destination.
unfoldable pub fill_message : (m destination payload sender : ℕ) → Kernel → Kernel
unfolding kind_of fill_payload
fill_message m destination payload sender k =
    fill_payload (kind_of destination sender k) m payload
      (record k { m_sender = update k.m_sender m sender })

-- The search for the receiver: in the ready queue or running, then in the general blocked list.
unfoldable pub deliver : (m destination : ℕ) → Kernel → ℕ × Kernel
unfolding ready_process
deliver m destination k =
    if (destination == k.current_process) || has destination k.ready_queue
    then (0, insert_message destination m k)
    else if has destination (k.blocked_proc sem_dev_len)
    then (0, insert_message destination m (ready_process destination sem_dev_len k))
    else (minus_one, k)

unfoldable pub send_message : (destination payload sender : ℕ) → Kernel → ℕ × Kernel
send_message destination payload sender k =
    if destination == null then (minus_one, k) else elim k.msg_free [
      | [] ↦ (minus_one, k)
      | m ∷ ms ↦
          let k₁ = take_msg m ms k in
          if has destination k₁.pcb_free
          then (minus_two, k₁)
          else deliver m destination (fill_message m destination payload sender k₁)
    ]

-- The part of `ReceiveMessage` that stores the payload of `m` where the receiver wants it.
unfoldable pub store_payload : (m payload : ℕ) → Kernel → Kernel
store_payload m payload k =
    if payload == null
    then k
    else if not (k.m_service m == minus_one)
    then record k {
      word = update (update k.word payload (k.m_service m)) (payload + 4) (k.m_arg m);
    }
    else if not (k.m_string m == null)
    then record k { word = update k.word payload (k.m_string m) }
    else record k { word = update k.word payload (k.m_payload m) }

-- `popMessage(&current_process->msg_inbox, …)` takes `m` out of the inbox.
abbrev pub pop_inbox : (m : ℕ) → Kernel → Kernel
pop_inbox m k = record k {
  msg_inbox = update k.msg_inbox k.current_process (erase m (k.msg_inbox k.current_process));
}

-- The rest of `ReceiveMessage`, once a message is there.
unfoldable pub take_message : (m payload : ℕ) → Kernel → ℕ × Kernel
unfolding store_payload
take_message m payload k = let k₁ = store_payload m payload k in (k₁.m_sender m, free_msg m k₁)

-- The code after the wait, with the message `m`.
abbrev pub going_on : (payload m : ℕ) → Cmd ℕ
going_on payload m k = let (got, t) = take_message m payload k in returns got t

-- Without a message the process is blocked and the processor handed over. Where the scheduler returns, because no
-- process is left, the code goes on with the pointer NULL.
unfoldable pub receive_message : (tod : ℕ → ℕ) → (sender payload : ℕ) → Cmd ℕ
unfolding take_message block_process
receive_message tod sender payload k =
    let m = wanted k.m_sender sender (k.msg_inbox k.current_process) in
    let found = going_on payload m (pop_inbox m k) in
    if m == null
    then and_then (block_process tod k.proc_state sem_dev_len k) (λ _. going_on payload null)
    else found
