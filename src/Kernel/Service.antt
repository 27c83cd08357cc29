-- ===== src/Kernel/Service.antt =====
-- A request from a process to the service interface and back: what the nucleus's parts do together when a process
-- calls SendMessage and ReceiveMessage, and `SSI_server` of phase2/ssi.c runs between them.
pub mod Stages
pub mod Reception
pub mod Answer
pub mod Reply
pub mod Creation
use progetto_so.Base.{ℕ, ◌≡◌, ◌≢◌, false, List, has}
use progetto_so.Listx.{null}
use progetto_so.Kernel.State.{Kernel, sem_dev_len}

-- What matters of a state: who runs, who is ready and who waits for messages, the inboxes of the client and of the
-- service interface, the free messages, the memory, and the contents of one message.
pub record Shape : Type 0 where
  pub current : ℕ
  pub ready : List ℕ
  pub waiting : List ℕ
  pub client_inbox : List ℕ
  pub ssi_inbox : List ℕ
  pub free : List ℕ
  pub word : ℕ → ℕ
  pub sender : ℕ
  pub payload : ℕ
  pub string : ℕ
  pub service : ℕ
  pub arg : ℕ

-- The state `t` has this shape, for the client `c`, the service interface `s` and the message `m`, and agrees with
-- `k` where none of the parts writes.
pub record Shows (c s m : ℕ) (k : Kernel) (z : Shape) (t : Kernel) : Type 0 where
  pub current : t.current_process ≡ z.current
  pub ready : t.ready_queue ≡ z.ready
  pub waiting : t.blocked_proc sem_dev_len ≡ z.waiting
  pub client_inbox : t.msg_inbox c ≡ z.client_inbox
  pub ssi_inbox : t.msg_inbox s ≡ z.ssi_inbox
  pub free : t.msg_free ≡ z.free
  pub word : t.word ≡ z.word
  pub sender : t.m_sender m ≡ z.sender
  pub payload : t.m_payload m ≡ z.payload
  pub string : t.m_string m ≡ z.string
  pub service : t.m_service m ≡ z.service
  pub arg : t.m_arg m ≡ z.arg
  pub ssi : t.ssi_pcb ≡ k.ssi_pcb
  pub pcb_free : t.pcb_free ≡ k.pcb_free
  pub p_support : t.p_support ≡ k.p_support
  pub p_pid : t.p_pid ≡ k.p_pid
  pub p_parent : t.p_parent ≡ k.p_parent

-- The client and the service interface are two processes in use, the message is one, and the service interface has
-- no support structure.
pub record AreActors (c s m : ℕ) (k : Kernel) : Type 0 where
  pub client_live : c ≢ null
  pub ssi_live : s ≢ null
  pub message_live : m ≢ null
  pub apart : c ≢ s
  pub is_ssi : k.ssi_pcb ≡ s
  pub client_alive : has c k.pcb_free ≡ false
  pub ssi_alive : has s k.pcb_free ≡ false
  pub plain : k.p_support s ≡ null
