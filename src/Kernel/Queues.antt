-- ===== src/Kernel/Queues.antt =====
-- The functions of phase1/pcb.c and phase1/msg.c on the contents of the nucleus's queues.
use progetto_so.Base.{ℕ, List, [], ◌∷◌, ◌++◌, ◌==◌, if◌then◌else◌, erase, update}
use progetto_so.Listx.{null}
use progetto_so.Kernel.State.{Kernel}
use progetto_so.Kernel.Run.{minus_one}

-- `insertProcQ(&ready_queue, p)`
abbrev pub insert_ready : ℕ → Kernel → Kernel
insert_ready p k = record k {
  ready_queue = if p == null then k.ready_queue else k.ready_queue ++ p ∷ [];
}

-- `insertProcQ(&blocked_proc[index], p)`
abbrev pub insert_blocked : (index p : ℕ) → Kernel → Kernel
insert_blocked index p k = record k {
  blocked_proc =
      update k.blocked_proc index
        (if p == null then k.blocked_proc index else k.blocked_proc index ++ p ∷ []);
}

-- `outProcQ(&ready_queue, p)`, its result left aside: it is `p` if `p` is in the queue.
abbrev pub out_ready : ℕ → Kernel → Kernel
out_ready p k = record k { ready_queue = erase p k.ready_queue }

-- `outProcQ(&blocked_proc[index], p)`
abbrev pub out_blocked : (index p : ℕ) → Kernel → Kernel
out_blocked index p k = record k {
  blocked_proc = update k.blocked_proc index (erase p (k.blocked_proc index));
}

-- `list_del(&p->p_sib); p->p_parent = NULL;` where `p` has a parent: the body of `outChild`.
abbrev pub out_child : ℕ → Kernel → Kernel
out_child p k = if k.p_parent p == null then k else record k {
  p_child = update k.p_child (k.p_parent p) (erase p (k.p_child (k.p_parent p)));
  p_parent = update k.p_parent p null;
}

-- What `removeChild(p)` leaves, where `c` is the first child of `p` and `cs` are the others.
abbrev pub remove_child : (p c : ℕ) → List ℕ → Kernel → Kernel
remove_child p c cs k = record k {
  p_child = update k.p_child p cs;
  p_parent = update k.p_parent c null;
}

-- `freePcb(p)` and `freeMsg(m)`
abbrev pub free_pcb : ℕ → Kernel → Kernel
free_pcb p k = record k { pcb_free = if p == null then k.pcb_free else p ∷ k.pcb_free }

abbrev pub free_msg : ℕ → Kernel → Kernel
free_msg m k = record k { msg_free = if m == null then k.msg_free else m ∷ k.msg_free }

-- What `allocMsg()` leaves, where `m` is the first free message and `ms` are the others.
abbrev pub take_msg : (m : ℕ) → List ℕ → Kernel → Kernel
take_msg m ms k = record k {
  msg_free = ms;
  m_payload = update k.m_payload m 0;
  m_sender = update k.m_sender m null;
  m_service = update k.m_service m minus_one;
  m_arg = update k.m_arg m null;
  m_string = update k.m_string m null;
}

-- `insertMessage(&p->msg_inbox, m)`
abbrev pub insert_message : (p m : ℕ) → Kernel → Kernel
insert_message p m k = record k { msg_inbox = update k.msg_inbox p (k.msg_inbox p ++ m ∷ []) }
