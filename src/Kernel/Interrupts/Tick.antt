-- ===== src/Kernel/Interrupts/Tick.antt =====
-- One process of the pseudo-clock's list in `ITHandler` of phase2/interrupts.c.
use progetto_so.Base.{
  ℕ, ◌==◌, ◌||◌, ◌≡◌, ◌≢◌, refl, sym, subst, ap, ◌∙◌, inl, inr, false, true, List, [], ◌∷◌, ◌++◌,
  has, erase, update, arith, Bool-cases, ==-false, has-append,
}
use progetto_so.Listx.{null}
use progetto_so.Kernel.State.{Kernel, sem_dev_len, clock_list}
use progetto_so.Kernel.Run.{sub_word}
use progetto_so.Kernel.Queues.{take_msg, insert_blocked}
use progetto_so.Kernel.Scheduler.{ready_process}
use progetto_so.Kernel.Messages.{Kind, request, fill_payload, fill_message, deliver, send_message}
use progetto_so.Kernel.Messages.Send.{send_message-Delivered, IsWoken}
use progetto_so.Kernel.Interrupts.{tick}

-- What no system call of a sender touches.
pub record IsKept (k t : Kernel) : Type 0 where
  pub pcb_free : t.pcb_free ≡ k.pcb_free
  pub soft_block_count : t.soft_block_count ≡ k.soft_block_count
  pub ssi_pcb : t.ssi_pcb ≡ k.ssi_pcb
  pub proc_state : t.proc_state ≡ k.proc_state

fill_payload-IsKept :
    (kind : Kind) (m payload : ℕ) (k : Kernel) → IsKept k (fill_payload kind m payload k)
unfolding fill_payload
fill_payload-IsKept request m payload k = record {
  pcb_free = refl;
  soft_block_count = refl;
  ssi_pcb = refl;
  proc_state = refl;
}
fill_payload-IsKept _ m payload k = record {
  pcb_free = refl;
  soft_block_count = refl;
  ssi_pcb = refl;
  proc_state = refl;
}

deliver-IsKept : (m p : ℕ) (k : Kernel) → IsKept k (deliver m p k).1
unfolding deliver ready_process
deliver-IsKept m p k = record {
  pcb_free = ground arith;
  soft_block_count = ground arith;
  ssi_pcb = ground arith;
  proc_state = ground arith;
}

IsKept-trans : {k t u : Kernel} → IsKept k t → IsKept t u → IsKept k u
IsKept-trans a b = record {
  pcb_free = b.pcb_free ∙ a.pcb_free;
  soft_block_count = b.soft_block_count ∙ a.soft_block_count;
  ssi_pcb = b.ssi_pcb ∙ a.ssi_pcb;
  proc_state = b.proc_state ∙ a.proc_state;
}

IsKept-refl : (k : Kernel) → IsKept k k
IsKept-refl k = record {
  pcb_free = refl;
  soft_block_count = refl;
  ssi_pcb = refl;
  proc_state = refl;
}

take_msg-IsKept : (m : ℕ) (ms : List ℕ) (k : Kernel) → IsKept k (take_msg m ms k)
take_msg-IsKept m ms k = record {
  pcb_free = refl;
  soft_block_count = refl;
  ssi_pcb = refl;
  proc_state = refl;
}

fill_message-IsKept :
    (m p payload sender : ℕ) (k : Kernel) → IsKept k (fill_message m p payload sender k)
unfolding fill_message
fill_message-IsKept m p payload sender k =
    let u = record k { m_sender = update k.m_sender m sender } in
    let named : IsKept k u = record {
      pcb_free = refl;
      soft_block_count = refl;
      ssi_pcb = refl;
      proc_state = refl;
    } in
    IsKept-trans named (fill_payload-IsKept _ m payload u)

pub send_message-IsKept :
    (p payload sender : ℕ) (k : Kernel) (m : ℕ) (ms : List ℕ)
    → p ≢ null
    → k.msg_free ≡ m ∷ ms
    → has p k.pcb_free ≡ false
    → IsKept k (send_message p payload sender k).1
unfolding send_message
send_message-IsKept p payload sender k m ms live free alive =
    let way : send_message p payload sender k
        ≡ deliver m p (fill_message m p payload sender (take_msg m ms k)) =
      rw (==-false p null live, free, alive) refl in
    subst (λ r. IsKept k r.1) (sym way)
      (IsKept-trans (take_msg-IsKept m ms k) (
        IsKept-trans (fill_message-IsKept m p payload sender (take_msg m ms k))
          (deliver-IsKept m p (fill_message m p payload sender (take_msg m ms k)))))

erase-snoc : (p : ℕ) (xs : List ℕ) → has p xs ≡ false → erase p (xs ++ p ∷ []) ≡ xs
erase-snoc p [] h = ground arith
erase-snoc p (x ∷ xs) h = ground (arith, erase-snoc p xs)

-- A process that waits for the clock, and for nothing else.
pub record IsWaiting (p : ℕ) (k : Kernel) : Type 0 where
  pub live : p ≢ null
  pub alive : has p k.pcb_free ≡ false
  pub not_near : ((p == k.current_process) || has p k.ready_queue) ≡ false
  pub not_blocked : has p (k.blocked_proc sem_dev_len) ≡ false

-- One process is woken with a message of the service interface.
pub record Ticked (p m : ℕ) (ps ms : List ℕ) (k t : Kernel) : Type 0 where
  pub ready : t.ready_queue ≡ k.ready_queue ++ p ∷ []
  pub clock : t.blocked_proc clock_list ≡ ps
  pub others : (i : ℕ) → i ≢ clock_list → t.blocked_proc i ≡ k.blocked_proc i
  pub inbox : t.msg_inbox p ≡ k.msg_inbox p ++ m ∷ []
  pub inboxes : (q : ℕ) → q ≢ p → t.msg_inbox q ≡ k.msg_inbox q
  pub msg_free : t.msg_free ≡ ms
  pub current : t.current_process ≡ k.current_process
  pub pcb_free : t.pcb_free ≡ k.pcb_free
  pub soft : t.soft_block_count ≡ sub_word k.soft_block_count 1
  pub proc_state : t.proc_state ≡ k.proc_state

-- The queues after the message: only the last case of `IsWoken` can be.
record IsMoved (p : ℕ) (ps : List ℕ) (k t : Kernel) : Type 0 where
  pub ready : t.ready_queue ≡ k.ready_queue ++ p ∷ []
  pub clock : t.blocked_proc clock_list ≡ ps
  pub others : (i : ℕ) → i ≢ clock_list → t.blocked_proc i ≡ k.blocked_proc i

abbrev waiting_lists : (p : ℕ) → List ℕ → Kernel → ℕ → List ℕ
waiting_lists p ps k =
    update (update k.blocked_proc clock_list ps) sem_dev_len (k.blocked_proc sem_dev_len ++ p ∷ [])

other_list :
    (p : ℕ) (ps : List ℕ) (k : Kernel) (i : ℕ)
    → has p (k.blocked_proc sem_dev_len) ≡ false
    → i ≢ clock_list
    → update (waiting_lists p ps k) sem_dev_len (erase p (waiting_lists p ps k sem_dev_len)) i
      ≡ k.blocked_proc i
other_list p ps k i absent other = elim (Bool-cases (i == sem_dev_len)) [
  | inl here ↦
      let same : i ≡ sem_dev_len = ground arith in
      rw same (erase-snoc p (k.blocked_proc sem_dev_len) absent)
  | inr away ↦ rw (away, ==-false i clock_list other) refl
]

IsWoken-IsMoved :
    (p : ℕ) (ps : List ℕ) (k t : Kernel)
    → IsWaiting p k
    → IsWoken p k.current_process k.ready_queue (waiting_lists p ps k) t
    → IsMoved p ps k t
IsWoken-IsMoved p ps k t w (inl (near, r, b)) = absurd (ground (arith, w.not_near))
IsWoken-IsMoved p ps k t w (inr (far, r, b)) = record {
  ready = r;
  clock = ap (λ f. f clock_list) b;
  others = λ i h. ap (λ f. f i) b ∙ other_list p ps k i w.not_blocked h;
}

pub tick-Ticked :
    (p m : ℕ) (ps ms : List ℕ) (k : Kernel)
    → IsWaiting p k
    → k.msg_free ≡ m ∷ ms
    → Ticked p m ps ms k (tick p ps k)
unfolding tick
tick-Ticked p m ps ms k w free =
    let moved : Kernel = record k { blocked_proc = waiting_lists p ps k } in
    let way : insert_blocked sem_dev_len p
          (record k { blocked_proc = update k.blocked_proc clock_list ps })
        ≡ moved =
      rw (==-false p null w.live) refl in
    let there : has p (moved.blocked_proc sem_dev_len) ≡ true =
      ground (arith, has-append p (k.blocked_proc sem_dev_len) (p ∷ [])) in
    let d =
      (send_message-Delivered p null k.ssi_pcb moved m ms w.live free w.alive
        (inr (inr there))).1 in
    let kept = send_message-IsKept p null k.ssi_pcb moved m ms w.live free w.alive in
    let queues = IsWoken-IsMoved p ps k (send_message p null k.ssi_pcb moved).1 w d.woken in
    rw way record {
      ready = queues.ready;
      clock = queues.clock;
      others = queues.others;
      inbox = d.inbox;
      inboxes = d.others;
      msg_free = d.msg_free;
      current = d.running;
      pcb_free = kept.pcb_free;
      soft = ap (λ n. sub_word n 1) kept.soft_block_count;
      proc_state = kept.proc_state;
    }
