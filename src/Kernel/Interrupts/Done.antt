-- ===== src/Kernel/Interrupts/Done.antt =====
-- From `DOIO_service` of phase2/ssi.c to `devInterruptReturn` of phase2/interrupts.c: how the status of a device
-- reaches the process that asked.
use progetto_so.Base.{
  ℕ, ◌<◌, ◌≡◌, ◌≢◌, refl, sym, ap, ◌∙◌, subst, inl, inr, true, false, List, [], ◌∷◌, ◌++◌, ◌==◌,
  has, update, arith, Bool-cases, ==-false, ==-refl,
}
use progetto_so.Listx.{null}
use progetto_so.Kernel.State.{Kernel, sem_dev_len, word_mod}
use progetto_so.Kernel.Run.{sub_word}
use progetto_so.Kernel.Queues.{take_msg, insert_blocked}
use progetto_so.Kernel.Scheduler.{ready_process}
use progetto_so.Kernel.Devices.{get_io_device_index}
use progetto_so.Kernel.Messages.{
  value, kind_of, is_uproc_to_sst, fill_payload, fill_message, deliver, send_message,
}
use progetto_so.Kernel.Messages.Send.{send_message-Delivered, IsWoken, has-snoc}
use progetto_so.Kernel.Services.{doio_service}
use progetto_so.Kernel.Interrupts.{Machine, device_done, dev_interrupt_return}
use progetto_so.Kernel.Interrupts.Tick.{send_message-IsKept}

deliver-m_payload : (m p : ℕ) (k : Kernel) → (deliver m p k).1.m_payload ≡ k.m_payload
unfolding deliver ready_process
deliver-m_payload m p k = ground arith

kind_of-value :
    (p : ℕ) (k : Kernel)
    → p ≢ k.ssi_pcb
    → k.p_support k.ssi_pcb ≡ null
    → kind_of p k.ssi_pcb k ≡ value
unfolding kind_of is_uproc_to_sst
kind_of-value p k other plain = elim (Bool-cases (k.p_support p == null)) [
  | inl bare ↦ rw (==-false p k.ssi_pcb other, bare, ==-refl k.ssi_pcb) refl
  | inr own ↦ rw (==-false p k.ssi_pcb other, own, plain, ==-refl k.ssi_pcb) refl
]

fill_message-m_payload :
    (m p payload sender : ℕ) (k : Kernel)
    → kind_of p sender (record k { m_sender = update k.m_sender m sender }) ≡ value
    → (fill_message m p payload sender k).m_payload m ≡ k.word payload
unfolding fill_message fill_payload
fill_message-m_payload m p payload sender k kind = rw (kind, ==-refl m) refl

-- A message of the service interface carries the word at the pointer.
send_message-m_payload :
    (p payload m : ℕ) (ms : List ℕ) (k : Kernel)
    → p ≢ null
    → p ≢ k.ssi_pcb
    → k.p_support k.ssi_pcb ≡ null
    → k.msg_free ≡ m ∷ ms
    → has p k.pcb_free ≡ false
    → (send_message p payload k.ssi_pcb k).1.m_payload m ≡ k.word payload
unfolding send_message
send_message-m_payload p payload m ms k live other plain free alive =
    let u = take_msg m ms k in
    let f = fill_message m p payload k.ssi_pcb u in
    let named = record u { m_sender = update u.m_sender m k.ssi_pcb } in
    let way : send_message p payload k.ssi_pcb k ≡ deliver m p f =
      rw (==-false p null live, free, alive) refl in
    ap (λ r. r.1.m_payload m) way
    ∙ ap (λ g. g m) (deliver-m_payload m p f)
    ∙ fill_message-m_payload m p payload k.ssi_pcb u (kind_of-value p named other plain)

-- The process `p` is told that its device is done: it is ready, with a message of the service interface that carries
-- the status, the others stay in the list, and as many as `soft` are left blocked.
pub record Done (i p m status soft : ℕ) (ps : List ℕ) (k t : Kernel) : Type 0 where
  pub inbox : t.msg_inbox p ≡ k.msg_inbox p ++ m ∷ []
  pub payload : t.m_payload m ≡ status
  pub m_sender : t.m_sender m ≡ k.ssi_pcb
  pub ready : has p t.ready_queue ≡ true
  pub waits : t.blocked_proc i ≡ ps
  pub count : t.soft_block_count ≡ soft
  pub v0 : (t.p_s p).reg_v0 ≡ status

-- A process that can be told: it neither runs nor is the service interface, and its block is in use.
pub record IsClient (p : ℕ) (k : Kernel) : Type 0 where
  pub live : p ≢ null
  pub resting : p ≢ k.current_process
  pub other : p ≢ k.ssi_pcb
  pub plain : k.p_support k.ssi_pcb ≡ null
  pub alive : has p k.pcb_free ≡ false

still :
    (i p current : ℕ) (ready ps : List ℕ) (blocked : ℕ → List ℕ) (t : Kernel)
    → i < sem_dev_len
    → blocked i ≡ ps
    → IsWoken p current ready blocked t
    → t.blocked_proc i ≡ ps
still i p current ready ps blocked t b e w = elim w [
  | inl (near, r, s) ↦ rw s e
  | inr (far, r, s) ↦ rw (s, ==-false i sem_dev_len (λ f. omega (arith, f, b))) e
]

device_done-Done :
    (h : Machine) (i p m status : ℕ) (ps ms : List ℕ) (k : Kernel)
    → i < sem_dev_len
    → IsClient p k
    → k.msg_free ≡ m ∷ ms
    → k.blocked_proc i ≡ ps
    → Done i p m status (sub_word k.soft_block_count 1) ps k (device_done h p status k)
unfolding device_done
device_done-Done h i p m status ps ms k b c free waits =
    let moved = insert_blocked sem_dev_len p k in
    let told = record moved {
      soft_block_count = sub_word moved.soft_block_count 1;
      word = update moved.word h.status_code_at status;
    } in
    let there : has p (told.blocked_proc sem_dev_len) ≡ true =
      rw (==-false p null c.live) (has-snoc p (k.blocked_proc sem_dev_len)) in
    let (code, d) =
      send_message-Delivered p h.status_code_at k.ssi_pcb told m ms c.live free c.alive
        (inr (inr there)) in
    let kept = send_message-IsKept p h.status_code_at k.ssi_pcb told m ms c.live free c.alive in
    let apart : told.blocked_proc i ≡ ps =
      rw (==-false i sem_dev_len (λ f. omega (arith, f, b))) waits in
    record {
      inbox = d.inbox;
      payload =
          send_message-m_payload p h.status_code_at m ms told c.live c.other c.plain free c.alive
          ∙ rw (==-refl h.status_code_at) refl;
      m_sender = d.m_sender;
      ready = elim d.awake [ inl runs ↦ absurd (c.resting (runs ∙ d.running)) | inr r ↦ r ];
      waits =
          still i p told.current_process told.ready_queue ps told.blocked_proc
            (send_message p h.status_code_at k.ssi_pcb told).1 b apart d.woken;
      count = kept.soft_block_count;
      v0 = rw (==-refl p) refl;
    }

dev_interrupt_return-device_done :
    (h : Machine) (status command p : ℕ) (ps : List ℕ) (k : Kernel)
    → k.blocked_proc (get_io_device_index h.dev_reg_start h.dev_reg_size command) ≡ p ∷ ps
    → dev_interrupt_return h status command k
      ≡ device_done h p status (record k {
        word = update k.word command h.ack;
        blocked_proc =
            update k.blocked_proc (get_io_device_index h.dev_reg_start h.dev_reg_size command) ps;
      })
unfolding dev_interrupt_return
dev_interrupt_return-device_done h status command p ps k e = simp (e, dev_interrupt_return) refl

doio_service-blocked :
    (start size p arg : ℕ) (k : Kernel)
    → p ≢ null
    → get_io_device_index start size (k.word arg) < sem_dev_len
    → k.blocked_proc (get_io_device_index start size (k.word arg)) ≡ []
    → (doio_service start size p arg k).blocked_proc (get_io_device_index start size (k.word arg))
      ≡ p ∷ []
unfolding doio_service
doio_service-blocked start size p arg k live b nobody =
    let i = get_io_device_index start size (k.word arg) in
    rw (==-refl i, ==-false p null live, ==-false i sem_dev_len (λ f. omega (arith, f, b)), nobody)
      refl

-- A process in use other than the running one and the service interface, which has no support structure, asks for
-- a free device. When the service interface has served this with `DOIO_service` and a message is free, the
-- interrupt of the device wakes the process: it is ready, its inbox ends with a message of the service interface
-- that carries the status of the device, no process waits for the device, and as many are blocked as before.
pub dev_interrupt_return-doio_service :
    (h : Machine) (p arg status m : ℕ) (ms : List ℕ) (k : Kernel)
    → IsClient p k
    → k.msg_free ≡ m ∷ ms
    → get_io_device_index h.dev_reg_start h.dev_reg_size (k.word arg) < sem_dev_len
    → k.blocked_proc (get_io_device_index h.dev_reg_start h.dev_reg_size (k.word arg)) ≡ []
    → k.soft_block_count < word_mod
    → Done
        (get_io_device_index h.dev_reg_start h.dev_reg_size (k.word arg))
        p
        m
        status
        k.soft_block_count
        []
        k
        (dev_interrupt_return h status
          (k.word arg)
          (doio_service h.dev_reg_start h.dev_reg_size p arg k))
unfolding doio_service
dev_interrupt_return-doio_service h p arg status m ms k c free b nobody small =
    let i = get_io_device_index h.dev_reg_start h.dev_reg_size (k.word arg) in
    let u = doio_service h.dev_reg_start h.dev_reg_size p arg k in
    let v = record u {
      word = update u.word (k.word arg) h.ack;
      blocked_proc = update u.blocked_proc i [];
    } in
    let first = doio_service-blocked h.dev_reg_start h.dev_reg_size p arg k c.live b nobody in
    let client : IsClient p v = record {
      live = c.live;
      resting = c.resting;
      other = c.other;
      plain = c.plain;
      alive = c.alive;
    } in
    let d = device_done-Done h i p m status [] ms v b client free (rw (==-refl i) refl) in
    subst (Done i p m status k.soft_block_count [] k)
      (sym (dev_interrupt_return-device_done h status (k.word arg) p [] u first))
      record {
        inbox = d.inbox;
        payload = d.payload;
        m_sender = d.m_sender;
        ready = d.ready;
        waits = d.waits;
        count = d.count ∙ omega (arith, small);
        v0 = d.v0;
      }
