-- ===== src/Kernel/Messages/Send.antt =====
-- What `SendMessage` of phase2/exceptions.c does, on every path.
use progetto_so.Base.{
  ℕ, ◌≡◌, ◌≢◌, refl, ap, ◌∙◌, has-append, erase, subst, ◌⊎◌, inl, inr, true, false, List, [], ◌∷◌,
  ◌++◌, ◌==◌, has, update, arith, Bool-cases, ◌||◌, ==-false,
}
use progetto_so.Listx.{null}
use progetto_so.Kernel.State.{Kernel, sem_dev_len}
use progetto_so.Kernel.Queues.{take_msg, insert_message}
use progetto_so.Kernel.Messages.{Kind, request, fill_payload, fill_message, deliver, send_message}

-- A process that can be handed a message: it runs, is ready, or waits for messages.
abbrev pub IsReachable : ℕ → Kernel → Type 0
IsReachable p k =
    (p ≡ k.current_process)
    ⊎ (has p k.ready_queue ≡ true)
    ⊎ (has p (k.blocked_proc sem_dev_len) ≡ true)

-- What `fill_message` leaves alone, and the sender's name that it writes.
pub record Filled (m sender : ℕ) (k t : Kernel) : Type 0 where
  pub inbox : t.msg_inbox ≡ k.msg_inbox
  pub ready : t.ready_queue ≡ k.ready_queue
  pub blocked : t.blocked_proc ≡ k.blocked_proc
  pub current : t.current_process ≡ k.current_process
  pub free : t.msg_free ≡ k.msg_free
  pub named : t.m_sender m ≡ sender
  pub others_named : (q : ℕ) → q ≢ m → t.m_sender q ≡ k.m_sender q

pub fill_payload-Filled :
    (kind : Kind) (m payload sender : ℕ) (k : Kernel)
    → Filled m sender k
        (fill_payload kind m payload (record k { m_sender = update k.m_sender m sender }))
unfolding fill_payload
fill_payload-Filled request m payload sender k = record {
  inbox = refl;
  ready = refl;
  blocked = refl;
  current = refl;
  free = refl;
  named = ground arith;
  others_named = λ q h. ground arith;
}
fill_payload-Filled _ m payload sender k = record {
  inbox = refl;
  ready = refl;
  blocked = refl;
  current = refl;
  free = refl;
  named = ground arith;
  others_named = λ q h. ground arith;
}

pub fill_message-Filled :
    (m p payload sender : ℕ) (k : Kernel) → Filled m sender k (fill_message m p payload sender k)
unfolding fill_message
fill_message-Filled m p payload sender k = fill_payload-Filled _ m payload sender k

-- A process that runs or is ready stays where it is; one that waited goes from the list of those that wait
-- to the end of the ready queue.
abbrev pub IsWoken : (p current : ℕ) (ready : List ℕ) (blocked : ℕ → List ℕ) → Kernel → Type 0
IsWoken p current ready blocked t =
    ((((p == current) || has p ready) ≡ true)
      × (t.ready_queue ≡ ready)
      × (t.blocked_proc ≡ blocked))
    ⊎ ((((p == current) || has p ready) ≡ false)
        × (t.ready_queue ≡ ready ++ p ∷ [])
        × (t.blocked_proc ≡ update blocked sem_dev_len (erase p (blocked sem_dev_len))))

-- The message `m` at the end of the inbox of `p`, and `p` no longer waiting.
pub record Delivered (m p sender : ℕ) (ms : List ℕ) (k t : Kernel) : Type 0 where
  pub inbox : t.msg_inbox p ≡ k.msg_inbox p ++ m ∷ []
  pub others : (q : ℕ) → q ≢ p → t.msg_inbox q ≡ k.msg_inbox q
  pub msg_free : t.msg_free ≡ ms
  pub m_sender : t.m_sender m ≡ sender
  pub awake : (p ≡ t.current_process) ⊎ (has p t.ready_queue ≡ true)
  pub running : t.current_process ≡ k.current_process
  pub woken : IsWoken p k.current_process k.ready_queue k.blocked_proc t

IsWoken-Filled :
    {m sender : ℕ} {k f : Kernel} (p : ℕ) (e : Filled m sender k f) (t : Kernel)
    → IsWoken p f.current_process f.ready_queue f.blocked_proc t
    → IsWoken p k.current_process k.ready_queue k.blocked_proc t
IsWoken-Filled {k} {f} p e t w =
    subst (λ b. IsWoken p k.current_process k.ready_queue b t) e.blocked
      (subst (λ r. IsWoken p k.current_process r f.blocked_proc t) e.ready
        (subst (λ c. IsWoken p c f.ready_queue f.blocked_proc t) e.current w))

pub has-snoc : (p : ℕ) (xs : List ℕ) → has p (xs ++ p ∷ []) ≡ true
has-snoc p xs = ground (arith, has-append p xs (p ∷ []))

pub deliver-running :
    (m p : ℕ) (k : Kernel) → p ≡ k.current_process → deliver m p k ≡ (0, insert_message p m k)
unfolding deliver
deliver-running m p k runs = let e : (p == k.current_process) ≡ true = ground arith in rw e

deliver-Delivered :
    (m p : ℕ) (k : Kernel)
    → p ≢ null
    → IsReachable p k
    → ((deliver m p k).0 ≡ 0) × Delivered m p (k.m_sender m) k.msg_free k (deliver m p k).1
unfolding deliver
deliver-Delivered m p k live reach =
    elim (Bool-cases ((p == k.current_process) || has p k.ready_queue)) [
      | inl near ↦ rw near (
        refl,
        record {
          inbox = ground arith;
          others = λ q h. ground arith;
          msg_free = refl;
          m_sender = refl;
          awake = ground arith;
          running = refl;
          woken = inl (near, refl, refl);
        },
      )
      | inr far ↦
          let waits : has p (k.blocked_proc sem_dev_len) ≡ true = ground arith in
          rw (far, waits, ==-false p null live)
            (
              refl,
              record {
                inbox = ground arith;
                others = λ q h. ground arith;
                msg_free = refl;
                m_sender = refl;
                awake = inr (has-snoc p k.ready_queue);
                running = refl;
                woken = inr (far, refl, refl);
              },
            )
    ]

-- With a message free, `SendMessage` to a process in use that runs, is ready or waits for messages returns 0: the message stands at the
-- end of its inbox with the sender's name on it, no other inbox changes, and the receiver is not waiting
-- any more: if it waited, it has moved from that list to the end of the ready queue.
pub send_message-Delivered :
    (p payload sender : ℕ) (k : Kernel) (m : ℕ) (ms : List ℕ)
    → p ≢ null
    → k.msg_free ≡ m ∷ ms
    → has p k.pcb_free ≡ false
    → IsReachable p k
    → ((send_message p payload sender k).0 ≡ 0)
      × Delivered m p sender ms k (send_message p payload sender k).1
unfolding send_message
send_message-Delivered p payload sender k m ms live free alive reach =
    let filled = fill_message-Filled m p payload sender (take_msg m ms k) in
    let (code, d) =
      deliver-Delivered m p (fill_message m p payload sender (take_msg m ms k)) live
        (ground (arith, filled)) in
    let t = (deliver m p (fill_message m p payload sender (take_msg m ms k))).1 in
    rw (==-false p null live, free, alive)
      (
        code,
        record {
          inbox = d.inbox ∙ ap (λ f. f p ++ m ∷ []) filled.inbox;
          others = λ q h. d.others q h ∙ ap (λ f. f q) filled.inbox;
          msg_free = d.msg_free ∙ filled.free;
          m_sender = d.m_sender ∙ filled.named;
          awake = d.awake;
          running = d.running ∙ filled.current;
          woken = IsWoken-Filled p filled t d.woken;
        },
      )

-- Where `SendMessage` does not return 0, every inbox and every queue is as it was.
pub send_message_error :
    (p payload sender : ℕ) (k : Kernel)
    → let (code, t) = send_message p payload sender k in
      code ≢ 0
      → (t.msg_inbox ≡ k.msg_inbox)
        × (t.ready_queue ≡ k.ready_queue)
        × (t.blocked_proc ≡ k.blocked_proc)
        × (t.pcb_free ≡ k.pcb_free)
unfolding send_message deliver fill_message
send_message_error p payload sender k h = ground arith
