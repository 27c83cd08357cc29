-- ===== src/Kernel/Messages/Leak.antt =====
-- The messages that `SendMessage` of phase2/exceptions.c allocates and never frees.
use progetto_so.Base.{
  ℕ, zero, suc, ◌≡◌, ◌≢◌, refl, true, List, [], ◌∷◌, has, length, arith, ==-false,
}
use progetto_so.Listx.{null}
use progetto_so.Kernel.State.{Kernel}
use progetto_so.Kernel.Run.{minus_one, minus_two}
use progetto_so.Kernel.Queues.{take_msg}
use progetto_so.Kernel.Messages.{send_message}

-- A send to a terminated process: the pool loses its first message, which no list of the nucleus holds.
pub send_message-dead :
    (p payload sender : ℕ) (k : Kernel) (m : ℕ) (ms : List ℕ)
    → p ≢ null
    → has p k.pcb_free ≡ true
    → k.msg_free ≡ m ∷ ms
    → send_message p payload sender k ≡ (minus_two, take_msg m ms k)
unfolding send_message
send_message-dead p payload sender k m ms live dead free = rw (==-false p null live, free, dead)

-- `n` sends to the same process, one after the other.
pub send_times : (n p payload sender : ℕ) → Kernel → Kernel
send_times zero p payload sender k = k
send_times (suc n) p payload sender k =
    send_times n p payload sender (send_message p payload sender k).1

-- Without a free message every send fails.
send_message-none :
    (p payload sender : ℕ) (k : Kernel)
    → k.msg_free ≡ []
    → send_message p payload sender k ≡ (minus_one, k)
unfolding send_message
send_message-none p payload sender k none_free = ground arith

record Exhausted (k t : Kernel) : Type 0 where
  inbox : t.msg_inbox ≡ k.msg_inbox
  none_free : t.msg_free ≡ []
  fails : (q load from : ℕ) → send_message q load from t ≡ (minus_one, t)

exhausts :
    (ms : List ℕ) (p payload sender : ℕ) (k : Kernel)
    → k.msg_free ≡ ms
    → p ≢ null
    → has p k.pcb_free ≡ true
    → Exhausted k (send_times (length ms) p payload sender k)
unfolding send_times
exhausts [] p payload sender k e live dead = record {
  inbox = refl;
  none_free = e;
  fails = λ q load from. send_message-none q load from k e;
}
exhausts (m ∷ ms) p payload sender k e live dead =
    let rest = exhausts ms p payload sender (take_msg m ms k) refl live dead in
    rw (send_times, send_message-dead p payload sender k m ms live dead e)
      (record { inbox = rest.inbox; none_free = rest.none_free; fails = rest.fails })

-- As many sends to a terminated process as messages are free leave the pool empty, though no inbox has got one, and
-- in that state no process can send: every `SendMessage` returns `MSGNOGOOD` and changes nothing.
pub send_times-exhausts :
    (n p payload sender : ℕ) (k : Kernel)
    → p ≢ null
    → has p k.pcb_free ≡ true
    → length k.msg_free ≡ n
    → let t = send_times n p payload sender k in
      (t.msg_inbox ≡ k.msg_inbox)
      × (t.msg_free ≡ [])
      × ((q load from : ℕ) → send_message q load from t ≡ (minus_one, t))
send_times-exhausts n p payload sender k live dead count =
    let all = exhausts k.msg_free p payload sender k refl live dead in
    rw (← count) (all.inbox, all.none_free, all.fails)
