-- ===== src/Kernel/Service/Creation.antt =====
-- CREATEPROCESS: what the service interface does for a process that waits for its answer.
use progetto_so.Base.{
  ℕ, ◌+◌, ◌≡◌, ◌≢◌, refl, sym, ap, ◌∙◌, subst, false, List, [], ◌∷◌, ◌++◌, has, has-cons, erase,
}
use progetto_so.Listx.{null}
use progetto_so.Kernel.State.{Kernel, ProcState, sem_dev_len}
use progetto_so.Kernel.Run.{minus_one}
use progetto_so.Kernel.Services.{send_response, start_process, take_pcb, create_process_service}
use progetto_so.Kernel.Service.Reply.{
  Answered, Created, Refused, Asks, send_response-replied, replied-Answered, replied-Refused,
  replied-Created, start_process-Created, start_process-Asks, start_process-queues,
}

-- A request for a new process ends in one of these ways.
pub data Outcome (c s m : ℕ) (ms : List ℕ) (state : ProcState) (support : ℕ) (k t : Kernel)
    : Type 0 where
  created :
      (p : ℕ) (ps : List ℕ)
      → k.pcb_free ≡ p ∷ ps
      → Created c p ps state support k t
      → Answered c s m p ms (k.ready_queue ++ p ∷ []) k t
      → Outcome c s m ms state support k t
  refused :
      k.pcb_free ≡ []
      → Refused k t
      → Answered c s m minus_one ms k.ready_queue k t
      → Outcome c s m ms state support k t

-- The two branches of CreateProcess, by the free blocks.
abbrev branch :
    (at : ℕ) (state_at : (ℕ → ℕ) → ℕ → ProcState) (c args : ℕ) (k : Kernel) → List ℕ → Kernel
branch at state_at c args k [] = send_response at c minus_one k
branch at state_at c args k (p ∷ ps) =
    send_response at c p
      (start_process at c p (state_at k.word (k.word args)) (k.word (args + 4)) (take_pcb p ps k))

create_process_service-branch :
    (at : ℕ) (state_at : (ℕ → ℕ) → ℕ → ProcState) (c args : ℕ) (k : Kernel)
    → create_process_service at state_at c args k ≡ branch at state_at c args k k.pcb_free
unfolding create_process_service
create_process_service-branch at state_at c args k =
    elim k.pcb_free
      as (λ f.
        elim f as (λ _. Kernel) [
          | [] ↦ send_response at c minus_one k
          | p ∷ ps ↦ send_response at c p (
              start_process at c p (state_at k.word (k.word args)) (k.word (args + 4))
                (take_pcb p ps k))
        ]
        ≡ branch at state_at c args k f) [ [] ↦ refl | p ∷ ps ↦ refl ]

branch-Outcome :
    (c s m at : ℕ) (ms : List ℕ) (state_at : (ℕ → ℕ) → ℕ → ProcState) (args : ℕ) (k : Kernel)
    (blocks : List ℕ)
    → k.pcb_free ≡ blocks
    → Asks c s m ms k
    → has null blocks ≡ false
    → Outcome c s m ms
        (state_at k.word (k.word args))
        (k.word (args + 4))
        k
        (branch at state_at c args k blocks)
branch-Outcome c s m at ms state_at args k [] none_free a live =
    subst (Outcome c s m ms (state_at k.word (k.word args)) (k.word (args + 4)) k)
      (sym (send_response-replied c s m ms at minus_one k a))
      (refused none_free (replied-Refused c s m ms at minus_one k)
        (replied-Answered c s m ms at minus_one k a))
branch-Outcome c s m at ms state_at args k (p ∷ ps) some_free a live =
    let state = state_at k.word (k.word args) in
    let support = k.word (args + 4) in
    let t = start_process at c p state support (take_pcb p ps k) in
    let client : has c (p ∷ ps) ≡ false = ap (has c) (sym some_free) ∙ a.who.client_alive in
    let ssi : has s (p ∷ ps) ≡ false = ap (has s) (sym some_free) ∙ a.who.ssi_alive in
    let (c_apart, c_alive) = has-cons c p ps client in
    let (s_apart, s_alive) = has-cons s p ps ssi in
    let aside : p ≢ c = λ e. c_apart (sym e) in
    let (null_apart, rest) = has-cons null p ps live in
    let p_live : p ≢ null = λ e. null_apart (sym e) in
    let asks =
      start_process-Asks c s m p ps ms at state support k a p_live aside (λ e. s_apart (sym e))
        c_alive s_alive in
    let made = start_process-Created c p ps at state support k p_live a.who.client_live aside in
    let (ready, waiting, inbox) =
      start_process-queues c p ps at state support k p_live a.who.client_live aside in
    let reply = replied-Answered c s m ms at p t asks in
    subst (Outcome c s m ms state support k) (sym (send_response-replied c s m ms at p t asks)) (
      created p ps some_free (replied-Created c s m ms at p p ps state support k t aside made)
        record {
          ready = reply.ready ∙ ap (λ l. l ++ c ∷ []) ready;
          waiting = reply.waiting ∙ ap (λ l. erase c (l sem_dev_len)) waiting;
          inbox = reply.inbox ∙ ap (λ l. l ++ m ∷ []) inbox;
          sender = reply.sender;
          payload = reply.payload;
          no_request = reply.no_request;
          msg_free = reply.msg_free;
        })

-- A process in use that waits for messages asks for a new one, no free block has the address 0, and a message is free. If
-- a block is free, the first becomes the client's last child, with the state and the support structure of the request,
-- no child, no message, no time and the next identifier, and no other block changes its parent, state, support
-- structure or identifier; it is ready, before the client, which finds its address as the answer. If none is free, no
-- process is added, and the client, which is ready again, finds -1.
pub create_process_service-Outcome :
    (c s m at : ℕ) (ms : List ℕ) (state_at : (ℕ → ℕ) → ℕ → ProcState) (args : ℕ) (k : Kernel)
    → Asks c s m ms k
    → has null k.pcb_free ≡ false
    → Outcome c s m ms
        (state_at k.word (k.word args))
        (k.word (args + 4))
        k
        (create_process_service at state_at c args k)
create_process_service-Outcome c s m at ms state_at args k a live =
    subst (Outcome c s m ms (state_at k.word (k.word args)) (k.word (args + 4)) k)
      (sym (create_process_service-branch at state_at c args k))
      (branch-Outcome c s m at ms state_at args k k.pcb_free refl a live)
