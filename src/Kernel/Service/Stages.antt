-- ===== src/Kernel/Service/Stages.antt =====
-- The stages of a request, each a call of one process.
use progetto_so.Base.{
  ℕ, ◌+◌, ◌≡◌, refl, sym, ap, ◌∙◌, subst, inl, inr, true, false, List, [], ◌∷◌, ◌==◌, has, update,
  Bool-cases, ==-false, ==-refl,
}
use progetto_so.Listx.{null}
use progetto_so.Kernel.State.{Kernel, sem_dev_len}
use progetto_so.Kernel.Run.{ldst, stops, final, minus_one}
use progetto_so.Kernel.Queues.{take_msg, insert_message, insert_blocked}
use progetto_so.Kernel.Scheduler.{
  interval_tod, update_process_cpu_time, dispatch, ready_process, block_process,
}
use progetto_so.Kernel.Messages.{
  Kind, request, value, kind_of, is_uproc_to_sst, fill_payload, fill_message, deliver, send_message,
  receive_message,
}
use progetto_so.Kernel.Messages.Send.{fill_payload-Filled}
use progetto_so.Msg.Queue.{wanted}
use progetto_so.Kernel.Scheduler.Decision.{scheduler-dispatch}
use progetto_so.Kernel.Service.{Shape, Shows, AreActors}

-- `SendMessage` to a process that waits for messages, by the kind of the message.
module _ (kind : Kind) (q payload p m : ℕ) (ms : List ℕ) (k : Kernel) where
  abbrev pub named : Kernel
  named = record (take_msg m ms k) { m_sender = update (take_msg m ms k).m_sender m p }

  abbrev pub woken : Kernel
  woken = insert_message q m (ready_process q sem_dev_len (fill_payload kind m payload named))

  deliver-woken :
      (f : Kernel)
      → (q == f.current_process) ≡ false
      → has q f.ready_queue ≡ false
      → has q (f.blocked_proc sem_dev_len) ≡ true
      → deliver m q f ≡ (0, insert_message q m (ready_process q sem_dev_len f))
  unfolding deliver
  deliver-woken f resting away waits = rw (resting, away, waits) refl

  pub send_message-woken :
      (q == null) ≡ false
      → k.msg_free ≡ m ∷ ms
      → has q k.pcb_free ≡ false
      → (q == k.current_process) ≡ false
      → has q k.ready_queue ≡ false
      → has q (k.blocked_proc sem_dev_len) ≡ true
      → kind_of q p named ≡ kind
      → send_message q payload p k ≡ (0, woken)
  unfolding send_message fill_message
  send_message-woken live free alive resting away waits is =
      let f = fill_payload-Filled kind m payload p (take_msg m ms k) in
      let filled = fill_payload kind m payload named in
      let way : send_message q payload p k
          ≡ deliver m q (fill_message m q payload p (take_msg m ms k)) =
        rw (live, free, alive) refl in
      way
      ∙ ap (λ kd. deliver m q (fill_payload kd m payload named)) is
      ∙ deliver-woken filled (rw f.current resting) (rw f.ready away) (rw f.blocked waits)

module _ (c s m : ℕ) (ms : List ℕ) (k : Kernel) (who : AreActors c s m k) where
  s_is_not_c : (s == c) ≡ false
  s_is_not_c = ==-false s c (λ e. who.apart (sym e))

  abbrev pub asked : (req : ℕ) → Shape → Shape
  asked req z = record z {
    ready = s ∷ [];
    waiting = [];
    ssi_inbox = m ∷ [];
    free = ms;
    sender = c;
    payload = 0;
    string = null;
    service = z.word req;
    arg = z.word (req + 4);
  }

  -- The client sends its request; the service interface wakes up.
  pub request-Shows :
      (req : ℕ) (z : Shape) (t : Kernel)
      → Shows c s m k z t
      → z.current ≡ c
      → z.ready ≡ []
      → z.waiting ≡ s ∷ []
      → z.ssi_inbox ≡ []
      → z.free ≡ m ∷ ms
      → Shows c s m k (asked req z) (send_message s req c t).1
  unfolding fill_payload kind_of ready_process
  request-Shows req z t sh cur none_ready waits empty free =
      let ssi : t.ssi_pcb ≡ s = sh.ssi ∙ who.is_ssi in
      let ready : t.ready_queue ≡ [] = sh.ready ∙ none_ready in
      let waiting : t.blocked_proc sem_dev_len ≡ s ∷ [] = sh.waiting ∙ waits in
      let inbox : t.msg_inbox s ≡ [] = sh.ssi_inbox ∙ empty in
      let current : t.current_process ≡ c = sh.current ∙ cur in
      let live = ==-false s null who.ssi_live in
      let way =
        send_message-woken request s req c m ms t live (sh.free ∙ free)
          (rw sh.pcb_free who.ssi_alive) (rw current s_is_not_c) (rw ready refl)
          (rw (waiting, ==-refl s) refl) (rw (ssi, ==-refl s) refl) in
      subst (λ r. Shows c s m k (asked req z) r.1) (sym way)
        record {
          current = sh.current;
          ready = rw (live, ready) refl;
          waiting = rw (waiting, ==-refl s) refl;
          client_inbox = rw (==-false c s who.apart) sh.client_inbox;
          ssi_inbox = rw (==-refl s, inbox) refl;
          free = refl;
          word = sh.word;
          sender = rw (==-refl m) refl;
          payload = rw (==-refl m) refl;
          string = rw (==-refl m) refl;
          service = rw (==-refl m, sh.word) refl;
          arg = rw (==-refl m, sh.word) refl;
          ssi = sh.ssi;
          pcb_free = sh.pcb_free;
          p_support = sh.p_support;
          p_pid = sh.p_pid;
          p_parent = sh.p_parent;
        }

  abbrev pub answered : (at : ℕ) → Shape → Shape
  answered at z = record z {
    ready = c ∷ [];
    waiting = [];
    client_inbox = m ∷ [];
    free = ms;
    sender = s;
    payload = z.word at;
    string = null;
    service = minus_one;
    arg = null;
  }

  pub kind_of-value : (t : Kernel) → t.ssi_pcb ≡ s → t.p_support s ≡ null → kind_of c s t ≡ value
  unfolding kind_of is_uproc_to_sst
  kind_of-value t ssi plain = elim (Bool-cases (t.p_support c == null)) [
    | inl bare ↦ rw (ssi, ==-false c s who.apart, bare, ==-refl s) refl
    | inr own ↦ rw (ssi, ==-false c s who.apart, own, plain, ==-refl s) refl
  ]

  -- The service interface sends a response; the client wakes up.
  pub response-Shows :
      (at : ℕ) (z : Shape) (t : Kernel)
      → Shows c s m k z t
      → z.current ≡ s
      → z.ready ≡ []
      → z.waiting ≡ c ∷ []
      → z.client_inbox ≡ []
      → z.free ≡ m ∷ ms
      → Shows c s m k (answered at z) (send_message c at s t).1
  unfolding fill_payload ready_process
  response-Shows at z t sh cur none_ready waits empty free =
      let ready : t.ready_queue ≡ [] = sh.ready ∙ none_ready in
      let waiting : t.blocked_proc sem_dev_len ≡ c ∷ [] = sh.waiting ∙ waits in
      let inbox : t.msg_inbox c ≡ [] = sh.client_inbox ∙ empty in
      let current : t.current_process ≡ s = sh.current ∙ cur in
      let live = ==-false c null who.client_live in
      let way =
        send_message-woken value c at s m ms t live (sh.free ∙ free)
          (rw sh.pcb_free who.client_alive) (rw current (==-false c s who.apart)) (rw ready refl)
          (rw (waiting, ==-refl c) refl)
          (kind_of-value _ (sh.ssi ∙ who.is_ssi) (rw sh.p_support who.plain)) in
      subst (λ r. Shows c s m k (answered at z) r.1) (sym way)
        record {
          current = sh.current;
          ready = rw (live, ready) refl;
          waiting = rw (waiting, ==-refl c) refl;
          client_inbox = rw (==-refl c, inbox) refl;
          ssi_inbox = rw s_is_not_c sh.ssi_inbox;
          free = refl;
          word = sh.word;
          sender = rw (==-refl m) refl;
          payload = rw (==-refl m, sh.word) refl;
          string = rw (==-refl m) refl;
          service = rw (==-refl m) refl;
          arg = rw (==-refl m) refl;
          ssi = sh.ssi;
          pcb_free = sh.pcb_free;
          p_support = sh.p_support;
          p_pid = sh.p_pid;
          p_parent = sh.p_parent;
        }

  wanted_none : (names : ℕ → ℕ) (x : ℕ) → wanted names x [] ≡ null
  wanted_none names x = elim (Bool-cases (x == null)) [ inl a ↦ rw a refl | inr b ↦ rw b refl ]

  abbrev pub switched : (q p : ℕ) → Shape → Shape
  switched q p z = record z { current = q; ready = []; waiting = p ∷ [] }

  -- A process without a message waits, and the only ready one gets the processor.
  pub waiting-Shows :
      (tod : ℕ → ℕ) (p q x to : ℕ) (z : Shape) (t : Kernel)
      → Shows c s m k z t
      → z.current ≡ p
      → (p == null) ≡ false
      → z.ready ≡ q ∷ []
      → z.waiting ≡ []
      → t.msg_inbox p ≡ []
      → (u : Kernel) × (receive_message tod x to t ≡ stops (ldst (u.p_s q)) u)
        × Shows c s m k (switched q p z) u
  unfolding receive_message block_process update_process_cpu_time interval_tod dispatch
  waiting-Shows tod p q x to z t sh cur live ready waits empty =
      let current : t.current_process ≡ p = sh.current ∙ cur in
      let saved = final (
        update_process_cpu_time tod
          (record t { p_s = update t.p_s t.current_process t.proc_state })) in
      let v = insert_blocked sem_dev_len t.current_process saved in
      let w = record v { current_process = q; ready_queue = [] } in
      let inbox : t.msg_inbox t.current_process ≡ [] = rw current empty in
      let nothing : wanted t.m_sender x (t.msg_inbox t.current_process) ≡ null =
        ap (wanted t.m_sender x) inbox ∙ wanted_none t.m_sender x in
      let gone = scheduler-dispatch tod q [] v (sh.ready ∙ ready) in
      (
        final (dispatch tod q w),
        rw (nothing, gone) refl,
        record {
          current = refl;
          ready = refl;
          waiting = rw (current, live, sh.waiting, waits) refl;
          client_inbox = sh.client_inbox;
          ssi_inbox = sh.ssi_inbox;
          free = sh.free;
          word = sh.word;
          sender = sh.sender;
          payload = sh.payload;
          string = sh.string;
          service = sh.service;
          arg = sh.arg;
          ssi = sh.ssi;
          pcb_free = sh.pcb_free;
          p_support = sh.p_support;
          p_pid = sh.p_pid;
          p_parent = sh.p_parent;
        },
      )
