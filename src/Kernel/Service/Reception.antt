-- ===== src/Kernel/Service/Reception.antt =====
-- The two stages of a request in which a message is taken from an inbox.
use progetto_so.Base.{
  ℕ, ◌+◌, ◌≡◌, ◌≢◌, refl, sym, ap, ◌∙◌, false, List, [], ◌∷◌, ◌==◌, update, ==-false, ==-refl,
}
use progetto_so.Listx.{null}
use progetto_so.Msg.Queue.{wanted}
use progetto_so.Kernel.State.{Kernel}
use progetto_so.Kernel.Run.{returns, minus_one}
use progetto_so.Kernel.Messages.{store_payload, take_message, pop_inbox, receive_message}
use progetto_so.Kernel.Messages.Receive.{receive_message_found}
use progetto_so.Kernel.Service.{Shape, Shows, AreActors}

module _ (c s m : ℕ) (ms : List ℕ) (k : Kernel) (who : AreActors c s m k) where
  abbrev pub taken : (to : ℕ) → Shape → Shape
  taken to z = record z {
    ssi_inbox = [];
    free = m ∷ z.free;
    word = update (update z.word to z.service) (to + 4) z.arg;
  }

  -- The service interface takes a request.
  pub taken-Shows :
      (tod : ℕ → ℕ) (to : ℕ) (z : Shape) (t : Kernel)
      → Shows c s m k z t
      → z.current ≡ s
      → z.ssi_inbox ≡ m ∷ []
      → z.service ≢ minus_one
      → to ≢ null
      → (u : Kernel) × (receive_message tod null to t ≡ returns z.sender u)
        × Shows c s m k (taken to z) u
  unfolding take_message store_payload
  taken-Shows tod to z t sh cur inbox request live =
      let current : t.current_process ≡ s = sh.current ∙ cur in
      let own : t.msg_inbox s ≡ m ∷ [] = sh.ssi_inbox ∙ inbox in
      let found : wanted t.m_sender null (t.msg_inbox t.current_process) ≡ m =
        ap (λ p. wanted t.m_sender null (t.msg_inbox p)) current
        ∙ ap (wanted t.m_sender null) own in
      let u = record (pop_inbox m t) {
        word = update (update t.word to (t.m_service m)) (to + 4) (t.m_arg m);
        msg_free = m ∷ t.msg_free;
      } in
      let there : (t.m_service m == minus_one) ≡ false =
        ==-false (t.m_service m) minus_one (λ e. request (sym sh.service ∙ e)) in
      let way : take_message m to (pop_inbox m t) ≡ (t.m_sender m, u) =
        rw (==-false to null live, there, ==-false m null who.message_live) refl in
      (
        u,
        receive_message_found tod null to m t found who.message_live
            ∙ ap (λ (r : ℕ × Kernel). returns r.0 r.1) way
            ∙ ap (λ n. returns n u) sh.sender,
        record {
          current = sh.current;
          ready = sh.ready;
          waiting = sh.waiting;
          client_inbox = rw (current, ==-false c s who.apart) sh.client_inbox;
          ssi_inbox = rw (current, ==-refl s, own, ==-refl m) refl;
          free = rw sh.free refl;
          word = rw (sh.word, sh.service, sh.arg) refl;
          sender = sh.sender;
          payload = sh.payload;
          string = sh.string;
          service = sh.service;
          arg = sh.arg;
          ssi = sh.ssi;
          pcb_free = sh.pcb_free;
          p_support = sh.p_support;
          p_pid = sh.p_pid;
          p_parent = sh.p_parent;
        },
      )

  abbrev pub delivered : (to : ℕ) → Shape → Shape
  delivered to z = record z {
    client_inbox = [];
    free = m ∷ z.free;
    word = update z.word to z.payload;
  }

  -- The client takes the response.
  pub delivered-Shows :
      (tod : ℕ → ℕ) (to : ℕ) (z : Shape) (t : Kernel)
      → Shows c s m k z t
      → z.current ≡ c
      → z.client_inbox ≡ m ∷ []
      → z.sender ≡ s
      → z.service ≡ minus_one
      → z.string ≡ null
      → to ≢ null
      → (u : Kernel) × (receive_message tod s to t ≡ returns s u) × Shows c s m k (delivered to z) u
  unfolding take_message store_payload
  delivered-Shows tod to z t sh cur inbox from no_request no_text live =
      let current : t.current_process ≡ c = sh.current ∙ cur in
      let own : t.msg_inbox c ≡ m ∷ [] = sh.client_inbox ∙ inbox in
      let sender : t.m_sender m ≡ s = sh.sender ∙ from in
      let first : wanted t.m_sender s (m ∷ []) ≡ m =
        rw (==-false s null who.ssi_live, sender, ==-refl s) refl in
      let found : wanted t.m_sender s (t.msg_inbox t.current_process) ≡ m =
        ap (λ p. wanted t.m_sender s (t.msg_inbox p)) current
        ∙ ap (wanted t.m_sender s) own
        ∙ first in
      let u = record (pop_inbox m t) {
        word = update t.word to (t.m_payload m);
        msg_free = m ∷ t.msg_free;
      } in
      let way : take_message m to (pop_inbox m t) ≡ (t.m_sender m, u) =
        rw
          (
            ==-false to null live,
            sh.service,
            no_request,
            sh.string,
            no_text,
            ==-false m null who.message_live,
          )
          refl in
      (
        u,
        receive_message_found tod s to m t found who.message_live
            ∙ ap (λ (r : ℕ × Kernel). returns r.0 r.1) way
            ∙ ap (λ n. returns n u) sender,
        record {
          current = sh.current;
          ready = sh.ready;
          waiting = sh.waiting;
          client_inbox = rw (current, ==-refl c, own, ==-refl m) refl;
          ssi_inbox = rw (current, ==-false s c (λ e. who.apart (sym e))) sh.ssi_inbox;
          free = rw sh.free refl;
          word = rw (sh.word, sh.payload) refl;
          sender = sh.sender;
          payload = sh.payload;
          string = sh.string;
          service = sh.service;
          arg = sh.arg;
          ssi = sh.ssi;
          pcb_free = sh.pcb_free;
          p_support = sh.p_support;
          p_pid = sh.p_pid;
          p_parent = sh.p_parent;
        },
      )
