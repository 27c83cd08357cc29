-- ===== src/Kernel/Service/Answer.antt =====
-- A whole request: the client asks and waits, a round of `SSI_server` serves it, the service interface waits again,
-- and the client finds the answer.
use progetto_so.Base.{
  ℕ, ◌+◌, ◌≡◌, ◌≢◌, ◌⊎◌, inl, inr, refl, sym, ap, Bool-cases, ◌∙◌, subst, List, [], ◌∷◌, ◌==◌,
  update, if◌then◌else◌, arith, ==-false, ==-refl,
}
use progetto_so.Listx.{null}
use progetto_so.Kernel.State.{Kernel, sem_dev_len}
use progetto_so.Kernel.Run.{ldst, returns, stops, and_then, minus_one}
use progetto_so.Kernel.Messages.{send_message, receive_message}
use progetto_so.Kernel.Services.{
  Context, send_response, get_support_data, get_process_id, ssi_request, receive_request, ssi_round,
}
use progetto_so.Kernel.Service.{Shape, Shows, AreActors}
use progetto_so.Kernel.Service.Stages.{
  asked, request-Shows, answered, response-Shows, switched, waiting-Shows,
}
use progetto_so.Kernel.Service.Reception.{taken, taken-Shows, delivered-Shows}

-- The services that only read: GETSUPPORTPTR and GETPROCESSID.
abbrev pub IsQuery : ℕ → Type 0
IsQuery n = (n ≡ 6) ⊎ (n ≡ 7)

-- What they are to answer to `c`: its support structure, its own identifier at 0, or its parent's, 0 without a parent.
abbrev pub answer : (service arg c : ℕ) → Kernel → ℕ
answer service arg c k =
    if service == 6
    then k.p_support c
    else if arg == 0
    then k.p_pid c
    else if k.p_parent c == null
    then 0
    else k.p_pid (k.p_parent c)

ssi_request-query :
    (x : Context) (c n arg : ℕ) (t : Kernel)
    → IsQuery n
    → ssi_request x c n arg t ≡ returns tt (send_response x.response_at c (answer n arg c t) t)
unfolding ssi_request get_support_data get_process_id
ssi_request-query x c n arg t (inl six) = rw six refl
ssi_request-query x c n arg t (inr seven) = rw seven (elim (Bool-cases (t.p_parent c == null)) [
  | inl orphan ↦ rw orphan refl
  | inr child ↦ rw child refl
])

-- The nucleus when only the client runs: the service interface waits, no inbox holds a message.
pub record AtRest (c s : ℕ) (k : Kernel) : Type 0 where
  pub current : k.current_process ≡ c
  pub ready : k.ready_queue ≡ []
  pub waiting : k.blocked_proc sem_dev_len ≡ s ∷ []
  pub client_inbox : k.msg_inbox c ≡ []
  pub ssi_inbox : k.msg_inbox s ≡ []

-- The four calls: the client's wait gives the processor to the service interface, whose round ends; its next wait gives
-- the processor to the client, whose wait now ends with the answer.
pub record Served (x : Context) (c s req to request_at v : ℕ) (free : List ℕ) (k : Kernel)
    : Type 0 where
  pub asking : Kernel
  pub serving : Kernel
  pub resting : Kernel
  pub after : Kernel
  pub asks :
      receive_message x.tod s to (send_message s req c k).1 ≡ stops (ldst (asking.p_s s)) asking
  pub serves : ssi_round x request_at asking ≡ returns tt serving
  pub rests : receive_message x.tod null request_at serving ≡ stops (ldst (resting.p_s c)) resting
  pub finds : receive_message x.tod s to resting ≡ returns s after
  pub answered : after.word to ≡ v
  pub at_rest : AtRest c s after
  pub all_free : after.msg_free ≡ free

module _ (c s m : ℕ) (ms : List ℕ) (k : Kernel) (who : AreActors c s m k) where
  abbrev told : (at v : ℕ) → Shape → Shape
  told at v z = answered c s m ms k who at (record z { word = update z.word at v })

  -- The response that a service gives by `send_response`.
  send_response-Shows :
      (at v : ℕ) (z : Shape) (t : Kernel)
      → Shows c s m k z t
      → z.current ≡ s
      → z.ready ≡ []
      → z.waiting ≡ c ∷ []
      → z.client_inbox ≡ []
      → z.free ≡ m ∷ ms
      → Shows c s m k (told at v z) (send_response at c v t)
  unfolding send_response
  send_response-Shows at v z t sh cur ready waits empty free =
      let stored = record t { word = update t.word at v } in
      let shown : Shows c s m k (record z { word = update z.word at v }) stored = record {
        current = sh.current;
        ready = sh.ready;
        waiting = sh.waiting;
        client_inbox = sh.client_inbox;
        ssi_inbox = sh.ssi_inbox;
        free = sh.free;
        word = rw sh.word refl;
        sender = sh.sender;
        payload = sh.payload;
        string = sh.string;
        service = sh.service;
        arg = sh.arg;
        ssi = sh.ssi;
        pcb_free = sh.pcb_free;
        p_support = sh.p_support;
        p_pid = sh.p_pid;
        p_parent = sh.p_parent;
      } in
      subst (λ p. Shows c s m k (told at v z) (send_message c at p stored).1)
        (sym (sh.current ∙ cur))
        (response-Shows c s m ms k who at (record z { word = update z.word at v }) stored shown cur
          ready waits empty free)

  abbrev resting_shape : Shape
  resting_shape = record {
    current = c;
    ready = [];
    waiting = s ∷ [];
    client_inbox = [];
    ssi_inbox = [];
    free = m ∷ ms;
    word = k.word;
    sender = k.m_sender m;
    payload = k.m_payload m;
    string = k.m_string m;
    service = k.m_service m;
    arg = k.m_arg m;
  }

  resting-Shows : AtRest c s k → k.msg_free ≡ m ∷ ms → Shows c s m k resting_shape k
  resting-Shows rest free = record {
    current = rest.current;
    ready = rest.ready;
    waiting = rest.waiting;
    client_inbox = rest.client_inbox;
    ssi_inbox = rest.ssi_inbox;
    free = free;
    word = refl;
    sender = refl;
    payload = refl;
    string = refl;
    service = refl;
    arg = refl;
    ssi = refl;
    pcb_free = refl;
    p_support = refl;
    p_pid = refl;
    p_parent = refl;
  }

  -- The service answers by what `k` holds for the client.
  answer-Shows :
      (n arg : ℕ) (z : Shape) (t : Kernel) → Shows c s m k z t → answer n arg c t ≡ answer n arg c k
  answer-Shows n arg z t sh = rw (sh.p_support, sh.p_pid, sh.p_parent) refl

  abbrev served : (x : Context) (request_at : ℕ) → Shape → Shape
  served x request_at z =
      told x.response_at (answer z.service z.arg c k) (taken c s m ms k who request_at z)

  -- A round of `SSI_server` with the request in the inbox.
  ssi_round-Shows :
      (x : Context) (request_at : ℕ) (z : Shape) (t : Kernel)
      → Shows c s m k z t
      → z.current ≡ s
      → z.ready ≡ []
      → z.waiting ≡ c ∷ []
      → z.client_inbox ≡ []
      → z.ssi_inbox ≡ m ∷ []
      → z.free ≡ ms
      → z.sender ≡ c
      → IsQuery z.service
      → request_at ≢ null
      → (u : Kernel) × (ssi_round x request_at t ≡ returns tt u)
        × Shows c s m k (served x request_at z) u
  unfolding ssi_round receive_request
  ssi_round-Shows x request_at z t sh cur ready waits empty inbox free from query live =
      let no_value : z.service ≢ minus_one = elim query [
        | inl e ↦ λ f. omega (arith, e, f)
        | inr e ↦ λ f. omega (arith, e, f)
      ] in
      let got = taken-Shows c s m ms k who x.tod request_at z t sh cur inbox no_value live in
      let u = got.0 in
      let shown = got.2 in
      let n : u.word request_at ≡ z.service =
        ap (λ (w : ℕ → ℕ). w request_at) shown.word
        ∙ rw (==-false request_at (request_at + 4) (λ e. omega (arith, e)), ==-refl request_at)
            refl in
      let a : u.word (request_at + 4) ≡ z.arg =
        ap (λ (w : ℕ → ℕ). w (request_at + 4)) shown.word ∙ rw (==-refl (request_at + 4)) refl in
      let v = answer z.service z.arg c k in
      (
        send_response x.response_at c v u,
        ap
              (λ r.
                and_then r (λ p l. ssi_request x p (l.word request_at) (l.word (request_at + 4)) l))
              got.1
            ∙ ap (λ p. ssi_request x p (u.word request_at) (u.word (request_at + 4)) u) from
            ∙ ap (λ b. ssi_request x c b (u.word (request_at + 4)) u) n
            ∙ ap (λ b. ssi_request x c z.service b u) a
            ∙ ssi_request-query x c z.service z.arg u query
            ∙ ap (λ b. returns tt (send_response x.response_at c b u))
                (answer-Shows z.service z.arg (taken c s m ms k who request_at z) u shown),
        send_response-Shows x.response_at v (taken c s m ms k who request_at z) u shown cur ready
            waits empty (ap (λ l. m ∷ l) free),
      )

-- When only the client `c` runs, the ready queue is empty, the service interface `s` waits alone and has no support
-- structure, both inboxes are empty and a message is free, a request for GETSUPPORTPTR or GETPROCESSID that
-- `c` sends, with its service at `req` and its argument behind it, is served: `c`'s ReceiveMessage first gives the
-- processor to `s`, a round of `SSI_server` ends, the next wait of `s` gives the processor back to `c`, and
-- ReceiveMessage, called again, then ends with `s` as the sender and the answer at `to`: `c`'s support structure, or
-- its identifier, its parent's or 0 by the argument. Afterwards all waits as before, and the messages that were free are
-- free again. The addresses `to` and `request_at` are not null.
pub ssi_round-Served :
    (x : Context) (c s m req to request_at : ℕ) (ms : List ℕ) (k : Kernel)
    → AreActors c s m k
    → AtRest c s k
    → k.msg_free ≡ m ∷ ms
    → IsQuery (k.word req)
    → to ≢ null
    → request_at ≢ null
    → Served x c s req to request_at (answer (k.word req) (k.word (req + 4)) c k) (m ∷ ms) k
ssi_round-Served x c s m req to request_at ms k who rest free query live there =
    let z₀ = resting_shape c s m ms k who in
    let z₁ = asked c s m ms k who req z₀ in
    let z₂ = switched c s m ms k who s c z₁ in
    let z₃ = served c s m ms k who x request_at z₂ in
    let z₄ = switched c s m ms k who c s z₃ in
    let sent =
      request-Shows c s m ms k who req z₀ k (resting-Shows c s m ms k who rest free) refl refl refl
        refl refl in
    let first =
      waiting-Shows c s m ms k who x.tod c s s to z₁ (send_message s req c k).1 sent refl
        (==-false c null who.client_live) refl refl sent.client_inbox in
    let round =
      ssi_round-Shows c s m ms k who x request_at z₂ first.0 first.2 refl refl refl refl refl refl
        refl query there in
    let second =
      waiting-Shows c s m ms k who x.tod s c null request_at z₃ round.0 round.2 refl
        (==-false s null who.ssi_live) refl refl round.2.ssi_inbox in
    let last =
      delivered-Shows c s m ms k who x.tod to z₄ second.0 second.2 refl refl refl refl refl live in
    let shown = last.2 in
    record {
      asking = first.0;
      serving = round.0;
      resting = second.0;
      after = last.0;
      asks = first.1;
      serves = round.1;
      rests = second.1;
      finds = last.1;
      answered = ap (λ (w : ℕ → ℕ). w to) shown.word ∙ rw (==-refl to, ==-refl x.response_at) refl;
      at_rest = record {
        current = shown.current;
        ready = shown.ready;
        waiting = shown.waiting;
        client_inbox = shown.client_inbox;
        ssi_inbox = shown.ssi_inbox;
      };
      all_free = shown.free;
    }
