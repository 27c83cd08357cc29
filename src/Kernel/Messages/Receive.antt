-- ===== src/Kernel/Messages/Receive.antt =====
-- What `ReceiveMessage` of phase2/exceptions.c does, and that it gives back what `SendMessage` sent.
use progetto_so.Base.{
  ℕ, ◌+◌, ◌≡◌, ◌≢◌, refl, ap, ◌∙◌, true, false, List, [], ◌∷◌, ◌++◌, ◌==◌, has, has-append, erase,
  update, arith, ==-false,
}
use progetto_so.Listx.{null}
use progetto_so.Msg.Queue.{wanted, first_from}
use progetto_so.Kernel.State.{Kernel}
use progetto_so.Kernel.Run.{returns, minus_one}
use progetto_so.Kernel.Queues.{take_msg}
use progetto_so.Kernel.Messages.{
  Kind, request, value, text, kind_of, fill_payload, fill_message, deliver, send_message,
  store_payload, take_message, receive_message, pop_inbox,
}
use progetto_so.Kernel.Messages.Send.{
  IsReachable, Delivered, has-snoc, fill_payload-Filled, send_message-Delivered,
}

-- The memory `word` after the payload that was at `payload` in the memory `read` has come to `to`.
abbrev pub arrived : Kind → (payload to : ℕ) → (read word : ℕ → ℕ) → ℕ → ℕ
arrived request payload to read word =
    update (update word to (read payload)) (to + 4) (read (payload + 4))
arrived value payload to read word = update word to (read payload)
arrived text payload to read word = update word to payload

-- The message `m` has the same payload fields in both states.
pub record IsCarried (m : ℕ) (k u : Kernel) : Type 0 where
  pub service : u.m_service m ≡ k.m_service m
  pub arg : u.m_arg m ≡ k.m_arg m
  pub string : u.m_string m ≡ k.m_string m
  pub payload : u.m_payload m ≡ k.m_payload m

-- A cleared message that was filled is stored as its kind says.
store_payload-fill :
    (kind : Kind) (m payload to : ℕ) (k u : Kernel)
    → k.m_service m ≡ minus_one
    → k.m_string m ≡ null
    → k.m_payload m ≡ 0
    → IsCarried m (fill_payload kind m payload k) u
    → (kind ≡ request → k.word payload ≢ minus_one)
    → to ≢ null
    → (store_payload m to u).word ≡ arrived kind payload to k.word u.word
unfolding store_payload fill_payload
store_payload-fill request m payload to k u a b z c d e =
    let d' = d refl in ground (arith, c.service, c.arg)
store_payload-fill value m payload to k u a b z c d e =
    ground (arith, c.service, c.string, c.payload)
store_payload-fill text m payload to k u a b z c d e =
    ground (arith, c.service, c.string, c.payload)

store_payload-inbox :
    (m to : ℕ) (k : Kernel) (inbox : ℕ → List ℕ)
    → (store_payload m to (record k { msg_inbox = inbox })).word ≡ (store_payload m to k).word
unfolding store_payload
store_payload-inbox m to k inbox = ground arith

-- The first message of a sender is the new one, if there was none before.
first_from-snoc :
    (sender names : ℕ → ℕ) (p m : ℕ) (ms : List ℕ)
    → ((q : ℕ) → has q ms ≡ true → names q ≡ sender q)
    → first_from sender p ms ≡ null
    → has null ms ≡ false
    → names m ≡ p
    → first_from names p (ms ++ m ∷ []) ≡ m
first_from-snoc sender names p m [] same none_yet live named = ground arith
first_from-snoc sender names p m (x ∷ ms) same none_yet live named =
    ground (arith, same x, first_from-snoc sender names p m ms (λ q h. same q (ground arith)))

erase-snoc : (m : ℕ) (ms : List ℕ) → has m ms ≡ false → erase m (ms ++ m ∷ []) ≡ ms
erase-snoc m [] h = ground arith
erase-snoc m (x ∷ ms) h = ground (arith, erase-snoc m ms)

-- With a message at hand `ReceiveMessage` takes it and returns.
pub receive_message_found :
    (tod : ℕ → ℕ) (sender to m : ℕ) (k : Kernel)
    → wanted k.m_sender sender (k.msg_inbox k.current_process) ≡ m
    → m ≢ null
    → receive_message tod sender to k
      ≡ (let (got, t) = take_message m to (pop_inbox m k) in returns got t)
unfolding receive_message
receive_message_found tod sender to m k e live = rw (e, ==-false m null live)

record Taken (m to : ℕ) (k : Kernel) (r : ℕ × Kernel) : Type 0 where
  sender : r.0 ≡ k.m_sender m
  word : r.1.word ≡ (store_payload m to k).word
  free : r.1.msg_free ≡ m ∷ k.msg_free
  inbox : r.1.msg_inbox ≡ k.msg_inbox

take_message-Taken : (m to : ℕ) (k : Kernel) → m ≢ null → Taken m to k (take_message m to k)
unfolding take_message
take_message-Taken m to k live = ground arith

-- The message that `SendMessage` fills.
abbrev filled : (p payload sender m : ℕ) → List ℕ → Kernel → Kernel
filled p payload sender m ms k =
    fill_payload (kind_of p sender k) m payload
      (record (take_msg m ms k) { m_sender = update (take_msg m ms k).m_sender m sender })

-- `deliver` changes no field of a message.
deliver-fields :
    (m p : ℕ) (k : Kernel)
    → IsCarried m k (deliver m p k).1 × ((deliver m p k).1.m_sender ≡ k.m_sender)
unfolding deliver
deliver-fields m p k = (
  record {
    service = ground arith;
    arg = ground arith;
    string = ground arith;
    payload = ground arith;
  },
  ground arith,
)

send_message-fields :
    (p payload sender m : ℕ) (ms : List ℕ) (k : Kernel)
    → p ≢ null
    → k.msg_free ≡ m ∷ ms
    → has p k.pcb_free ≡ false
    → IsCarried m (filled p payload sender m ms k) (send_message p payload sender k).1
      × ((send_message p payload sender k).1.m_sender ≡ (filled p payload sender m ms k).m_sender)
unfolding send_message fill_message kind_of
send_message-fields p payload sender m ms k live free alive =
    rw (==-false p null live, free, alive)
      (deliver-fields m p (fill_message m p payload sender (take_msg m ms k)))

-- Since the state `s` the process `p` has come to run, and its inbox and what the messages there carry are as they were.
pub record IsLeft (p m : ℕ) (s u : Kernel) : Type 0 where
  pub current : u.current_process ≡ p
  pub inbox : u.msg_inbox p ≡ s.msg_inbox p
  pub senders : (q : ℕ) → has q (s.msg_inbox p) ≡ true → u.m_sender q ≡ s.m_sender q
  pub carried : IsCarried m s u

IsCarried-trans : (m : ℕ) (k s u : Kernel) → IsCarried m k s → IsCarried m s u → IsCarried m k u
IsCarried-trans m k s u a b = record {
  service = b.service ∙ a.service;
  arg = b.arg ∙ a.arg;
  string = b.string ∙ a.string;
  payload = b.payload ∙ a.payload;
}

-- The message that was sent is the first of its sender, when none was there before.
found_first :
    (p payload sender m : ℕ) (ms : List ℕ) (k u : Kernel)
    → Delivered m p sender ms k (send_message p payload sender k).1
    → ((send_message p payload sender k).1.m_sender ≡ (filled p payload sender m ms k).m_sender)
    → IsLeft p m (send_message p payload sender k).1 u
    → has m (k.msg_inbox p) ≡ false
    → has null (k.msg_inbox p) ≡ false
    → sender ≢ null
    → first_from k.m_sender sender (k.msg_inbox p) ≡ null
    → (u.msg_inbox u.current_process ≡ k.msg_inbox p ++ m ∷ [])
      × (wanted u.m_sender sender (u.msg_inbox u.current_process) ≡ m)
found_first p payload sender m ms k u d named left new real sl first =
    let s = (send_message p payload sender k).1 in
    let kind = kind_of p sender k in
    let taken = take_msg m ms k in
    let kept = (fill_payload-Filled kind m payload sender taken).others_named in
    let inbox : u.msg_inbox u.current_process ≡ k.msg_inbox p ++ m ∷ [] =
      ap u.msg_inbox left.current ∙ left.inbox ∙ d.inbox in
    let there : has m (s.msg_inbox p) ≡ true =
      ap (λ l. has m l) d.inbox ∙ has-snoc m (k.msg_inbox p) in
    let mine =
      first_from-snoc k.m_sender u.m_sender sender m (k.msg_inbox p)
        (λ q h.
          left.senders q
            (ap (λ l. has q l) d.inbox ∙ ground (arith, h, has-append q (k.msg_inbox p) (m ∷ [])))
          ∙ ap (λ f. f q) named
          ∙ kept q (λ e. ground (arith, e, h, new))
          ∙ ground (arith, h, new))
        first real (left.senders m there ∙ d.m_sender) in
    (inbox, rw (inbox, ==-false sender null sl) mine)

-- What a process is sent it receives: if `SendMessage` sends a message to a process in use that runs, is ready or waits for
-- messages, a message is free, none of that sender is in the receiver's inbox yet and the code of a request is not -1,
-- then `ReceiveMessage` from that sender, once the receiver runs, returns the sender and stores what `SendMessage` was
-- given: a request's two words, the word at the payload, both as they were when they were sent, or the payload itself,
-- by the parts that the two play. The message is then free again and the inbox as it was before. In between no other
-- message has come to the receiver, and those that it has kept their senders and the new one its payload.
pub receive_message-send_message :
    (tod : ℕ → ℕ) (p payload sender to m : ℕ) (ms : List ℕ) (k u : Kernel)
    → p ≢ null
    → has p k.pcb_free ≡ false
    → IsReachable p k
    → k.msg_free ≡ m ∷ ms
    → m ≢ null
    → has m (k.msg_inbox p) ≡ false
    → has null (k.msg_inbox p) ≡ false
    → sender ≢ null
    → first_from k.m_sender sender (k.msg_inbox p) ≡ null
    → (kind_of p sender k ≡ request → k.word payload ≢ minus_one)
    → to ≢ null
    → IsLeft p m (send_message p payload sender k).1 u
    → (t : Kernel) × (receive_message tod sender to u ≡ returns sender t)
      × (t.word ≡ arrived (kind_of p sender k) payload to k.word u.word)
      × (t.msg_free ≡ m ∷ u.msg_free)
      × (t.msg_inbox p ≡ k.msg_inbox p)
receive_message-send_message tod p payload sender to m ms k u live alive reach free ml new real sl
      first req tl left =
    let (code, d) = send_message-Delivered p payload sender k m ms live free alive reach in
    let (sent, named) = send_message-fields p payload sender m ms k live free alive in
    let (inbox, found) = found_first p payload sender m ms k u d named left new real sl first in
    let after = take_message-Taken m to (pop_inbox m u) ml in
    let taken = take_msg m ms k in
    let stored =
      store_payload-fill (kind_of p sender k) m payload to
        (record taken { m_sender = update taken.m_sender m sender }) u (ground arith) (ground arith)
        (ground arith)
        (IsCarried-trans m (filled p payload sender m ms k) (send_message p payload sender k).1 u
          sent left.carried)
        req tl in
    let in_inbox : has m ((send_message p payload sender k).1.msg_inbox p) ≡ true =
      ap (λ l. has m l) d.inbox ∙ has-snoc m (k.msg_inbox p) in
    let here : (p == u.current_process) ≡ true = ground (arith, left.current) in
    let out : (pop_inbox m u).msg_inbox p ≡ k.msg_inbox p =
      rw (here, inbox) (erase-snoc m (k.msg_inbox p) new) in
    (
      (take_message m to (pop_inbox m u)).1,
      receive_message_found tod sender to m u found ml
          ∙ ap (λ x. returns x (take_message m to (pop_inbox m u)).1)
              (after.sender ∙ left.senders m in_inbox ∙ d.m_sender),
      after.word ∙ store_payload-inbox m to _ _ ∙ stored,
      after.free,
      ap (λ f. f p) after.inbox ∙ out,
    )
