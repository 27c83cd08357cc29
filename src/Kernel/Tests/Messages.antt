-- ===== src/Kernel/Tests/Messages.antt =====
-- Runs of `SendMessage` and `ReceiveMessage` of phase2/exceptions.c, and the theorems at a concrete state.
use progetto_so.Base.{ℕ, ◌≡◌, refl, inl, inr, [], ◌∷◌, arith, update}
use progetto_so.Kernel.State.{Kernel}
use progetto_so.Kernel.Run.{returns, minus_one}
use progetto_so.Kernel.Messages.{kind_of, fill_message, deliver, send_message, receive_message}
use progetto_so.Kernel.Messages.Send.{Delivered, send_message-Delivered, send_message_error}
use progetto_so.Kernel.Messages.Receive.{receive_message-send_message}
use progetto_so.Kernel.Messages.Leak.{send_times, send_times-exhausts}
use progetto_so.Kernel.Tests.Samples.{sample}

-- A request to the service interface, which waits, wakes it.
request_wakes : (send_message 10 900 30 sample).1.ready_queue ≡ 20 ∷ 10 ∷ []
unfolding send_message deliver fill_message
request_wakes = refl

send_message-Delivered_example :
    ((send_message 10 900 30 sample).0 ≡ 0)
    × Delivered 70 10 30 (74 ∷ []) sample (send_message 10 900 30 sample).1
send_message-Delivered_example =
    send_message-Delivered 10 900 30 sample 70 (74 ∷ []) (omega arith) refl refl (inr (inr refl))

send_message_error_example :
    let t = (send_message 31 900 30 sample).1 in
    (t.msg_inbox ≡ sample.msg_inbox)
    × (t.ready_queue ≡ sample.ready_queue)
    × (t.blocked_proc ≡ sample.blocked_proc)
    × (t.pcb_free ≡ sample.pcb_free)
unfolding send_message deliver fill_message
send_message_error_example = send_message_error 31 900 30 sample (λ e. omega (arith, e))

-- The process 20 is ready; the running process 30 sends to it, and then 20 runs.
abbrev switched : Kernel
switched = record (send_message 20 900 30 sample).1 { current_process = 20; ready_queue = [] }

receive_message-send_message_example :
    (t : Kernel) × (receive_message (λ n. n) 30 800 switched ≡ returns 30 t)
    × (t.word ≡ update switched.word 800 900)
    × (t.msg_free ≡ 70 ∷ switched.msg_free)
    × (t.msg_inbox 20 ≡ [])
unfolding kind_of
receive_message-send_message_example =
    receive_message-send_message (λ n. n) 20 900 30 800 70 (74 ∷ []) sample switched (omega arith)
      refl (inr (inl refl)) refl (omega arith) refl refl (omega arith) refl (λ e. omega arith)
      (omega arith)
      record {
        current = refl;
        inbox = refl;
        senders = λ q h. refl;
        carried = record { service = refl; arg = refl; string = refl; payload = refl };
      }

send_times-exhausts_example :
    let t = send_times 2 50 900 30 sample in
    (t.msg_inbox ≡ sample.msg_inbox)
    × (t.msg_free ≡ [])
    × ((q load from : ℕ) → send_message q load from t ≡ (minus_one, t))
send_times-exhausts_example = send_times-exhausts 2 50 900 30 sample (omega arith) refl refl
