-- ===== src/Kernel/Service/Reply.antt =====
-- The answer of the service interface to a process that waits for it, and the new process of CREATEPROCESS.
use progetto_so.Base.{
  ℕ, ◌≡◌, ◌≢◌, refl, sym, ap, ◌∙◌, true, false, List, [], ◌∷◌, ◌++◌, has, has-append, erase, update,
  ==-false, ==-refl,
}
use progetto_so.Listx.{null}
use progetto_so.Kernel.State.{Kernel, ProcState, sem_dev_len}
use progetto_so.Kernel.Run.{add_word, minus_one}
use progetto_so.Kernel.Messages.{value, fill_payload, send_message}
use progetto_so.Kernel.Scheduler.{ready_process}
use progetto_so.Kernel.Services.{send_response, start_process, take_pcb}
use progetto_so.Kernel.Service.{AreActors}
use progetto_so.Kernel.Service.Stages.{named, woken, send_message-woken, kind_of-value}

-- The client `c` has the answer `v` of the service interface `s` in the message `m`, the last of its inbox, and is the
-- last of the ready processes, behind those of `before`.
pub record Answered (c s m v : ℕ) (ms before : List ℕ) (k t : Kernel) : Type 0 where
  pub ready : t.ready_queue ≡ before ++ c ∷ []
  pub waiting : t.blocked_proc sem_dev_len ≡ erase c (k.blocked_proc sem_dev_len)
  pub inbox : t.msg_inbox c ≡ k.msg_inbox c ++ m ∷ []
  pub sender : t.m_sender m ≡ s
  pub payload : t.m_payload m ≡ v
  pub no_request : t.m_service m ≡ minus_one
  pub msg_free : t.msg_free ≡ ms

-- The block `p` is a process, the last child of `c`, with this state and support structure.
pub record Created (c p : ℕ) (ps : List ℕ) (state : ProcState) (support : ℕ) (k t : Kernel)
    : Type 0 where
  pub pcb_free : t.pcb_free ≡ ps
  pub process_count : t.process_count ≡ add_word k.process_count 1
  pub parent : t.p_parent p ≡ c
  pub child : t.p_child c ≡ k.p_child c ++ p ∷ []
  pub no_child : t.p_child p ≡ []
  pub p_state : t.p_s p ≡ state
  pub p_support : t.p_support p ≡ support
  pub time : t.p_time p ≡ 0
  pub pid : t.p_pid p ≡ k.next_pid
  pub no_message : t.msg_inbox p ≡ []
  pub others :
      (q : ℕ)
      → q ≢ p
      → (t.p_parent q ≡ k.p_parent q)
        × (t.p_s q ≡ k.p_s q)
        × (t.p_support q ≡ k.p_support q)
        × (t.p_pid q ≡ k.p_pid q)

-- No process is added.
pub record Refused (k t : Kernel) : Type 0 where
  pub pcb_free : t.pcb_free ≡ k.pcb_free
  pub process_count : t.process_count ≡ k.process_count
  pub p_parent : t.p_parent ≡ k.p_parent
  pub p_child : t.p_child ≡ k.p_child
  pub p_s : t.p_s ≡ k.p_s

-- The client waits for messages, and the service interface runs.
pub record Asks (c s m : ℕ) (ms : List ℕ) (k : Kernel) : Type 0 where
  pub who : AreActors c s m k
  pub current : k.current_process ≡ s
  pub waits : has c (k.blocked_proc sem_dev_len) ≡ true
  pub not_ready : has c k.ready_queue ≡ false
  pub free : k.msg_free ≡ m ∷ ms

module _ (c s m : ℕ) (ms : List ℕ) where
  -- The state in which the client has its answer `v`.
  abbrev pub replied : (at v : ℕ) → Kernel → Kernel
  replied at v k = woken value c at s m ms (record k { word = update k.word at v })

  pub send_response-replied :
      (at v : ℕ) (k : Kernel) → Asks c s m ms k → send_response at c v k ≡ replied at v k
  unfolding send_response
  send_response-replied at v k a =
      let t = record k { word = update k.word at v } in
      let kind =
        kind_of-value c s m ms k a.who (named value c at s m ms t) a.who.is_ssi a.who.plain in
      ap (λ p. (send_message c at p t).1) a.current
      ∙ ap (λ (r : ℕ × Kernel). r.1)
          (send_message-woken value c at s m ms t (==-false c null a.who.client_live) a.free
            a.who.client_alive (rw a.current (==-false c s a.who.apart)) a.not_ready a.waits kind)

  pub replied-Answered :
      (at v : ℕ) (k : Kernel)
      → Asks c s m ms k
      → Answered c s m v ms k.ready_queue k (replied at v k)
  unfolding fill_payload ready_process
  replied-Answered at v k a =
      let live = ==-false c null a.who.client_live in
      record {
        ready = rw live refl;
        waiting = refl;
        inbox = rw (==-refl c) refl;
        sender = rw (==-refl m) refl;
        payload = rw (==-refl m, ==-refl at) refl;
        no_request = rw (==-refl m) refl;
        msg_free = refl;
      }

  pub replied-Refused : (at v : ℕ) (k : Kernel) → Refused k (replied at v k)
  unfolding fill_payload ready_process
  replied-Refused at v k = record {
    pcb_free = refl;
    process_count = refl;
    p_parent = refl;
    p_child = refl;
    p_s = refl;
  }

  pub replied-Created :
      (at v p : ℕ) (ps : List ℕ) (state : ProcState) (support : ℕ) (k t : Kernel)
      → p ≢ c
      → Created c p ps state support k t
      → Created c p ps state support k (replied at v t)
  unfolding fill_payload ready_process
  replied-Created at v p ps state support k t apart n = record {
    pcb_free = n.pcb_free;
    process_count = n.process_count;
    parent = n.parent;
    child = n.child;
    no_child = n.no_child;
    p_state = n.p_state;
    p_support = n.p_support;
    time = n.time;
    pid = n.pid;
    no_message = rw (==-false p c apart) n.no_message;
    others = n.others;
  }

pub start_process-Created :
    (c p : ℕ) (ps : List ℕ) (at : ℕ) (state : ProcState) (support : ℕ) (k : Kernel)
    → p ≢ null
    → c ≢ null
    → p ≢ c
    → Created c p ps state support k (start_process at c p state support (take_pcb p ps k))
unfolding start_process
start_process-Created c p ps at state support k live client apart =
    let a = ==-false p null live in
    let b = ==-false c null client in
    record {
      pcb_free = rw (a, b) refl;
      process_count = rw (a, b) refl;
      parent = rw (a, b, ==-refl p) refl;
      child = rw (a, b, ==-refl c, ==-false c p (λ e. apart (sym e))) refl;
      no_child = rw (a, b, ==-false p c apart, ==-refl p) refl;
      p_state = rw (a, b, ==-refl p) refl;
      p_support = rw (a, b, ==-refl p) refl;
      time = rw (a, b, ==-refl p) refl;
      pid = rw (a, b, ==-refl p) refl;
      no_message = rw (a, b, ==-refl p) refl;
      others = λ q away.
          let f = ==-false q p away in
          (rw (a, b, f) refl, rw (a, b, f) refl, rw (a, b, f) refl, rw (a, b, f) refl);
    }

-- The new process waits behind the ready ones; the client still waits for the answer.
pub start_process-Asks :
    (c s m p : ℕ) (ps ms : List ℕ) (at : ℕ) (state : ProcState) (support : ℕ) (k : Kernel)
    → Asks c s m ms k
    → p ≢ null
    → p ≢ c
    → p ≢ s
    → has c ps ≡ false
    → has s ps ≡ false
    → Asks c s m ms (start_process at c p state support (take_pcb p ps k))
unfolding start_process
start_process-Asks c s m p ps ms at state support k a live aside apart client ssi =
    let f = ==-false p null live in
    let g = ==-false c null a.who.client_live in
    record {
      who = record {
        client_live = a.who.client_live;
        ssi_live = a.who.ssi_live;
        message_live = a.who.message_live;
        apart = a.who.apart;
        is_ssi = rw (f, g) a.who.is_ssi;
        client_alive = rw (f, g) client;
        ssi_alive = rw (f, g) ssi;
        plain = rw (f, g, ==-false s p (λ e. apart (sym e))) a.who.plain;
      };
      current = rw (f, g) a.current;
      waits = rw (f, g) a.waits;
      not_ready =
          rw
            (
              f,
              g,
              has-append c k.ready_queue (p ∷ []),
              a.not_ready,
              ==-false c p (λ e. aside (sym e)),
            )
            refl;
      free = rw (f, g) a.free;
    }

pub start_process-queues :
    (c p : ℕ) (ps : List ℕ) (at : ℕ) (state : ProcState) (support : ℕ) (k : Kernel)
    → p ≢ null
    → c ≢ null
    → p ≢ c
    → let t = start_process at c p state support (take_pcb p ps k) in
      (t.ready_queue ≡ k.ready_queue ++ p ∷ [])
      × (t.blocked_proc ≡ k.blocked_proc)
      × (t.msg_inbox c ≡ k.msg_inbox c)
unfolding start_process
start_process-queues c p ps at state support k live client apart =
    let a = ==-false p null live in
    let b = ==-false c null client in
    (rw (a, b) refl, rw (a, b) refl, rw (a, b, ==-false c p (λ e. apart (sym e))) refl)
