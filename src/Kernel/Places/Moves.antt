-- ===== src/Kernel/Places/Moves.antt =====
-- The places of a process under the moves between the nucleus's queues, and under `SendMessage`.
use progetto_so.Base.{
  ℕ, ◌+◌, ◌≤◌, ◌<◌, ◌≡◌, ◌≢◌, refl, ◌∙◌, inl, inr, true, false, Bool, List, [], ◌∷◌, ◌++◌, ◌==◌,
  ◌||◌, has, erase, update, if◌then◌else◌, arith, Bool-cases, ==-false,
}
use progetto_so.Listx.{null}
use progetto_so.Kernel.State.{Kernel, sem_dev_len}
use progetto_so.Kernel.Queues.{insert_ready, insert_blocked, out_ready, out_blocked, take_msg}
use progetto_so.Kernel.Scheduler.{ready_process}
use progetto_so.Kernel.Start.{devnum}
use progetto_so.Kernel.Messages.{Kind, request, fill_payload, fill_message, deliver, send_message}
use progetto_so.Kernel.Places.{
  count, waiting, IsPlaced, count-append, count-erase, count-erase_le, total-update,
}

-- The same process runs, and none stands in the other places more often than before.
pub record NoMore (k t : Kernel) : Type 0 where
  pub current : t.current_process ≡ k.current_process
  pub waits : (p : ℕ) → p ≢ null → waiting p t ≤ waiting p k

pub NoMore-trans : {k t u : Kernel} → NoMore k t → NoMore t u → NoMore k u
NoMore-trans a b = record {
  current = b.current ∙ a.current;
  waits = λ p live. omega (arith, b.waits p live, a.waits p live);
}

-- A change of other fields.
pub NoMore-refl : (k : Kernel) → NoMore k k
NoMore-refl k = record { current = refl; waits = λ p live. omega arith }

pub NoMore-if :
    {k t u : Kernel} (b : Bool) → NoMore k t → NoMore k u → NoMore k (if b then t else u)
NoMore-if true x y = x
NoMore-if false x y = y

pub NoMore-IsPlaced : {k t : Kernel} → NoMore k t → IsPlaced k → IsPlaced t
NoMore-IsPlaced {k} {t} e placed p live =
    rw e.current (omega (arith, e.waits p live, placed p live))

pub waiting-insert_ready :
    (p q : ℕ) (k : Kernel)
    → p ≢ null
    → waiting p (insert_ready q k) ≡ (if p == q then 1 else 0) + waiting p k
waiting-insert_ready p q k live = elim (Bool-cases (q == null)) [
  | inl nobody ↦ let same : q ≡ null = ground arith in rw (same, ==-false p null live) (omega arith)
  | inr some ↦ rw some (omega (arith, count-append p k.ready_queue (q ∷ [])))
]

pub waiting-insert_blocked :
    (i p q : ℕ) (k : Kernel)
    → i < devnum
    → p ≢ null
    → waiting p (insert_blocked i q k) ≡ (if p == q then 1 else 0) + waiting p k
waiting-insert_blocked i p q k b live = elim (Bool-cases (q == null)) [
  | inl nobody ↦
      let same : q ≡ null = ground arith in
      rw (same, ==-false p null live)
        (omega (arith, total-update p k.blocked_proc i devnum (k.blocked_proc i) b))
  | inr some ↦ rw some (
      omega (
        arith,
        count-append p (k.blocked_proc i) (q ∷ []),
        total-update p k.blocked_proc i devnum (k.blocked_proc i ++ q ∷ []) b,
      ))
]

-- A list of blocked processes gets shorter.
pub waiting-update :
    (i p n : ℕ) (xs : List ℕ) (k : Kernel)
    → i < devnum
    → count p (k.blocked_proc i) ≡ n + count p xs
    → waiting p k ≡ n + waiting p (record k { blocked_proc = update k.blocked_proc i xs })
waiting-update i p n xs k b e = omega (arith, e, total-update p k.blocked_proc i devnum xs b)

pub out_ready-NoMore : (q : ℕ) (k : Kernel) → NoMore k (out_ready q k)
out_ready-NoMore q k = record {
  current = refl;
  waits = λ p live. omega (arith, count-erase_le p q k.ready_queue);
}

pub out_blocked-NoMore : (i q : ℕ) (k : Kernel) → i < devnum → NoMore k (out_blocked i q k)
out_blocked-NoMore i q k b = record {
  current = refl;
  waits = λ p live. omega (
    arith,
    count-erase_le p q (k.blocked_proc i),
    total-update p k.blocked_proc i devnum (erase q (k.blocked_proc i)) b,
  );
}

pub ready_process-NoMore :
    (i q : ℕ) (k : Kernel)
    → i < devnum
    → has q (k.blocked_proc i) ≡ true
    → NoMore k (ready_process q i k)
unfolding ready_process
ready_process-NoMore i q k b there =
    let xs = erase q (k.blocked_proc i) in
    let out = record k { blocked_proc = update k.blocked_proc i xs } in
    record {
      current = refl;
      waits = λ p live. omega (
        arith,
        waiting-insert_ready p q out live,
        waiting-update i p (if p == q then 1 else 0) xs k b
            (count-erase p q (k.blocked_proc i) there),
      );
    }

fill_payload-NoMore :
    (kind : Kind) (m payload : ℕ) (k : Kernel) → NoMore k (fill_payload kind m payload k)
unfolding fill_payload
fill_payload-NoMore request m payload k = record { current = refl; waits = λ p live. omega arith }
fill_payload-NoMore _ m payload k = record { current = refl; waits = λ p live. omega arith }

fill_message-NoMore :
    (m p payload sender : ℕ) (k : Kernel) → NoMore k (fill_message m p payload sender k)
unfolding fill_message
fill_message-NoMore m p payload sender k =
    let u = record k { m_sender = update k.m_sender m sender } in
    let e = fill_payload-NoMore _ m payload u in record { current = e.current; waits = e.waits }

deliver-NoMore : (m q : ℕ) (k : Kernel) → NoMore k (deliver m q k).1
unfolding deliver
deliver-NoMore m q k = elim (Bool-cases ((q == k.current_process) || has q k.ready_queue)) [
  | inl near ↦ rw near record { current = refl; waits = λ p live. omega arith }
  | inr far ↦ elim (Bool-cases (has q (k.blocked_proc sem_dev_len))) [
    | inl there ↦
        let e = ready_process-NoMore sem_dev_len q k (omega arith) there in
        rw (far, there) record { current = e.current; waits = e.waits }
    | inr nowhere ↦ rw (far, nowhere) (NoMore-refl k)
  ]
]

send_message-on :
    (q payload sender : ℕ) (k : Kernel) (ms : List ℕ)
    → (q == null) ≡ false
    → k.msg_free ≡ ms
    → NoMore k (send_message q payload sender k).1
unfolding send_message
send_message-on q payload sender k [] live e =
    rw (live, e) record { current = refl; waits = λ p live. omega arith }
send_message-on q payload sender k (m ∷ ms) live e = elim (Bool-cases (has q k.pcb_free)) [
  | inl dead ↦ rw (live, e, dead) record { current = refl; waits = λ p live. omega arith }
  | inr alive ↦
      let u = take_msg m ms k in
      let d =
        NoMore-trans (fill_message-NoMore m q payload sender u)
          (deliver-NoMore m q (fill_message m q payload sender u)) in
      rw (live, e, alive) record { current = d.current; waits = d.waits }
]

-- `SendMessage`, to whomever and whether it succeeds or not.
pub send_message-NoMore :
    (q payload sender : ℕ) (k : Kernel) → NoMore k (send_message q payload sender k).1
unfolding send_message
send_message-NoMore q payload sender k = elim (Bool-cases (q == null)) [
  | inl none ↦ rw none (NoMore-refl k)
  | inr some ↦ send_message-on q payload sender k k.msg_free some refl
]
