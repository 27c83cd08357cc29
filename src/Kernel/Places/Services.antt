-- ===== src/Kernel/Places/Services.antt =====
-- The places of a process under the services of phase2/ssi.c that move processes.
use progetto_so.Base.{
  ℕ, ◌+◌, ◌<◌, ◌≡◌, ◌≢◌, refl, sym, subst, inl, inr, true, List, [], ◌∷◌, ◌==◌, ◌⊎◌, has, erase,
  update, if◌then◌else◌, arith, Bool-cases,
}
use progetto_so.Listx.{null}
use progetto_so.Kernel.State.{Kernel, ProcState, sem_dev_len, clock_list}
use progetto_so.Kernel.Run.{minus_one, add_word}
use progetto_so.Kernel.Queues.{out_ready, out_blocked}
use progetto_so.Kernel.Start.{devnum}
use progetto_so.Kernel.Devices.{get_io_device_index}
use progetto_so.Kernel.Services.{
  take_pcb, insert_child, start_process, send_response, create_process_service, doio_service,
  insert_clock, wait_for_clock_ready, wait_for_clock_blocked, wait_for_clock_service,
}
use progetto_so.Kernel.Places.{count, waiting, count-erase}
use progetto_so.Kernel.Places.Moves.{
  NoMore, NoMore-refl, NoMore-trans, NoMore-if, waiting-insert_ready, waiting-insert_blocked,
  waiting-update, out_ready-NoMore, out_blocked-NoMore, send_message-NoMore,
}

send_response-NoMore :
    (response_at q value : ℕ) (k : Kernel) → NoMore k (send_response response_at q value k)
unfolding send_response
send_response-NoMore response_at q value k =
    let s =
      send_message-NoMore q response_at k.current_process
        (record k { word = update k.word response_at value }) in
    record { current = s.current; waits = s.waits }

insert_child-NoMore : (parent p : ℕ) (k : Kernel) → NoMore k (insert_child parent p k)
insert_child-NoMore parent p k =
    NoMore-if (parent == null) (NoMore-refl k) (
      NoMore-if (p == null) (NoMore-refl k)
        record { current = refl; waits = λ q live. omega arith })

-- The first free block is ready.
started-NoMore :
    (response_at sender p : ℕ) (ps : List ℕ) (state : ProcState) (support : ℕ) (k : Kernel)
    → k.pcb_free ≡ p ∷ ps
    → NoMore k (start_process response_at sender p state support (take_pcb p ps k))
unfolding start_process
started-NoMore response_at sender p ps state support k e =
    let u = take_pcb p ps k in
    let made = record u {
      process_count = add_word u.process_count 1;
      p_s = update u.p_s p state;
      p_support = update u.p_support p support;
      p_time = update u.p_time p 0;
    } in
    let c = insert_child-NoMore sender p made in
    record {
      current = c.current;
      waits = λ q live.
          let first : count q k.pcb_free ≡ (if q == p then 1 else 0) + count q ps = rw e refl in
          omega (
            arith,
            c.waits q live,
            first,
            waiting-insert_ready q p (insert_child sender p made) live,
          );
    }

module _ (response_at : ℕ) (state_at : (ℕ → ℕ) → ℕ → ProcState) (sender args : ℕ) (k : Kernel) where
  create_process_service-none :
      k.pcb_free ≡ []
      → create_process_service response_at state_at sender args k
        ≡ send_response response_at sender minus_one k
  unfolding create_process_service
  create_process_service-none e = simp (e, create_process_service) refl

  create_process_service-first :
      (p : ℕ) (ps : List ℕ)
      → k.pcb_free ≡ p ∷ ps
      → create_process_service response_at state_at sender args k
        ≡ send_response response_at sender p (
            start_process response_at sender p
              (state_at k.word (k.word args))
              (k.word (args + 4))
              (take_pcb p ps k))
  unfolding create_process_service
  create_process_service-first p ps e = rw (e, create_process_service) refl

  create_process_service-on :
      (q : List ℕ)
      → k.pcb_free ≡ q
      → NoMore k (create_process_service response_at state_at sender args k)
  create_process_service-on [] e =
      subst (NoMore k) (sym (create_process_service-none e))
        (send_response-NoMore response_at sender minus_one k)
  create_process_service-on (p ∷ ps) e =
      subst (NoMore k) (sym (create_process_service-first p ps e)) (
        NoMore-trans
          (started-NoMore response_at sender p ps (state_at k.word (k.word args))
            (k.word (args + 4)) k e)
          (send_response-NoMore response_at sender p _))

pub create_process_service-NoMore :
    (response_at : ℕ) (state_at : (ℕ → ℕ) → ℕ → ProcState) (sender args : ℕ) (k : Kernel)
    → NoMore k (create_process_service response_at state_at sender args k)
create_process_service-NoMore response_at state_at sender args k =
    create_process_service-on response_at state_at sender args k k.pcb_free refl

insert_clock-waits :
    (p q : ℕ) (k : Kernel)
    → p ≢ null
    → waiting p (insert_clock q k) ≡ (if p == q then 1 else 0) + waiting p k
insert_clock-waits p q k live = waiting-insert_blocked clock_list p q k (omega arith) live

wait_for_clock_ready-NoMore : (q : ℕ) (k : Kernel) → NoMore k (wait_for_clock_ready q k)
unfolding wait_for_clock_ready
wait_for_clock_ready-NoMore q k = elim (Bool-cases (has q k.ready_queue)) [
  | inl there ↦ rw there record {
    current = refl;
    waits = λ p live.
        omega
          (arith, insert_clock-waits p q (out_ready q k) live, count-erase p q k.ready_queue there);
  }
  | inr away ↦ rw away (NoMore-refl k)
]

wait_for_clock_blocked-NoMore : (q : ℕ) (k : Kernel) → NoMore k (wait_for_clock_blocked q k)
unfolding wait_for_clock_blocked
wait_for_clock_blocked-NoMore q k = elim (Bool-cases (has q (k.blocked_proc sem_dev_len))) [
  | inl there ↦ rw there record {
    current = refl;
    waits = λ p live. omega (
      arith,
      insert_clock-waits p q (out_blocked sem_dev_len q k) live,
      waiting-update sem_dev_len p (if p == q then 1 else 0) (erase q (k.blocked_proc sem_dev_len))
          k (omega arith) (count-erase p q (k.blocked_proc sem_dev_len) there),
    );
  }
  | inr away ↦ rw away (NoMore-refl k)
]

pub wait_for_clock_service-NoMore : (q : ℕ) (k : Kernel) → NoMore k (wait_for_clock_service q k)
unfolding wait_for_clock_service
wait_for_clock_service-NoMore q k =
    NoMore-trans (wait_for_clock_ready-NoMore q k)
      (wait_for_clock_blocked-NoMore q (wait_for_clock_ready q k))

-- `DoIO` for a process that is ready or waits for messages.
pub doio_service-NoMore :
    (dev_start dev_size q arg : ℕ) (k : Kernel)
    → get_io_device_index dev_start dev_size (k.word arg) < devnum
    → (has q k.ready_queue ≡ true) ⊎ (has q (k.blocked_proc sem_dev_len) ≡ true)
    → NoMore k (doio_service dev_start dev_size q arg k)
unfolding doio_service
doio_service-NoMore dev_start dev_size q arg k b place =
    let i = get_io_device_index dev_start dev_size (k.word arg) in
    let u = out_ready q k in
    let v = out_blocked sem_dev_len q u in
    let xs = erase q (k.blocked_proc sem_dev_len) in
    record {
      current = refl;
      waits = λ p live. elim place [
        | inl ready ↦ omega (
          arith,
          waiting-insert_blocked i p q v b live,
          (out_blocked-NoMore sem_dev_len q u (omega arith)).waits p live,
          count-erase p q k.ready_queue ready,
        )
        | inr waits ↦ omega (
          arith,
          waiting-insert_blocked i p q v b live,
          waiting-update sem_dev_len p (if p == q then 1 else 0) xs u (omega arith)
              (count-erase p q (k.blocked_proc sem_dev_len) waits),
          (out_ready-NoMore q k).waits p live,
        )
      ];
    }
