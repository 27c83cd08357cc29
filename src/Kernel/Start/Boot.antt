-- ===== src/Kernel/Start/Boot.antt =====
-- The state that `main` of phase2/initial.c hands over to the first process.
use progetto_so.Base.{
  ℕ, zero, suc, ◌+◌, ◌<◌, ◌≡◌, ◌≢◌, refl, sym, ◌∙◌, ap, List, [], ◌∷◌, update, arith, ==-false,
  ==-refl, if◌then◌else◌, ◌&&◌, leb, ltb,
}
use progetto_so.Listx.{null}
use progetto_so.Kernel.State.{Kernel}
use progetto_so.Kernel.Run.{final, Run, ldst, stops}
use progetto_so.Kernel.Scheduler.{interval_tod, dispatch, scheduler}
use progetto_so.Kernel.Interrupts.{psecond}
use progetto_so.Kernel.Start.{
  Machinery, devnum, empty_lists_from, init_ssi, init_test, init_nucleus, pass_up_vector, main,
}

-- The service interface `p` runs, the test process `q` is ready, and there is nothing else.
pub record Booted (h : Machinery) (p q : ℕ) (ps : List ℕ) (t : Kernel) : Type 0 where
  pub current : t.current_process ≡ p
  pub ssi : t.ssi_pcb ≡ p
  pub test : t.test_pcb ≡ q
  pub ready : t.ready_queue ≡ q ∷ []
  pub blocked : (i : ℕ) → i < devnum → t.blocked_proc i ≡ []
  pub pcb_free : t.pcb_free ≡ ps
  pub msg_free : t.msg_free ≡ h.msg_entries
  pub counted : t.process_count ≡ 2
  pub none_blocked : t.soft_block_count ≡ 0
  pub pids : (t.p_pid p ≡ 1) × (t.p_pid q ≡ 2)
  pub inboxes : (t.msg_inbox p ≡ []) × (t.msg_inbox q ≡ [])
  pub children : (t.p_child p ≡ []) × (t.p_child q ≡ [])
  pub starts_at : ((t.p_s p).pc_epc ≡ h.ssi_code) × ((t.p_s q).pc_epc ≡ h.test_code)

-- What the loop over the lists leaves alone.
record IsEmptied (rounds i : ℕ) (k t : Kernel) : Type 0 where
  lists :
      (j : ℕ) → t.blocked_proc j ≡ (if leb i j && ltb j (i + rounds) then [] else k.blocked_proc j)
  same : t ≡ record k { blocked_proc = t.blocked_proc }

empty_lists_from-IsEmptied :
    (rounds i : ℕ) (k : Kernel) → IsEmptied rounds i k (empty_lists_from rounds i k)
unfolding empty_lists_from
empty_lists_from-IsEmptied zero i k = record { lists = λ j. ground arith; same = refl }
empty_lists_from-IsEmptied (suc rounds) i k =
    let u = record k { blocked_proc = update k.blocked_proc i [] } in
    let rest = empty_lists_from-IsEmptied rounds (i + 1) u in
    record { lists = λ j. rest.lists j ∙ ground arith; same = rest.same }

-- The nucleus before the first process is made.
record IsReset (h : Machinery) (next_pid : ℕ) (k : Kernel) : Type 0 where
  pcb_free : k.pcb_free ≡ h.pcb_entries
  msg_free : k.msg_free ≡ h.msg_entries
  ready : k.ready_queue ≡ []
  blocked : (i : ℕ) → i < devnum → k.blocked_proc i ≡ []
  counted : k.process_count ≡ 0
  none_blocked : k.soft_block_count ≡ 0
  pid : k.next_pid ≡ next_pid

init_nucleus-IsReset : (h : Machinery) (k : Kernel) → IsReset h k.next_pid (init_nucleus h k)
unfolding init_nucleus pass_up_vector
init_nucleus-IsReset h k =
    let v = record (pass_up_vector h k) {
      pcb_free = h.pcb_entries;
      msg_free = h.msg_entries;
      process_count = 0;
      soft_block_count = 0;
      ready_queue = [];
      current_process = null;
    } in
    let e = empty_lists_from-IsEmptied devnum 0 v in
    record {
      pcb_free = ap (λ u. u.pcb_free) e.same;
      msg_free = ap (λ u. u.msg_free) e.same;
      ready = ap (λ u. u.ready_queue) e.same;
      blocked = λ i b. e.lists i ∙ ground (arith, b);
      counted = ap (λ u. u.process_count) e.same;
      none_blocked = ap (λ u. u.soft_block_count) e.same;
      pid = ap (λ u. u.next_pid) e.same;
    }

abbrev rest : Machinery → Kernel → Run (Unit {0})
rest h k = scheduler h.tod (init_test h (init_ssi h k))

-- The rest of `main`.
starts-Booted :
    (h : Machinery) (p q : ℕ) (ps : List ℕ) (k : Kernel)
    → h.pcb_entries ≡ p ∷ q ∷ ps
    → p ≢ null
    → q ≢ null
    → p ≢ q
    → IsReset h 1 k
    → (rest h k ≡ stops (ldst ((final (rest h k)).p_s p)) (final (rest h k)))
      × Booted h p q ps (final (rest h k))
unfolding init_ssi init_test scheduler dispatch interval_tod
starts-Booted h p q ps k entries pn qn pq r =
    let apart = ==-false p q pq in
    let back = ==-false q p (λ e. pq (sym e)) in
    rw (r.pcb_free, entries, r.ready, ==-false p null pn, ==-false q null qn)
      (
        refl,
        record {
          current = refl;
          ssi = refl;
          test = refl;
          ready = refl;
          blocked = r.blocked;
          pcb_free = refl;
          msg_free = r.msg_free;
          counted = rw r.counted refl;
          none_blocked = r.none_blocked;
          pids = rw (apart, ==-refl p, ==-refl q, r.pid) (refl, refl);
          inboxes = rw (apart, ==-refl p, ==-refl q) (refl, refl);
          children = rw (apart, ==-refl p, ==-refl q) (refl, refl);
          starts_at = rw (back, apart, ==-refl p, ==-refl q) (refl, refl);
        },
      )

-- With two blocks or more in the table, `main` gives the processor to the service interface, at its first
-- instruction and with the identifier 1; the test process with the identifier 2 is the only ready one, both are
-- counted, no process is blocked, all messages and the other blocks are free.
pub main-Booted :
    (h : Machinery) (p q : ℕ) (ps : List ℕ) (k : Kernel)
    → h.pcb_entries ≡ p ∷ q ∷ ps
    → p ≢ null
    → q ≢ null
    → p ≢ q
    → k.next_pid ≡ 1
    → (t : Kernel) × (main h k ≡ stops (ldst (t.p_s p)) t) × Booted h p q ps t
unfolding main
main-Booted h p q ps k entries pn qn pq pid =
    let r = init_nucleus-IsReset h k in
    let u = record (init_nucleus h k) { interval_timer = psecond } in
    let (e, b) = starts-Booted h p q ps u entries pn qn pq record {
      pcb_free = r.pcb_free;
      msg_free = r.msg_free;
      ready = r.ready;
      blocked = r.blocked;
      counted = r.counted;
      none_blocked = r.none_blocked;
      pid = r.pid ∙ pid;
    } in
    (final (rest h u), e, b)
