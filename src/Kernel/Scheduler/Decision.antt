-- ===== src/Kernel/Scheduler/Decision.antt =====
-- What `scheduler` of phase2/scheduler.c decides.
use Prim.Native.Nat.{bit_and, bit_or}
use progetto_so.Base.{
  ℕ, ◌<◌, ◌≤◌, ◌≡◌, refl, ◌∙◌, List, [], ◌∷◌, ◌==◌, true, Bool-cases, inl, inr, arith,
}
use progetto_so.Pcb.Queue.{head_or_null}
use progetto_so.Listx.{null}
use progetto_so.Kernel.State.{Kernel, sem_dev_len, int_max}
use progetto_so.Kernel.Run.{final, Stop, stops, ldst, ldcxt, halt, panic, wait, out_of_fuel, int_gt}
use progetto_so.Kernel.Scheduler.{
  iecon, imon, tebitoff, interval_tod, no_ready_process, dispatch, scheduler,
}

-- Why control leaves the scheduler in this way: to the first ready process, which is taken from the queue and runs; to
-- HALT when only one process is left; to WAIT when more are left and some wait for a device or the clock; to PANIC
-- when none does. In the last three no process is ready.
abbrev pub IsReason : (k : Kernel) → Stop → Kernel → Type 0
IsReason k (ldst s) t =
    (k.ready_queue ≡ t.current_process ∷ t.ready_queue) × (s ≡ t.p_s t.current_process)
IsReason k halt t = (k.ready_queue ≡ []) × (k.process_count ≡ 1)
IsReason k wait t = (k.ready_queue ≡ []) × (1 < k.process_count) × (0 < k.soft_block_count)
IsReason k panic t = (k.ready_queue ≡ []) × (1 < k.process_count) × (k.soft_block_count ≡ 0)
IsReason k (ldcxt support index) t = ⊥
IsReason k out_of_fuel t = ⊥

-- The counters are not negative, some process is left, and if only one is, it is the service interface, which waits for
-- messages.
pub record IsCounted (k : Kernel) : Type 0 where
  pub processes : (0 < k.process_count) × (k.process_count ≤ int_max)
  pub blocked : k.soft_block_count ≤ int_max
  pub last_is_ssi :
      k.process_count ≡ 1 → (k.p_pid (head_or_null (k.blocked_proc sem_dev_len)) == 1) ≡ true

abbrev waiting : Kernel → Kernel
waiting u = record u { cpu_status = bit_and (bit_or u.cpu_status (bit_or iecon imon)) tebitoff }

no_ready_process-IsReason :
    (tod : ℕ → ℕ) (k u : Kernel)
    → IsCounted k
    → k.ready_queue ≡ []
    → u.process_count ≡ k.process_count
    → u.soft_block_count ≡ k.soft_block_count
    → (k.process_count ≡ 1 → (u.p_pid (head_or_null (u.blocked_proc sem_dev_len)) == 1) ≡ true)
    → (e : Stop) × (t : Kernel) × (no_ready_process tod u ≡ stops e t) × IsReason k e t
unfolding no_ready_process
no_ready_process-IsReason tod k u c empty same_p same_s ssi =
    elim (Bool-cases (k.process_count == 1)) [
      | inl one ↦
          let is_one : k.process_count ≡ 1 = ground arith in
          (halt, u, rw (same_p, one, ssi is_one) refl, (empty, is_one))
      | inr more ↦
          let many : 1 < k.process_count = ground (arith, c) in
          let gt_1 : int_gt k.process_count 1 ≡ true = ground (arith, c, many) in
          elim (Bool-cases (k.soft_block_count == 0)) [
            | inl none_blocked ↦
                let zero_soft : k.soft_block_count ≡ 0 = ground arith in
                let gt_0 : int_gt k.process_count 0 ≡ true = ground (arith, c, many) in
                (
                  panic,
                  u,
                  rw (same_p, same_s, more, gt_1, gt_0, zero_soft) refl,
                  (empty, many, zero_soft),
                )
            | inr some_blocked ↦
                let soft : 0 < k.soft_block_count = ground arith in
                let gt_s : int_gt k.soft_block_count 0 ≡ true = ground (arith, c, soft) in
                (wait, waiting u, rw (same_p, same_s, more, gt_1, gt_s) refl, (empty, many, soft))
          ]
    ]

-- The dispatcher loads the process.
pub dispatch-loads :
    (tod : ℕ → ℕ) (p : ℕ) (k : Kernel)
    → (dispatch tod p k
        ≡ stops (ldst ((final (dispatch tod p k)).p_s p)) (final (dispatch tod p k)))
      × ((final (dispatch tod p k)).current_process ≡ k.current_process)
      × ((final (dispatch tod p k)).ready_queue ≡ k.ready_queue)
unfolding dispatch interval_tod
dispatch-loads tod p k = (refl, refl, refl)

pub scheduler-no_ready_process :
    (tod : ℕ → ℕ) (k : Kernel)
    → k.ready_queue ≡ []
    → scheduler tod k ≡ no_ready_process tod (record k { current_process = null })
unfolding scheduler
scheduler-no_ready_process tod k queue = rw queue refl

pub scheduler-dispatch :
    (tod : ℕ → ℕ) (p : ℕ) (ps : List ℕ) (k : Kernel)
    → k.ready_queue ≡ p ∷ ps
    → scheduler tod k ≡ dispatch tod p (record k { current_process = p; ready_queue = ps })
unfolding scheduler
scheduler-dispatch tod p ps k queue = rw queue refl

scheduler-on :
    (tod : ℕ → ℕ) (k : Kernel) (q : List ℕ)
    → IsCounted k
    → k.ready_queue ≡ q
    → (e : Stop) × (t : Kernel) × (scheduler tod k ≡ stops e t) × IsReason k e t
scheduler-on tod k [] c queue =
    let u = record k { current_process = null } in
    let (e, t, r, why) = no_ready_process-IsReason tod k u c queue refl refl c.last_is_ssi in
    (e, t, scheduler-no_ready_process tod k queue ∙ r, why)
scheduler-on tod k (p ∷ ps) c queue =
    let u = record k { current_process = p; ready_queue = ps } in
    let t = final (dispatch tod p u) in
    let (r, current, ready) = dispatch-loads tod p u in
    (
      ldst (t.p_s p),
      t,
      scheduler-dispatch tod p ps k queue ∙ r,
      (queue ∙ rw (current, ready) refl, rw current refl),
    )

-- The scheduler never returns, and control goes where the reason is.
pub scheduler-IsReason :
    (tod : ℕ → ℕ) (k : Kernel)
    → IsCounted k
    → (e : Stop) × (t : Kernel) × (scheduler tod k ≡ stops e t) × IsReason k e t
scheduler-IsReason tod k c = scheduler-on tod k k.ready_queue c refl
