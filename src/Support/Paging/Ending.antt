-- ===== src/Support/Paging/Ending.antt =====
-- The end of a user process: `UTerminate` of phase3/initProc.c.
use progetto_so.Base.{
  ℕ, zero, suc, ◌+◌, ◌<◌, ◌≡◌, ◌≢◌, inl, inr, refl, ◌∙◌, ◌==◌, ◌&&◌, leb, ltb, none, some,
  Bool-cases, List, ◌∷◌, if◌then◌else◌, update, arith, ==-false,
}
use progetto_so.Listx.{null}
use progetto_so.Support.State.{
  Call, send, receive, nothing, end_request, Answer, Swap, Level, World, returns, final,
}
use progetto_so.Support.Calls.{request, deallocate, signal_uproc_termination, terminate_proc}
use progetto_so.Support.Paging.{
  poolsize, free_frame, free_frames_from, gain_pool, release_pool, free_frames, uterminate,
}
use progetto_so.Support.Syscalls.{answered-syscall, silent-syscall, syscall-cases}

-- Messages are sent at once, and the mutex process of the pool answers.
pub record IsAnswered (w : World) (mutex : ℕ) : Type 0 where
  pub sends : (p : ℕ) (x : _) (cs : List Call) → (a : Answer) × (w.answer (send p x ∷ cs) ≡ some a)
  pub grants : (cs : List Call) → (a : Answer) × (w.answer (receive mutex ∷ cs) ≡ some a)

-- The table without the frames of a process.
abbrev pub without : (asid : ℕ) → (ℕ → Swap) → ℕ → Swap
without asid pool i = if (pool i).sw_asid == asid then free_frame else pool i

free_frames_from-without :
    (asid rounds i : ℕ) (l : Level)
    → (t : ℕ → Swap) × (free_frames_from asid rounds i l ≡ record l { swap_pool_table = t })
      × ((j : ℕ)
          → t j ≡ (
              if leb i j && ltb j (i + rounds)
              then without asid l.swap_pool_table j
              else l.swap_pool_table j))
unfolding free_frames_from
free_frames_from-without asid zero i l = (l.swap_pool_table, refl, λ j. ground arith)
free_frames_from-without asid (suc rounds) i l =
    elim (Bool-cases ((l.swap_pool_table i).sw_asid == asid)) [
      | inl mine ↦
          let u = record l { swap_pool_table = update l.swap_pool_table i free_frame } in
          let (t, e, f) = free_frames_from-without asid rounds (i + 1) u in
          (
            t,
            rw (mine, free_frames_from) e,
            λ j. f j ∙ elim (Bool-cases (j == i)) [
              | inl here ↦ let same : j ≡ i = ground arith in rw same (ground (arith, mine))
              | inr away ↦ ground (arith, away)
            ],
          )
      | inr other ↦
          let (t, e, f) = free_frames_from-without asid rounds (i + 1) l in
          (
            t,
            rw (other, free_frames_from) e,
            λ j. f j ∙ elim (Bool-cases (j == i)) [
              | inl here ↦ let same : j ≡ i = ground arith in rw same (ground (arith, other))
              | inr away ↦ ground (arith, away)
            ],
          )
    ]

module _ (w : World) (l : Level) (m : IsAnswered w l.swap_mutex_proc) where
  gain_pool-answered :
      gain_pool w l
      ≡ returns tt (record l {
        calls = receive l.swap_mutex_proc ∷ send l.swap_mutex_proc nothing ∷ l.calls;
      })
  unfolding gain_pool
  gain_pool-answered =
      let first = send l.swap_mutex_proc nothing in
      let (a, e) = m.sends l.swap_mutex_proc nothing l.calls in
      let (b, f) = m.grants (first ∷ l.calls) in
      rw
        (
          answered-syscall w first l a e,
          answered-syscall w (receive l.swap_mutex_proc) (record l { calls = first ∷ l.calls }) b f,
        )
        refl

  pub release_pool-answered :
      release_pool w l ≡ returns tt (record l { calls = send l.swap_mutex_proc nothing ∷ l.calls })
  unfolding release_pool
  release_pool-answered =
      let (a, e) = m.sends l.swap_mutex_proc nothing l.calls in
      rw (answered-syscall w (send l.swap_mutex_proc nothing) l a e) refl

  signal-answered :
      signal_uproc_termination w l
      ≡ returns tt (record l { calls = send l.test_pcb nothing ∷ l.calls })
  unfolding signal_uproc_termination
  signal-answered =
      let (a, e) = m.sends l.test_pcb nothing l.calls in
      rw (answered-syscall w (send l.test_pcb nothing) l a e) refl

  terminate_proc-final :
      (p : ℕ)
      → final (terminate_proc w p l)
        ≡ record l { calls = receive l.ssi_pcb ∷ send l.ssi_pcb (end_request p) ∷ l.calls }
  unfolding terminate_proc request
  terminate_proc-final p =
      let first = send l.ssi_pcb (end_request p) in
      let (a, e) = m.sends l.ssi_pcb (end_request p) l.calls in
      rw (answered-syscall w first l a e)
        (elim (syscall-cases w (receive l.ssi_pcb) (record l { calls = first ∷ l.calls })) [
          | inl (b, i, f) ↦ rw f refl
          | inr f ↦ rw f refl
        ])

-- What is left of a user process with the support structure `s`.
pub record Ended (u s : ℕ) (l t : Level) : Type 0 where
  pub pool :
      (j : ℕ) → j < poolsize → t.swap_pool_table j ≡ without (l.sup_asid s) l.swap_pool_table j
  pub free_support : t.free_support ≡ s ∷ l.free_support
  pub calls :
      t.calls
      ≡ receive l.ssi_pcb
        ∷ send l.ssi_pcb (end_request (l.p_parent u))
        ∷ send l.test_pcb nothing
        ∷ send l.swap_mutex_proc nothing
        ∷ receive l.swap_mutex_proc
        ∷ send l.swap_mutex_proc nothing
        ∷ l.calls

-- `UTerminate` of a process with a support structure, where messages are sent at once and the pool's mutex process
-- answers.
pub uterminate_answered :
    (w : World) (u : ℕ) (l : Level)
    → IsAnswered w l.swap_mutex_proc
    → l.p_support u ≢ null
    → Ended u (l.p_support u) l (final (uterminate w u l))
unfolding uterminate free_frames deallocate
uterminate_answered w u l m live =
    let gained = record l {
      calls = receive l.swap_mutex_proc ∷ send l.swap_mutex_proc nothing ∷ l.calls;
    } in
    let (pool, e, f) = free_frames_from-without (l.sup_asid (l.p_support u)) poolsize 0 gained in
    let freed = record gained { swap_pool_table = pool } in
    let released = record freed { calls = send l.swap_mutex_proc nothing ∷ gained.calls } in
    let given = record released { free_support = l.p_support u ∷ l.free_support } in
    let told = record given { calls = send l.test_pcb nothing ∷ released.calls } in
    let last = terminate_proc-final w told m (l.p_parent u) in
    rw
      (
        ==-false (l.p_support u) null live,
        gain_pool-answered w l m,
        e,
        release_pool-answered w freed m,
        signal-answered w given m,
        last,
      )
      record { pool = λ j b. f j ∙ ground (arith, b); free_support = refl; calls = refl }

-- The pool's mutex process never answers: the table is as it was.
uterminate_waiting :
    (w : World) (u : ℕ) (l : Level) (a : Answer)
    → l.p_support u ≢ null
    → w.answer (send l.swap_mutex_proc nothing ∷ l.calls) ≡ some a
    → w.answer (receive l.swap_mutex_proc ∷ send l.swap_mutex_proc nothing ∷ l.calls) ≡ none
    → (final (uterminate w u l)).swap_pool_table ≡ l.swap_pool_table
unfolding uterminate free_frames gain_pool
uterminate_waiting w u l a live e silent =
    let first = send l.swap_mutex_proc nothing in
    rw
      (
        ==-false (l.p_support u) null live,
        answered-syscall w first l a e,
        silent-syscall w (receive l.swap_mutex_proc) (record l { calls = first ∷ l.calls }) silent,
      )
      refl

-- It answers, and the message that gives the pool back is the last: the frames are free then.
uterminate_inside :
    (w : World) (u : ℕ) (l : Level) (a b : Answer)
    → l.p_support u ≢ null
    → w.answer (send l.swap_mutex_proc nothing ∷ l.calls) ≡ some a
    → w.answer (receive l.swap_mutex_proc ∷ send l.swap_mutex_proc nothing ∷ l.calls) ≡ some b
    → w.answer (
        send l.swap_mutex_proc nothing
        ∷ receive l.swap_mutex_proc
        ∷ send l.swap_mutex_proc nothing
        ∷ l.calls)
      ≡ none
    → (j : ℕ) → j < poolsize
    → (final (uterminate w u l)).swap_pool_table j
      ≡ without (l.sup_asid (l.p_support u)) l.swap_pool_table j
unfolding uterminate free_frames gain_pool release_pool
uterminate_inside w u l a b live e f silent j low =
    let first = send l.swap_mutex_proc nothing in
    let gained = record l { calls = receive l.swap_mutex_proc ∷ first ∷ l.calls } in
    let (pool, g, h) = free_frames_from-without (l.sup_asid (l.p_support u)) poolsize 0 gained in
    rw
      (
        ==-false (l.p_support u) null live,
        answered-syscall w first l a e,
        answered-syscall w (receive l.swap_mutex_proc) (record l { calls = first ∷ l.calls }) b f,
        g,
        silent-syscall w first (record gained { swap_pool_table = pool }) silent,
      )
      (h j ∙ ground (arith, low))

-- `UTerminate` of a process with a support structure. Where messages are sent at once and the pool's mutex process
-- answers (`w`), it gains the pool, frees exactly the frames of the process, gives the pool back, frees the support
-- structure, tells the test process and only then asks the service interface to end the parent, whether that request
-- is ever answered or not. Where the mutex process never answers (`x`), the table of the pool is left as it was; where
-- it answers and nothing goes on after the message that gives the pool back (`v`), exactly the frames of the process
-- are free already: they become free between the answer and that message.
pub uterminate-Ended :
    (w x v : World) (u : ℕ) (l : Level) (a b c : Answer)
    → l.p_support u ≢ null
    → IsAnswered w l.swap_mutex_proc
    → x.answer (send l.swap_mutex_proc nothing ∷ l.calls) ≡ some a
    → x.answer (receive l.swap_mutex_proc ∷ send l.swap_mutex_proc nothing ∷ l.calls) ≡ none
    → v.answer (send l.swap_mutex_proc nothing ∷ l.calls) ≡ some b
    → v.answer (receive l.swap_mutex_proc ∷ send l.swap_mutex_proc nothing ∷ l.calls) ≡ some c
    → v.answer (
        send l.swap_mutex_proc nothing
        ∷ receive l.swap_mutex_proc
        ∷ send l.swap_mutex_proc nothing
        ∷ l.calls)
      ≡ none
    → Ended u (l.p_support u) l (final (uterminate w u l))
      × ((final (uterminate x u l)).swap_pool_table ≡ l.swap_pool_table)
      × ((j : ℕ)
          → j < poolsize
          → (final (uterminate v u l)).swap_pool_table j
            ≡ without (l.sup_asid (l.p_support u)) l.swap_pool_table j)
uterminate-Ended w x v u l a b c live m first_x silent_x first_v second_v silent_v = (
  uterminate_answered w u l m live,
  uterminate_waiting x u l a live first_x silent_x,
  uterminate_inside v u l b c live first_v second_v silent_v,
)
