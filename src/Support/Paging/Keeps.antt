-- ===== src/Support/Paging/Keeps.antt =====
-- Properties of the swap pool table that the actions of phase3/vmSupport.c keep, whether they return or not.
use Prim.Native.Nat.{bit_and}
use progetto_so.Base.{
  ℕ, zero, suc, ◌+◌, ◌≡◌, ◌⊎◌, refl, List, ◌∷◌, Option, none, some, ◌==◌, ◌||◌, update, Bool, true,
  false, Bool-cases, inl, inr, if◌then◌else◌,
}
use progetto_so.Listx.{null}
use progetto_so.Support.State.{
  Call, send, receive, nothing, End, never_answered, Payload, Swap, Level, World, Result, returns,
  ends, Act, and_then, ◌>>=◌, final, answered, done, syscall,
}
use progetto_so.Support.Syscalls.{syscall-cases}
use progetto_so.Support.Calls.{request, do_io, terminate_proc, signal_uproc_termination, deallocate}
use progetto_so.Support.Paging.{
  poolsize, validon, complement, disable_interrupts, free_frame, free_frames_from, gain_pool,
  release_pool, free_frames, uterminate, trap_exception_handler, backing_store_operation,
  update_tlb, unmap_page, store_page,
}

-- The two system calls by which the pool is gained change nothing else of the level, answered or not.
pub gain_pool-cases :
    (w : World) (l : Level)
    → ((cs : List Call) × (gain_pool w l ≡ returns tt (record l { calls = cs })))
      ⊎ ((e : End) × (cs : List Call) × (gain_pool w l ≡ ends e (record l { calls = cs })))
unfolding gain_pool
gain_pool-cases w l =
    let first = send l.swap_mutex_proc nothing in
    elim (syscall-cases w first l) [
      | inr e ↦ inr (never_answered, first ∷ l.calls, rw e refl)
      | inl (a, i, e) ↦
          elim (syscall-cases w (receive l.swap_mutex_proc)
            (record l { calls = first ∷ l.calls })) [
              | inr f ↦
                  inr (never_answered, receive l.swap_mutex_proc ∷ first ∷ l.calls, rw (e, f) refl)
              | inl (b, j, f) ↦ inl (receive l.swap_mutex_proc ∷ first ∷ l.calls, rw (e, f) refl)
            ]
    ]

-- A property of the table and of the EntryHi words, which stays when an entry becomes free.
module _ (R : (ℕ → Swap) → (ℕ → ℕ) → Type 0) where
  abbrev pub Keeps : {A : Type 0} → Act A → Type 0
  Keeps m =
      (l : Level)
      → R l.swap_pool_table l.pte_hi
      → R (final (m l)).swap_pool_table (final (m l)).pte_hi

  pub and_then-Keeps :
      {A B : Type 0} (r : Result A) (f : A → Act B)
      → R (final r).swap_pool_table (final r).pte_hi
      → ((a : A) → Keeps (f a))
      → R (final (and_then r f)).swap_pool_table (final (and_then r f)).pte_hi
  and_then-Keeps (returns a l) f h k = k a l h
  and_then-Keeps (ends e l) f h k = h

  pub bind-Keeps :
      {A B : Type 0} (m : Act A) (f : A → Act B)
      → Keeps m
      → ((a : A) → Keeps (f a))
      → Keeps (m >>= f)
  bind-Keeps m f h k l r = and_then-Keeps (m l) f (h l r) k

  pub if-Keeps :
      {A : Type 0} (b : Bool) (m n : Act A) → Keeps m → Keeps n → Keeps (if b then m else n)
  if-Keeps true m n h k = h
  if-Keeps false m n h k = k

  choose-Keeps :
      (b : Bool) (u v : Level)
      → R u.swap_pool_table u.pte_hi
      → R v.swap_pool_table v.pte_hi
      → R (if b then u else v).swap_pool_table (if b then u else v).pte_hi
  choose-Keeps true u v h k = h
  choose-Keeps false u v h k = k

  answered-Keeps : (a : Option _) → Keeps (answered a)
  answered-Keeps none l h = h
  answered-Keeps (some a) l h = h

  module _ (w : World) where
    pub syscall-Keeps : (c : Call) → Keeps (syscall w c)
    unfolding syscall
    syscall-Keeps c l h =
        answered-Keeps (w.answer (c ∷ l.calls)) (record l { calls = c ∷ l.calls }) h

    request-Keeps : (p : Payload) → Keeps (request w p)
    unfolding request
    request-Keeps p l h =
        and_then-Keeps (syscall w _ l) _ (syscall-Keeps _ l h) (λ a t. syscall-Keeps _ t)

    do_io-Keeps : (addr value : ℕ) → Keeps (do_io w addr value)
    unfolding do_io
    do_io-Keeps addr value l h = and_then-Keeps (request w _ l) _ (request-Keeps _ l h) (λ a t k. k)

    terminate_proc-Keeps : (p : ℕ) → Keeps (terminate_proc w p)
    unfolding terminate_proc
    terminate_proc-Keeps p l h = and_then-Keeps (request w _ l) _ (request-Keeps _ l h) (λ a t k. k)

    signal_uproc_termination-Keeps : Keeps (signal_uproc_termination w)
    unfolding signal_uproc_termination
    signal_uproc_termination-Keeps l h =
        and_then-Keeps (syscall w _ l) _ (syscall-Keeps _ l h) (λ a t k. k)

    pub gain_pool-Keeps : Keeps (gain_pool w)
    unfolding gain_pool
    gain_pool-Keeps l h =
        and_then-Keeps (syscall w _ l) _ (syscall-Keeps _ l h)
          (λ a t k. and_then-Keeps (syscall w _ t) _ (syscall-Keeps _ t k) (λ b u i. i))

    pub release_pool-Keeps : Keeps (release_pool w)
    unfolding release_pool
    release_pool-Keeps l h = and_then-Keeps (syscall w _ l) _ (syscall-Keeps _ l h) (λ a t k. k)

    pub update_tlb-Keeps :
        (pte : ℕ) (l : Level)
        → R l.swap_pool_table l.pte_hi
        → R (update_tlb w pte l).swap_pool_table (update_tlb w pte l).pte_hi
    unfolding update_tlb
    update_tlb-Keeps pte l h =
        choose-Keeps (bit_and (w.index_after_tlbp l.tlb (l.pte_hi pte)) 0x8000_0000 == 0) _ _ h h

    unmap_page-Keeps :
        (i : ℕ) (l : Level)
        → R l.swap_pool_table l.pte_hi
        → R (unmap_page w i l).swap_pool_table (unmap_page w i l).pte_hi
    unfolding unmap_page
    unmap_page-Keeps i l h =
        let pte = (l.swap_pool_table i).sw_pte in
        let t = record (disable_interrupts w l) {
          pte_lo = update l.pte_lo pte (bit_and (l.pte_lo pte) (complement validon));
        } in
        update_tlb-Keeps pte t h

    module _
        (frees : (pool : ℕ → Swap) (hi : ℕ → ℕ) (i : ℕ)
          → R pool hi
          → R (update pool i free_frame) hi) where
      free_frames_from-Keeps :
          (asid rounds i : ℕ) (l : Level)
          → R l.swap_pool_table l.pte_hi
          → R
              (free_frames_from asid rounds i l).swap_pool_table
              (free_frames_from asid rounds i l).pte_hi
      unfolding free_frames_from
      free_frames_from-Keeps asid zero i l h = h
      free_frames_from-Keeps asid (suc rounds) i l h =
          free_frames_from-Keeps asid rounds (i + 1)
            (if (l.swap_pool_table i).sw_asid == asid
              then record l { swap_pool_table = update l.swap_pool_table i free_frame }
              else l)
            (choose-Keeps ((l.swap_pool_table i).sw_asid == asid)
              (record l { swap_pool_table = update l.swap_pool_table i free_frame }) l
              (frees l.swap_pool_table l.pte_hi i h) h)

      pub free_frames-Keeps : (asid : ℕ) → Keeps (free_frames w asid)
      unfolding free_frames
      free_frames-Keeps asid l h =
          and_then-Keeps (and_then (gain_pool w l) _) _
            (and_then-Keeps (gain_pool w l) _ (gain_pool-Keeps l h)
              (λ a t k. free_frames_from-Keeps asid poolsize 0 t k))
            (λ b. release_pool-Keeps)

      uterminate-Keeps : (u : ℕ) → Keeps (uterminate w u)
      unfolding uterminate deallocate
      uterminate-Keeps u l h = elim (Bool-cases (l.p_support u == null)) [
        | inl absent ↦ rw absent h
        | inr there ↦ rw there (
            and_then-Keeps (free_frames w _ l) _ (free_frames-Keeps _ l h) (λ a t k.
              and_then-Keeps (signal_uproc_termination w _) _ (signal_uproc_termination-Keeps _ k)
                (λ b v j. terminate_proc-Keeps _ v j)))
      ]

      pub trap_exception_handler-Keeps : Keeps (trap_exception_handler w)
      unfolding trap_exception_handler
      trap_exception_handler-Keeps l h =
          and_then-Keeps
            ((if l.curr_mutex_proc == l.current_process then release_pool w else done) l) _
            (if-Keeps (l.curr_mutex_proc == l.current_process) (release_pool w) done
              release_pool-Keeps (λ t k. k) l h)
            (λ a t. uterminate-Keeps _ t)

      pub backing_store_operation-Keeps :
          (operation asid page address : ℕ)
          → Keeps (backing_store_operation w operation asid page address)
      unfolding backing_store_operation
      backing_store_operation-Keeps operation asid page address l h =
          and_then-Keeps (do_io w _ _ _) _ (do_io-Keeps _ _ _ h) (λ status.
            if-Keeps ((status == 5) || (status == 4)) (trap_exception_handler w) _
              trap_exception_handler-Keeps (λ t k. k))

      pub store_page-Keeps : (i : ℕ) → Keeps (store_page w i)
      unfolding store_page
      store_page-Keeps i l h =
          backing_store_operation-Keeps _ _ _ _ (unmap_page w i l) (unmap_page-Keeps i l h)
