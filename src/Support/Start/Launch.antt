-- ===== src/Support/Start/Launch.antt =====
-- What the start of the support level in phase3/initProc.c hands out: support structures, identifiers and stack frames.
use progetto_so.Base.{
  ℕ, Bool, zero, suc, ◌+◌, ◌*◌, ◌/◌, ◌%◌, ◌^◌, ◌≡◌, refl, sym, subst, true, List, ◌∷◌,
  if◌then◌else◌, ltb, update, ==-false, ==-refl,
}
use progetto_so.Listx.{null}
use progetto_so.Kernel.State.{ProcState, word_mod}
use progetto_so.Kernel.Run.{add_word, sub_word, int_ge}
use progetto_so.Support.State.{
  Call, send, receive, io_request, process_request, Swap, Level, World, returns,
}
use progetto_so.Support.Calls.{uprocmax, allocate, do_io, create_process, get_stack_frame}
use progetto_so.Support.Syscalls.{IsResponsive, request-answered}
use progetto_so.Support.Paging.{poolsize, free_frame, backing_store_operation}
use progetto_so.Support.Start.{
  handler_context, start_state, init_swap_structs, init_pool_from, assign_mutex_functions,
  init_printer_mutex, init_terminal_mutex, entry_hi_of, write_pte, init_ptes_from, init_ptes,
  init_page_table, init_support_structure, start_ssts,
}
use progetto_so.Support.Start.Handed.{frame, any, any-two, Grown, IsKept, IsHealthy, Begun}

init_pool_from-pool :
    (rounds i : ℕ) (l : Level)
    → (pool : ℕ → Swap) × (init_pool_from rounds i l ≡ record l { swap_pool_table = pool })
unfolding init_pool_from
init_pool_from-pool zero i l = (l.swap_pool_table, refl)
init_pool_from-pool (suc rounds) i l =
    init_pool_from-pool rounds (i + 1)
      (record l { swap_pool_table = update l.swap_pool_table i free_frame })

module _ (w : World) (ready : IsResponsive w) where
  abbrev create_calls : ProcState → (support : ℕ) → Level → List Call
  create_calls s support l =
      receive l.ssi_pcb ∷ send l.ssi_pcb (process_request s support) ∷ l.calls

  create_process-answered :
      (s : ProcState) (support : ℕ) (l : Level)
      → (p : ℕ) × (create_process w s support l
          ≡ returns p (record l { calls = create_calls s support l }))
  unfolding create_process
  create_process-answered s support l =
      let (a, e) = ready (create_calls s support l) in
      (a.word, rw (request-answered w (process_request s support) l a ready e) refl)

  create-any :
      (s : ProcState) (support : ℕ) (l : Level) (f : Call → Bool)
      → any f l.calls ≡ true
      → any f (create_calls s support l) ≡ true
  create-any s support l f e =
      any-two f (receive l.ssi_pcb) (send l.ssi_pcb (process_request s support)) l.calls e

  pub init_swap_structs-Grown :
      (l : Level) → (u : Level) × (init_swap_structs w l ≡ returns tt u) × Grown 1 l u
  unfolding init_swap_structs get_stack_frame
  init_swap_structs-Grown l =
      let t = record l { curr_offset = add_word l.curr_offset 1 } in
      let s = start_state w (frame w l.curr_offset) w.swap_mutex_code t in
      let (p, e) = create_process-answered s null t in
      let cs = create_calls s null t in
      let v = record t { calls = cs; swap_mutex_proc = p; curr_mutex_proc = null } in
      let (pool, f) = init_pool_from-pool poolsize 0 v in
      (
        record v { swap_pool_table = pool },
        rw (e, f) refl,
        record {
          offset = refl;
          free = refl;
          asid = refl;
          context = refl;
          calls = create-any s null t;
        },
      )

  pub init_printer_mutex-Grown :
      (asid : ℕ) (l : Level)
      → (u : Level) × (init_printer_mutex w asid l ≡ returns tt u) × Grown 1 l u
  unfolding init_printer_mutex assign_mutex_functions get_stack_frame
  init_printer_mutex-Grown asid l =
      let t = record l {
        printer_mutex_at =
            λ i. if ltb i uprocmax then w.printer_mutex_code i else l.printer_mutex_at i;
        curr_offset = add_word l.curr_offset 1;
      } in
      let s = start_state w (frame w l.curr_offset) (t.printer_mutex_at (sub_word asid 1)) t in
      let (p, e) = create_process-answered s null t in
      let cs = create_calls s null t in
      (
        record t {
          calls = cs;
          printer_mutex_proc = update t.printer_mutex_proc (sub_word asid 1) p;
        },
        rw e refl,
        record {
          offset = refl;
          free = refl;
          asid = refl;
          context = refl;
          calls = create-any s null t;
        },
      )

  pub init_terminal_mutex-Grown :
      (asid : ℕ) (l : Level)
      → (u : Level) × (init_terminal_mutex w asid l ≡ returns tt u) × Grown 1 l u
  unfolding init_terminal_mutex assign_mutex_functions get_stack_frame
  init_terminal_mutex-Grown asid l =
      let t = record l {
        terminal_mutex_at =
            λ i. if ltb i uprocmax then w.terminal_mutex_code i else l.terminal_mutex_at i;
        curr_offset = add_word l.curr_offset 1;
      } in
      let s = start_state w (frame w l.curr_offset) (t.terminal_mutex_at (sub_word asid 1)) t in
      let (p, e) = create_process-answered s null t in
      let cs = create_calls s null t in
      (
        record t {
          calls = cs;
          terminal_mutex_proc = update t.terminal_mutex_proc (sub_word asid 1) p;
        },
        rw e refl,
        record {
          offset = refl;
          free = refl;
          asid = refl;
          context = refl;
          calls = create-any s null t;
        },
      )

  init_ptes_from-ptes :
      (asid s text rounds i : ℕ) (l : Level)
      → (hi : ℕ → ℕ) × (lo : ℕ → ℕ) × (init_ptes_from w asid s text rounds i l
          ≡ record l { pte_hi = hi; pte_lo = lo })
  unfolding init_ptes_from
  init_ptes_from-ptes asid s text zero i l = (l.pte_hi, l.pte_lo, refl)
  init_ptes_from-ptes asid s text (suc rounds) i l =
      init_ptes_from-ptes asid s text rounds (i + 1) (
        write_pte w (w.sup_private_pg_tbl s i) (entry_hi_of w (0x8_0000 + i) asid)
          (if ltb i text then 0 else w.entrylo_dirty) l)

  init_ptes-IsKept : (asid s tmp_frame : ℕ) (l : Level) → IsKept l (init_ptes w asid s tmp_frame l)
  unfolding init_ptes
  init_ptes-IsKept asid s tmp_frame l =
      let size = l.word (tmp_frame + 20) in
      let text = if int_ge size 0 then size / w.page_size else 0 in
      let (hi, lo, f) = init_ptes_from-ptes asid s text 31 0 l in
      let last =
        write_pte w (w.sup_private_pg_tbl s 31) (entry_hi_of w 0xb_ffff asid) w.entrylo_dirty in
      subst (λ t. IsKept l (last t)) (sym f)
        record { offset = refl; free = refl; asid = refl; context = refl; calls = λ f e. e }

  -- The flash device reads without an error.
  init_page_table-ptes :
      (healthy : IsHealthy w) (asid s tmp_frame : ℕ) (l : Level)
      → (u : Level) × (init_page_table w asid s tmp_frame l ≡ returns tt u) × IsKept l u
  unfolding init_page_table backing_store_operation do_io
  init_page_table-ptes healthy asid s tmp_frame l =
      let reg = w.dev_reg_addr w.il_flash (sub_word asid 1) in
      let written = record l { word = update l.word (reg + 8) tmp_frame } in
      let c = io_request (reg + 4) (add_word ((0 * 256) % word_mod) 2) in
      let asked = send l.ssi_pcb c ∷ l.calls in
      let (a, e) = ready (receive l.ssi_pcb ∷ asked) in
      let well = healthy l.ssi_pcb (reg + 4) (add_word ((0 * 256) % word_mod) 2) l.calls a e in
      let read = record written {
        calls = receive l.ssi_pcb ∷ asked;
        word = w.dma (receive l.ssi_pcb ∷ asked) written.word;
      } in
      let kept = init_ptes-IsKept asid s tmp_frame read in
      (
        init_ptes w asid s tmp_frame read,
        rw (request-answered w c written a ready e, well) refl,
        record {
          offset = kept.offset;
          free = kept.free;
          asid = kept.asid;
          context = kept.context;
          calls = λ f e. kept.calls f (any-two f (receive l.ssi_pcb) (send l.ssi_pcb c) l.calls e);
        },
      )

  allocate-free :
      (s : ℕ) (ss : List ℕ) (l : Level)
      → l.free_support ≡ s ∷ ss
      → allocate w l ≡ returns s (record l { free_support = ss })
  unfolding allocate
  allocate-free s ss l free = rw free refl

  -- What a system service thread gets: a support structure with its identifier, and two stacks for its handlers.
  pub start_ssts-Begun :
      (healthy : IsHealthy w) (asid s : ℕ) (ss : List ℕ) (l : Level)
      → l.free_support ≡ s ∷ ss
      → (u : Level) × (start_ssts w asid l ≡ returns tt u) × Begun w asid s ss l u
  unfolding start_ssts init_support_structure get_stack_frame start_state
  start_ssts-Begun healthy asid s ss l free =
      let t = record l { free_support = ss; curr_offset = add_word l.curr_offset 1 } in
      let state = start_state w (frame w l.curr_offset) w.sst_server_code t in
      let fault = frame w t.curr_offset in
      let general = frame w (add_word t.curr_offset 1) in
      let v = record t {
        sup_asid = update l.sup_asid s asid;
        curr_offset = add_word (add_word t.curr_offset 1) 1;
        sup_except_context = update l.sup_except_context s (
            update
              (update (l.sup_except_context s) 0 (handler_context w w.tlb_exception_code fault)) 1
              (handler_context w w.general_exception_code general));
      } in
      let (x, e, kept) =
        init_page_table-ptes healthy asid s (add_word (sub_word general w.page_size) 4) v in
      let own = record state { entry_hi = (asid * 2 ^ w.asid_bit) % word_mod } in
      let (p, f) = create_process-answered own s x in
      let cs = create_calls own s x in
      (
        record x { calls = cs },
        rw (allocate-free s ss l free, e, f) refl,
        record {
          offset = kept.offset;
          free = kept.free;
          identifier = kept.asid;
          fault_stack = rw (kept.context, ==-refl s) refl;
          general_stack = rw (kept.context, ==-refl s) refl;
          asked =
              rw
                (
                  ==-refl s,
                  ==-refl ((asid * 2 ^ w.asid_bit) % word_mod),
                  ==-refl (frame w l.curr_offset),
                  ==-refl w.sst_server_code,
                )
                refl;
          calls = λ f e. create-any own s x f (kept.calls f e);
          others = λ q apart. rw (kept.context, ==-false q s apart) refl;
        },
      )
