-- ===== src/Support/Start.antt =====
-- How the support level starts: `test` of phase3/initProc.c with what it calls there, in phase3/deviceMutex.c and in
-- phase3/vmSupport.c.
pub mod Pages
pub mod Handed
pub mod Launch
pub mod Rounds
use Prim.Native.Nat.{bit_or}
use progetto_so.Base.{
  Bool, true, false, ◌∷◌, ℕ, zero, suc, ◌+◌, ◌*◌, ◌/◌, ◌%◌, ◌^◌, ltb, if◌then◌else◌, update,
}
use progetto_so.Listx.{null}
use progetto_so.Kernel.State.{ProcState, word_mod}
use progetto_so.Kernel.Run.{add_word, sub_word, int_ge}
use progetto_so.Support.State.{
  receive, other, Context, Level, World, Act, and_then, ◌>>=◌, ◌>>◌, done, pure, modify, get,
  syscall, finish, never_answered,
}
use progetto_so.Support.Calls.{
  uprocmax, allocate, init_free_support_list, get_stack_frame, create_process,
}
use progetto_so.Support.Paging.{poolsize, free_frame, read_page_from_flash}

-- `EALLINTPLT`
abbrev pub eallintplt : ℕ
eallintplt = 0x0800_fd04

-- The rounds of the loop of `initSwapStructs`.
unfoldable pub init_pool_from : (rounds i : ℕ) → Level → Level
init_pool_from zero i l = l
init_pool_from (suc rounds) i l =
    init_pool_from rounds (i + 1)
      (record l { swap_pool_table = update l.swap_pool_table i free_frame })

module _ (w : World) where
  -- A kernel process with this stack and code.
  unfoldable pub start_state : (sp code : ℕ) → Level → ProcState
  start_state sp code l =
      let s = w.stst l.calls in
      record s { reg_sp = sp; pc_epc = code; status = bit_or s.status eallintplt }

  unfoldable pub init_swap_structs : Act (Unit {0})
  unfolding start_state init_pool_from
  init_swap_structs = do
    sp ← get_stack_frame w
    l ← get
    p ← create_process w (start_state sp w.swap_mutex_code l) null
    modify λ l. record l { swap_mutex_proc = p }
    modify λ l. record l { curr_mutex_proc = null }
    modify (init_pool_from poolsize 0)

  -- `assignMutexFunctions`
  unfoldable pub assign_mutex_functions : (printer : Bool) → Level → Level
  assign_mutex_functions printer l =
      if printer
      then record l {
        printer_mutex_at =
            λ i. if ltb i uprocmax then w.printer_mutex_code i else l.printer_mutex_at i;
      }
      else record l {
        terminal_mutex_at =
            λ i. if ltb i uprocmax then w.terminal_mutex_code i else l.terminal_mutex_at i;
      }

  unfoldable pub init_printer_mutex : (asid : ℕ) → Act (Unit {0})
  unfolding start_state assign_mutex_functions
  init_printer_mutex asid = do
    modify (assign_mutex_functions true)
    sp ← get_stack_frame w
    l ← get
    p ← create_process w (start_state sp (l.printer_mutex_at (sub_word asid 1)) l) null
    modify λ l. record l { printer_mutex_proc = update l.printer_mutex_proc (sub_word asid 1) p }

  unfoldable pub init_terminal_mutex : (asid : ℕ) → Act (Unit {0})
  unfolding start_state assign_mutex_functions
  init_terminal_mutex asid = do
    modify (assign_mutex_functions false)
    sp ← get_stack_frame w
    l ← get
    p ← create_process w (start_state sp (l.terminal_mutex_at (sub_word asid 1)) l) null
    modify λ l. record l { terminal_mutex_proc = update l.terminal_mutex_proc (sub_word asid 1) p }

  -- `pte_entryHI` of the page with this number.
  abbrev pub entry_hi_of : (page asid : ℕ) → ℕ
  entry_hi_of page asid =
      add_word ((page * 2 ^ w.vpn_bit) % word_mod) ((asid * 2 ^ w.asid_bit) % word_mod)

  abbrev pub write_pte : (pte hi lo : ℕ) → Level → Level
  write_pte pte hi lo l = record l {
    pte_hi = update l.pte_hi pte hi;
    pte_lo = update l.pte_lo pte lo;
  }

  -- The rounds of the loop of `initPageTable`; the first `text_pages` pages are read only.
  unfoldable pub init_ptes_from : (asid support text_pages rounds i : ℕ) → Level → Level
  init_ptes_from asid support text_pages zero i l = l
  init_ptes_from asid support text_pages (suc rounds) i l =
      init_ptes_from asid support text_pages rounds (i + 1) (
        write_pte (w.sup_private_pg_tbl support i) (entry_hi_of (0x8_0000 + i) asid)
          (if ltb i text_pages then 0 else w.entrylo_dirty) l)

  -- The entries once the header of the program is in the frame: its sixth word is the length of the text.
  unfoldable pub init_ptes : (asid support tmp_frame : ℕ) → Level → Level
  unfolding init_ptes_from
  init_ptes asid support tmp_frame l =
      let size = l.word (tmp_frame + 20) in
      let text_pages = if int_ge size 0 then size / w.page_size else 0 in
      write_pte (w.sup_private_pg_tbl support 31) (entry_hi_of 0xb_ffff asid) w.entrylo_dirty
        (init_ptes_from asid support text_pages 31 0 l)

  unfoldable pub init_page_table : (asid support tmp_frame : ℕ) → Act (Unit {0})
  unfolding init_ptes
  init_page_table asid support tmp_frame = do
    read_page_from_flash w asid 0 tmp_frame
    modify (init_ptes asid support tmp_frame)

  -- The context of a handler of the support level.
  abbrev pub handler_context : (code sp : ℕ) → Context
  handler_context code sp = record { stack_ptr = sp; status = 0x0800_ff04; pc = code }

  unfoldable pub init_support_structure : (asid support : ℕ) → Act (Unit {0})
  unfolding init_page_table
  init_support_structure asid support = do
    modify λ l. record l { sup_asid = update l.sup_asid support asid }
    page_fault_stack ← get_stack_frame w
    general_stack ← get_stack_frame w
    modify λ l. record l {
      sup_except_context = update l.sup_except_context support (
          update
            (update (l.sup_except_context support) 0
              (handler_context w.tlb_exception_code page_fault_stack))
            1 (handler_context w.general_exception_code general_stack));
    }
    init_page_table asid support (add_word (sub_word general_stack w.page_size) 4)

  unfoldable pub start_ssts : (asid : ℕ) → Act (Unit {0})
  unfolding start_state init_support_structure
  start_ssts asid = do
    support ← allocate w
    sp ← get_stack_frame w
    l ← get
    let s = start_state sp w.sst_server_code l
    init_support_structure asid support
    _ ← create_process w (record s { entry_hi = (asid * 2 ^ w.asid_bit) % word_mod }) support
    done

  -- The rounds of the first loop of `test`.
  unfoldable pub start_from : (rounds i : ℕ) → Act (Unit {0})
  unfolding init_printer_mutex init_terminal_mutex start_ssts
  start_from zero i l = done l
  start_from (suc rounds) i l =
      let rest = start_from rounds (i + 1) in
      and_then ((init_printer_mutex i >> init_terminal_mutex i >> start_ssts i) l) (λ _. rest)

  -- The rounds of the second: one message for each user process that has ended.
  unfoldable pub await_from : (rounds : ℕ) → Act (Unit {0})
  await_from zero l = done l
  await_from (suc rounds) l =
      let rest = await_from rounds in and_then (syscall w (receive 0) l) (λ _. rest)

  -- The last system call has the number of TERMPROCESS, which the nucleus passes to `passUpOrDie`: it ends the test
  -- process, which has no support structure, and the call never returns.
  unfoldable pub test : (support_arr : ℕ → ℕ) → Act (Unit {0})
  unfolding init_swap_structs start_from await_from
  test support_arr = do
    modify (init_free_support_list support_arr)
    init_swap_structs
    start_from uprocmax 1
    await_from uprocmax
    modify λ l. record l { calls = other 2 ∷ l.calls }
    finish never_answered
