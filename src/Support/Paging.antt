-- ===== src/Support/Paging.antt =====
-- phase3/vmSupport.c: the pager, and the swap pool table that it keeps. `UTerminate` of phase3/initProc.c and the
-- trap of phase3/sysSupport.c stand here too, since the pager calls them.
pub mod Frames
pub mod Keeps
pub mod Pool
pub mod Ending
use Prim.Native.Nat.{bit_and, bit_or}
use progetto_so.Base.{
  ℕ, zero, suc, ◌+◌, ◌-◌, ◌*◌, ◌/◌, ◌%◌, ◌^◌, Bool, ◌||◌, Option, none, some, List, ◌==◌, not, ltb,
  if◌then◌else◌, update,
}
use progetto_so.Listx.{null}
use progetto_so.Kernel.State.{ProcState, word_mod}
use progetto_so.Kernel.Run.{add_word, sub_word, minus_one}
use progetto_so.Support.State.{
  nothing, send, receive, Swap, Level, World, Act, ldst, panic, ◌>>=◌, ◌>>◌, done, pure, modify,
  get, finish, syscall,
}
use progetto_so.Support.Calls.{
  uprocmax, deallocate, do_io, terminate_proc, get_support_ptr, signal_uproc_termination,
}

-- `POOLSIZE`
abbrev pub poolsize : ℕ
poolsize = 16

-- `VALIDON`
abbrev pub validon : ℕ
validon = 0x200

-- `~m` on words
abbrev pub complement : ℕ → ℕ
complement m = word_mod - 1 - m

abbrev pub is_free_frame : Swap → Bool
is_free_frame f = f.sw_asid == minus_one

-- An entry of the pool that no process uses.
abbrev pub free_frame : Swap
free_frame = record { sw_asid = minus_one; sw_page_no = 0; sw_pte = null }

-- `SWAP_POOL_START`: two words of the header of the nucleus's core file.
abbrev pub swap_pool_start : Level → ℕ
swap_pool_start l = add_word (l.word 0x2000_1018) (l.word 0x2000_1024)

-- The rounds of the loop of `freeFrames` from the `i`-th entry on.
unfoldable pub free_frames_from : (asid rounds i : ℕ) → Level → Level
free_frames_from asid zero i l = l
free_frames_from asid (suc rounds) i l = free_frames_from asid rounds (i + 1) (
    if (l.swap_pool_table i).sw_asid == asid
    then record l { swap_pool_table = update l.swap_pool_table i free_frame }
    else l)

-- The rounds of the loop of `getFrame`: the counter goes on until it stands at a free frame.
unfoldable pub seek_frame : (rounds : ℕ) → (swap_pool_table : ℕ → Swap) → (frame_index : ℕ) → ℕ
seek_frame zero pool i = i
seek_frame (suc rounds) pool i =
    let rest = seek_frame rounds pool ((i + 1) % poolsize) in
    if is_free_frame (pool i) then i else rest

-- `getFrame()` gives the index of the entry.
unfoldable pub get_frame : Level → ℕ × Level
get_frame l =
    let i = seek_frame poolsize l.swap_pool_table l.frame_index in
    (i, record l { frame_index = (i + 1) % poolsize })

module _ (w : World) where
  -- The requests to the mutex process of the pool.
  unfoldable pub gain_pool : Act (Unit {0})
  gain_pool = do
    l ← get
    _ ← syscall w (send l.swap_mutex_proc nothing)
    l ← get
    _ ← syscall w (receive l.swap_mutex_proc)
    done

  unfoldable pub release_pool : Act (Unit {0})
  release_pool = do l ← get; _ ← syscall w (send l.swap_mutex_proc nothing); done

  unfoldable pub free_frames : (asid : ℕ) → Act (Unit {0})
  unfolding gain_pool release_pool free_frames_from
  free_frames asid = gain_pool >> modify (free_frames_from asid poolsize 0) >> release_pool

  unfoldable pub uterminate : (u_proc : ℕ) → Act (Unit {0})
  unfolding free_frames
  uterminate u l =
      let steps = (do
        free_frames (l.sup_asid (l.p_support u))
        modify (deallocate (l.p_support u))
        signal_uproc_termination w
        l ← get
        terminate_proc w (l.p_parent u)) in
      if l.p_support u == null then done l else steps l

  unfoldable pub trap_exception_handler : Act (Unit {0})
  unfolding release_pool uterminate
  trap_exception_handler = do
    l ← get
    if l.curr_mutex_proc == l.current_process then release_pool else done
    l ← get
    uterminate l.current_process

  unfoldable pub get_page_index : (entry_hi : ℕ) → ℕ
  get_page_index hi =
      let vpn = add_word (2 ^ 19) (w.get_vpn hi) in if vpn == 0xb_ffff then 31 else vpn % 0x8_0000

  -- The command stands after the status in the flash device's registers, and `data0` after the command.
  unfoldable pub backing_store_operation :
      (operation asid page_num frame_address : ℕ) → Act (Unit {0})
  unfolding trap_exception_handler
  backing_store_operation operation asid page_num frame_address = do
    let reg = w.dev_reg_addr w.il_flash (sub_word asid 1)
    modify λ l. record l { word = update l.word (reg + 8) frame_address }
    status ← do_io w (reg + 4) (add_word ((page_num * 256) % word_mod) operation)
    if (status == 5) || (status == 4) then trap_exception_handler else done

  abbrev pub write_page_to_flash : (asid page_num frame_address : ℕ) → Act (Unit {0})
  write_page_to_flash = backing_store_operation 3

  abbrev pub read_page_from_flash : (asid page_num frame_address : ℕ) → Act (Unit {0})
  read_page_from_flash = backing_store_operation 2

  -- TLBP looks for the entry, and TLBWI writes the two registers over it.
  unfoldable pub update_tlb : (pte : ℕ) → Level → Level
  update_tlb pte l =
      let hi = l.pte_hi pte in
      if bit_and (w.index_after_tlbp l.tlb hi) 0x8000_0000 == 0
      then record l {
        entry_hi = hi;
        entry_lo = l.pte_lo pte;
        tlb = λ h. if h == hi then some (l.pte_lo pte) else l.tlb h;
      }
      else record l { entry_hi = hi }

  abbrev pub disable_interrupts : Level → Level
  disable_interrupts l = record l { cpu_status = bit_and l.cpu_status (complement 1) }

  abbrev pub enable_interrupts : Level → Level
  enable_interrupts l = record l { cpu_status = bit_or l.cpu_status 1 }

  -- `GET_FRAME_ADDRESS` of the entry with this index.
  abbrev pub frame_address : (i : ℕ) → Level → ℕ
  frame_address i l = add_word (swap_pool_start l) ((i * w.page_size) % word_mod)

  -- The critical section of `storePage`: the page leaves the page table and the TLB.
  unfoldable pub unmap_page : (i : ℕ) → Level → Level
  unfolding update_tlb
  unmap_page i l₀ =
      let l = disable_interrupts l₀ in
      let pte = (l.swap_pool_table i).sw_pte in
      enable_interrupts (
        update_tlb pte
          (record l { pte_lo = update l.pte_lo pte (bit_and (l.pte_lo pte) (complement validon)) }))

  unfoldable pub store_page : (i : ℕ) → Act (Unit {0})
  unfolding unmap_page backing_store_operation
  store_page i = do
    modify (unmap_page i)
    l ← get
    write_page_to_flash (l.swap_pool_table i).sw_asid (l.swap_pool_table i).sw_page_no
        (frame_address i l)

  -- What `loadPage` writes to the two tables once the page is in the frame.
  abbrev pub enter_page : (pte i : ℕ) → Level → Level
  enter_page pte i l₀ =
      let hi = l₀.pte_hi pte in
      let l = disable_interrupts (record l₀ {
        swap_pool_table =
            update l₀.swap_pool_table i
              (record { sw_asid = w.get_asid hi; sw_page_no = get_page_index hi; sw_pte = pte });
      }) in
      let lo =
        bit_or (bit_or (bit_and (l.pte_lo pte) (complement w.entrylo_pfn_mask)) (frame_address i l))
          validon in
      record l { pte_lo = update l.pte_lo pte lo }

  unfoldable pub map_page : (pte i : ℕ) → Level → Level
  unfolding update_tlb
  map_page pte i l = enable_interrupts (update_tlb pte (enter_page pte i l))

  unfoldable pub load_page : (pte i : ℕ) → Act (Unit {0})
  unfolding map_page backing_store_operation get_page_index
  load_page pte i = do
    l ← get
    read_page_from_flash (w.get_asid (l.pte_hi pte)) (get_page_index (l.pte_hi pte))
        (frame_address i l)
    modify (map_page pte i)

  unfoldable pub tlb_invalid_handler : (support : ℕ) → Act (Unit {0})
  tlb_invalid_handler support = do
    gain_pool
    l ← get
    let pte = w.sup_private_pg_tbl support (get_page_index (l.sup_except_state support 0).entry_hi)
    let (i, l₁) = get_frame l
    modify λ _. l₁
    if not (is_free_frame (l₁.swap_pool_table i)) then store_page i else done
    load_page pte i
    release_pool
    l ← get
    finish (ldst (l.sup_except_state support 0))

  unfoldable pub tlb_exception_handler : Act (Unit {0})
  unfolding trap_exception_handler tlb_invalid_handler
  tlb_exception_handler = do
    support ← get_support_ptr w
    l ← get
    let code = w.exc_code (l.sup_except_state support 0).cause
    if code == 1
        then trap_exception_handler
        else if (code == 2) || (code == 3)
        then tlb_invalid_handler support
        else finish panic
