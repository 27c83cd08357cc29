-- ===== src/Support/Refill.antt =====
-- `uTLB_RefillHandler` of phase2/exceptions.c, on the state of the support level, whose page tables it reads.
use progetto_so.Base.{
  ℕ, ◌%◌, ◌^◌, ◌<◌, ◌≡◌, refl, sym, ◌∙◌, ap, some, none, ◌==◌, ==-refl, if◌then◌else◌,
}
use progetto_so.Kernel.State.{ProcState}
use progetto_so.Kernel.Run.{add_word}
use progetto_so.Support.State.{Level, World, Act, ldst, ends, finish, modify, get, ◌>>=◌, ◌>>◌}
use progetto_so.Support.Paging.{get_page_index}
use progetto_so.Support.Start.{init_ptes, entry_hi_of}
use progetto_so.Support.Start.Pages.{
  IsMachine, page_number, init_ptes-pte_hi, init_ptes-p_support, get_page_index-entry_hi_of,
}

-- TLBWR writes the two registers over an entry that the machine chooses, here the one of `random`.
abbrev pub tlbwr : (random : ℕ) → Level → Level
tlbwr random l = record l {
  tlb = λ h. if h == l.entry_hi then some l.entry_lo else if h == random then none else l.tlb h;
}

-- `proc_state` is the state saved at the start of the BIOS data page.
unfoldable pub u_tlb_refill_handler :
    World → (proc_state : ProcState) → (random : ℕ) → Act (Unit {0})
u_tlb_refill_handler w proc_state random = do
  l ← get
  let vpn = add_word (2 ^ 19) (w.get_vpn proc_state.entry_hi)
  let page = if vpn == 0xb_ffff then 31 else vpn % 0x8_0000
  let pte = w.sup_private_pg_tbl (l.p_support l.current_process) page
  modify λ l. record l { entry_hi = l.pte_hi pte }
  modify λ l. record l { entry_lo = l.pte_lo pte }
  modify (tlbwr random)
  finish (ldst proc_state)

-- The level after the handler has read this entry of the page table.
abbrev pub refilled : (pte random : ℕ) → Level → Level
refilled pte random l = tlbwr random (record l { entry_hi = l.pte_hi pte; entry_lo = l.pte_lo pte })

u_tlb_refill_handler-refilled :
    (w : World) (proc_state : ProcState) (random i : ℕ) (l : Level)
    → get_page_index w proc_state.entry_hi ≡ i
    → u_tlb_refill_handler w proc_state random l
      ≡ ends
          (ldst proc_state)
          (refilled (w.sup_private_pg_tbl (l.p_support l.current_process) i) random l)
unfolding u_tlb_refill_handler get_page_index
u_tlb_refill_handler-refilled w proc_state random i l e = rw e refl

-- With the page table that `initPageTable` fills, a miss on the page with any of the 32 indices, in the process of
-- the table, is handled with the entry of that index: it is then the TLB's entry of the missing address, and
-- the process goes on where it was interrupted.
pub u_tlb_refill_handler-init_ptes :
    (w : World) (asid s tmp_frame i random : ℕ) (proc_state : ProcState) (l : Level)
    → IsMachine w
    → i < 32
    → asid < 64
    → l.p_support l.current_process ≡ s
    → proc_state.entry_hi ≡ entry_hi_of w (page_number i) asid
    → let u = init_ptes w asid s tmp_frame l in
      (t : Level) × (u_tlb_refill_handler w proc_state random u ≡ ends (ldst proc_state) t)
      × (t.tlb proc_state.entry_hi ≡ some (u.pte_lo (w.sup_private_pg_tbl s i)))
u_tlb_refill_handler-init_ptes w asid s tmp_frame i random proc_state l m b c at miss =
    let u = init_ptes w asid s tmp_frame l in
    let pte = w.sup_private_pg_tbl s i in
    let (support, current) = init_ptes-p_support w asid s tmp_frame l in
    let index = ap (get_page_index w) miss ∙ (get_page_index-entry_hi_of w i asid m b c).0 in
    let here : proc_state.entry_hi ≡ u.pte_hi pte =
      miss ∙ sym (init_ptes-pte_hi w asid s tmp_frame i l m b) in
    let owner : u.p_support u.current_process ≡ s = rw (support, current) at in
    (
      refilled pte random u,
      u_tlb_refill_handler-refilled w proc_state random i u index ∙ rw owner refl,
      rw (here, ==-refl (u.pte_hi pte)) refl,
    )
