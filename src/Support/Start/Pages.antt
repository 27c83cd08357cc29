-- ===== src/Support/Start/Pages.antt =====
-- The page table that `initPageTable` of phase3/vmSupport.c fills, and the index that `getPageIndex` finds for an
-- EntryHi word of it.
use progetto_so.Base.{
  ℕ, zero, suc, ◌+◌, ◌/◌, ◌%◌, ◌^◌, ◌<◌, ◌≤◌, ◌≡◌, ◌≢◌, inl, inr, refl, ◌∙◌, true, false, ◌==◌,
  ◌&&◌, leb, ltb, if◌then◌else◌, Bool-cases, ==-refl, arith,
}
use progetto_so.Kernel.Run.{int_ge}
use progetto_so.Support.State.{Level, World}
use progetto_so.Support.Paging.{get_page_index}
use progetto_so.Support.Start.{entry_hi_of, write_pte, init_ptes_from, init_ptes}

-- The documented layout of an EntryHi register, of which `ENTRYHI_GET_VPN` gives eighteen bits, and page tables whose
-- entries do not overlap.
pub record IsMachine (w : World) : Type 0 where
  pub vpn_bit : w.vpn_bit ≡ 12
  pub asid_bit : w.asid_bit ≡ 6
  pub get_vpn : (hi : ℕ) → w.get_vpn hi ≡ (hi / 4096) % 2 ^ 18
  pub get_asid : (hi : ℕ) → w.get_asid hi ≡ (hi / 64) % 64
  pub apart :
      (s i j : ℕ)
      → i < 32
      → j < 32
      → i ≢ j
      → (w.sup_private_pg_tbl s i == w.sup_private_pg_tbl s j) ≡ false

-- The page number of an entry in the page table of a user process: the stack's page is the last.
abbrev pub page_number : ℕ → ℕ
page_number i = if i == 31 then 0xb_ffff else 0x8_0000 + i

init_ptes_from-pte_hi :
    (w : World) (asid s text rounds i j : ℕ) (l : Level)
    → IsMachine w
    → i + rounds ≤ 31
    → j < 32
    → (init_ptes_from w asid s text rounds i l).pte_hi (w.sup_private_pg_tbl s j) ≡ (
        if leb i j && ltb j (i + rounds)
        then entry_hi_of w (0x8_0000 + j) asid
        else l.pte_hi (w.sup_private_pg_tbl s j))
unfolding init_ptes_from
init_ptes_from-pte_hi w asid s text zero i j l m b c = ground arith
init_ptes_from-pte_hi w asid s text (suc rounds) i j l m b c =
    let u =
      write_pte w (w.sup_private_pg_tbl s i) (entry_hi_of w (0x8_0000 + i) asid)
        (if ltb i text then 0 else w.entrylo_dirty) l in
    let rest = init_ptes_from-pte_hi w asid s text rounds (i + 1) j u m (omega (arith, b)) c in
    elim (Bool-cases (j == i)) [
      | inl here ↦
          let same : j ≡ i = ground arith in
          rest ∙ rw (same, ==-refl (w.sup_private_pg_tbl s i)) (ground arith)
      | inr away ↦
          let other : j ≢ i = λ e. ground arith in
          rest ∙ rw (m.apart s j i c (omega (arith, b)) other) (ground arith)
    ]

pub get_page_index-entry_hi_of :
    (w : World) (i asid : ℕ)
    → IsMachine w
    → i < 32
    → asid < 64
    → (get_page_index w (entry_hi_of w (page_number i) asid) ≡ i)
      × (w.get_asid (entry_hi_of w (page_number i) asid) ≡ asid)
unfolding get_page_index
get_page_index-entry_hi_of w i asid m b c =
    rw (m.get_asid, m.get_vpn, m.vpn_bit, m.asid_bit) (ground arith)

pub init_ptes-pte_hi :
    (w : World) (asid s tmp_frame i : ℕ) (l : Level)
    → IsMachine w
    → i < 32
    → (init_ptes w asid s tmp_frame l).pte_hi (w.sup_private_pg_tbl s i)
      ≡ entry_hi_of w (page_number i) asid
unfolding init_ptes
init_ptes-pte_hi w asid s tmp_frame i l m b =
    let size = l.word (tmp_frame + 20) in
    let text = if int_ge size 0 then size / w.page_size else 0 in
    elim (Bool-cases (i == 31)) [
      | inl last ↦
          let same : i ≡ 31 = ground arith in rw (same, ==-refl (w.sup_private_pg_tbl s 31)) refl
      | inr other ↦
          let apart : i ≢ 31 = λ e. ground arith in
          let below : (leb 0 i && ltb i 31) ≡ true = ground (arith, apart) in
          rw (m.apart s i 31 b (omega arith) apart, other)
            (init_ptes_from-pte_hi w asid s text 31 0 i l m (omega arith) b ∙ rw below refl)
    ]

init_ptes_from-p_support :
    (w : World) (asid s text rounds i : ℕ) (l : Level)
    → let t = init_ptes_from w asid s text rounds i l in
      (t.p_support ≡ l.p_support) × (t.current_process ≡ l.current_process)
unfolding init_ptes_from
init_ptes_from-p_support w asid s text zero i l = (refl, refl)
init_ptes_from-p_support w asid s text (suc rounds) i l =
    init_ptes_from-p_support w asid s text rounds (i + 1) (
      write_pte w (w.sup_private_pg_tbl s i) (entry_hi_of w (0x8_0000 + i) asid)
        (if ltb i text then 0 else w.entrylo_dirty) l)

-- The page table of a process is no part of its block.
pub init_ptes-p_support :
    (w : World) (asid s tmp_frame : ℕ) (l : Level)
    → let t = init_ptes w asid s tmp_frame l in
      (t.p_support ≡ l.p_support) × (t.current_process ≡ l.current_process)
unfolding init_ptes
init_ptes-p_support w asid s tmp_frame l =
    let size = l.word (tmp_frame + 20) in
    init_ptes_from-p_support w asid s (if int_ge size 0 then size / w.page_size else 0) 31 0 l
