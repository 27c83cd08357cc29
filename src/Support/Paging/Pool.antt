-- ===== src/Support/Paging/Pool.antt =====
-- The swap pool table of phase3/vmSupport.c as the pager leaves it.

use progetto_so.Base.{
  ℕ, ◌<◌, ◌≡◌, ◌≢◌, ◌==◌, ◌⊎◌, refl, sym, ◌∙◌, ap, false, Bool-cases, inl, inr, update, not,
  if◌then◌else◌, arith,
}
use progetto_so.Support.State.{
  Swap, Level, World, Result, returns, ends, Act, and_then, final, ◌>>=◌, ◌>>◌, ldst, get, finish,
  modify, done,
}
use progetto_so.Support.Paging.{
  poolsize, free_frame, is_free_frame, get_frame, get_page_index, frame_address, enter_page,
  map_page, load_page, store_page, release_pool, tlb_invalid_handler, free_frames,
  backing_store_operation,
}
use progetto_so.Support.Paging.Keeps.{
  Keeps, gain_pool-cases, and_then-Keeps, if-Keeps, release_pool-Keeps, update_tlb-Keeps,
  free_frames-Keeps, backing_store_operation-Keeps, store_page-Keeps,
}

-- No page has two frames, and each entry names the process and the page number of its page table entry, which is
-- where the frame's contents go when it is evicted.
pub record IsPool (w : World) (pool : ℕ → Swap) (hi : ℕ → ℕ) : Type 0 where
  pub one_frame :
      (i j : ℕ)
      → i < poolsize
      → j < poolsize
      → is_free_frame (pool i) ≡ false
      → is_free_frame (pool j) ≡ false
      → (pool i).sw_pte ≡ (pool j).sw_pte
      → i ≡ j
  pub asid :
      (i : ℕ)
      → i < poolsize
      → is_free_frame (pool i) ≡ false
      → (pool i).sw_asid ≡ w.get_asid (hi (pool i).sw_pte)
  pub page :
      (i : ℕ)
      → i < poolsize
      → is_free_frame (pool i) ≡ false
      → (pool i).sw_page_no ≡ get_page_index w (hi (pool i).sw_pte)

-- The page of this entry has no frame.
abbrev pub IsOut : (pte : ℕ) → (pool : ℕ → Swap) → Type 0
IsOut pte pool = (i : ℕ) → i < poolsize → is_free_frame (pool i) ≡ false → (pool i).sw_pte ≢ pte

-- An entry of the table after one is written: that one, or one as before.
update_cases :
    (pool : ℕ → Swap) (i j : ℕ) (v : Swap)
    → ((j ≡ i) × (update pool i v j ≡ v)) ⊎ (update pool i v j ≡ pool j)
update_cases pool i j v = elim (Bool-cases (j == i)) [
  | inl here ↦ inl (ground arith, rw here refl)
  | inr away ↦ inr (rw away refl)
]

occupied_still :
    (pool : ℕ → Swap) (i j : ℕ)
    → is_free_frame (update pool i free_frame j) ≡ false
    → (update pool i free_frame j ≡ pool j) × (is_free_frame (pool j) ≡ false)
occupied_still pool i j h = elim (update_cases pool i j free_frame) [
  | inl (same, e) ↦ absurd (ground (arith, sym (ap is_free_frame e) ∙ h))
  | inr e ↦ (e, sym (ap is_free_frame e) ∙ h)
]

IsPool-free :
    (w : World) (pool : ℕ → Swap) (hi : ℕ → ℕ) (i : ℕ)
    → IsPool w pool hi
    → IsPool w (update pool i free_frame) hi
IsPool-free w pool hi i p = record {
  one_frame = λ j k lj lk a b e.
      let (ej, oj) = occupied_still pool i j a in
      let (ek, ok) = occupied_still pool i k b in
      p.one_frame j k lj lk oj ok (ap (λ s. s.sw_pte) (sym ej) ∙ e ∙ ap (λ s. s.sw_pte) ek);
  asid = λ j lj a.
      let (e, o) = occupied_still pool i j a in
      ap (λ s. s.sw_asid) e ∙ p.asid j lj o ∙ ap (λ s. w.get_asid (hi s.sw_pte)) (sym e);
  page = λ j lj a.
      let (e, o) = occupied_still pool i j a in
      ap (λ s. s.sw_page_no) e ∙ p.page j lj o ∙ ap (λ s. get_page_index w (hi s.sw_pte)) (sym e);
}

IsOut-free :
    (pte : ℕ) (pool : ℕ → Swap) (i : ℕ) → IsOut pte pool → IsOut pte (update pool i free_frame)
IsOut-free pte pool i out j lj a same =
    let (e, o) = occupied_still pool i j a in out j lj o (ap (λ s. s.sw_pte) (sym e) ∙ same)

-- The entry of a page that `loadPage` writes.
abbrev entry_of : World → (hi : ℕ → ℕ) → (pte : ℕ) → Swap
entry_of w hi pte = record {
  sw_asid = w.get_asid (hi pte);
  sw_page_no = get_page_index w (hi pte);
  sw_pte = pte;
}

IsPool-map :
    (w : World) (pool : ℕ → Swap) (hi : ℕ → ℕ) (pte i : ℕ)
    → IsPool w pool hi
    → IsOut pte pool
    → IsPool w (update pool i (entry_of w hi pte)) hi
IsPool-map w pool hi pte i p out =
    let v = entry_of w hi pte in
    record {
      one_frame = λ j k lj lk a b e. elim (update_cases pool i j v) [
        | inl (j_new, ej) ↦ elim (update_cases pool i k v) [
          | inl (k_new, ek) ↦ j_new ∙ sym k_new
          | inr ek ↦ absurd (
              out k lk (sym (ap is_free_frame ek) ∙ b)
                (ap (λ s. s.sw_pte) (sym ek) ∙ sym e ∙ ap (λ s. s.sw_pte) ej))
        ]
        | inr ej ↦ elim (update_cases pool i k v) [
          | inl (k_new, ek) ↦ absurd (
              out j lj (sym (ap is_free_frame ej) ∙ a)
                (ap (λ s. s.sw_pte) (sym ej) ∙ e ∙ ap (λ s. s.sw_pte) ek))
          | inr ek ↦
              p.one_frame j k lj lk (sym (ap is_free_frame ej) ∙ a) (sym (ap is_free_frame ek) ∙ b)
                (ap (λ s. s.sw_pte) (sym ej) ∙ e ∙ ap (λ s. s.sw_pte) ek)
        ]
      ];
      asid = λ j lj a. elim (update_cases pool i j v) [
        | inl (new, e) ↦ ap (λ s. s.sw_asid) e ∙ ap (λ s. w.get_asid (hi s.sw_pte)) (sym e)
        | inr e ↦
            ap (λ s. s.sw_asid) e
            ∙ p.asid j lj (sym (ap is_free_frame e) ∙ a)
            ∙ ap (λ s. w.get_asid (hi s.sw_pte)) (sym e)
      ];
      page = λ j lj a. elim (update_cases pool i j v) [
        | inl (new, e) ↦ ap (λ s. s.sw_page_no) e ∙ ap (λ s. get_page_index w (hi s.sw_pte)) (sym e)
        | inr e ↦
            ap (λ s. s.sw_page_no) e
            ∙ p.page j lj (sym (ap is_free_frame e) ∙ a)
            ∙ ap (λ s. get_page_index w (hi s.sw_pte)) (sym e)
      ];
    }

-- Before the page gets its frame.
abbrev IsReady : World → (pte : ℕ) → (ℕ → Swap) → (ℕ → ℕ) → Type 0
IsReady w pte pool hi = IsPool w pool hi × IsOut pte pool

IsReady-free :
    (w : World) (pte : ℕ) (pool : ℕ → Swap) (hi : ℕ → ℕ) (i : ℕ)
    → IsReady w pte pool hi
    → IsReady w pte (update pool i free_frame) hi
IsReady-free w pte pool hi i (p, out) = (IsPool-free w pool hi i p, IsOut-free pte pool i out)

map_page-IsPool :
    (w : World) (pte i : ℕ) (l : Level)
    → IsReady w pte l.swap_pool_table l.pte_hi
    → IsPool w (map_page w pte i l).swap_pool_table (map_page w pte i l).pte_hi
unfolding map_page
map_page-IsPool w pte i l (p, out) =
    update_tlb-Keeps (IsPool w) w pte (enter_page w pte i l)
      (IsPool-map w l.swap_pool_table l.pte_hi pte i p out)

-- A step that keeps `P`, before one that leads from `P` to `Q`.
module _ (P Q : Level → Type 0) (weaker : (l : Level) → P l → Q l) where
  and_then-leads :
      {A B : Type 0} (r : Result A) (f : A → Act B)
      → P (final r)
      → ((a : A) (l : Level) → P l → Q (final (f a l)))
      → Q (final (and_then r f))
  and_then-leads (returns a l) f h k = k a l h
  and_then-leads (ends e l) f h k = weaker l h

abbrev PoolOf : World → Level → Type 0
PoolOf w l = IsPool w l.swap_pool_table l.pte_hi

abbrev ReadyOf : World → (pte : ℕ) → Level → Type 0
ReadyOf w pte l = IsReady w pte l.swap_pool_table l.pte_hi

load_page-IsPool :
    (w : World) (pte i : ℕ) (l : Level)
    → IsReady w pte l.swap_pool_table l.pte_hi
    → IsPool w (final (load_page w pte i l)).swap_pool_table (final (load_page w pte i l)).pte_hi
unfolding load_page
load_page-IsPool w pte i l ready =
    and_then-leads (ReadyOf w pte) (PoolOf w) (λ t r. r.0)
      (backing_store_operation w 2 (w.get_asid (l.pte_hi pte)) (get_page_index w (l.pte_hi pte))
        (frame_address w i l) l)
      (λ _. modify (map_page w pte i))
      (backing_store_operation-Keeps (IsReady w pte) w (IsReady-free w pte) _ _ _ _ l ready)
      (λ a t. map_page-IsPool w pte i t)

-- The rest of the handler, once the page and its frame are chosen.
handled-IsPool :
    (w : World) (pte i : ℕ) (r : Result (Unit {0})) (rest : Act (Unit {0}))
    → ReadyOf w pte (final r)
    → Keeps (IsPool w) rest
    → PoolOf w (final (and_then r (λ _. load_page w pte i >> rest)))
handled-IsPool w pte i r rest ready keeps =
    and_then-leads (ReadyOf w pte) (PoolOf w) (λ t x. x.0) r (λ _. load_page w pte i >> rest) ready
      (λ a t x.
        and_then-Keeps (IsPool w) (load_page w pte i t) (λ _. rest) (load_page-IsPool w pte i t x)
          (λ _. keeps))

-- The page fault handler keeps the table well-formed, however it ends: with the page in its frame, in the trap after
-- a failure of the backing store, or with a request that is never answered.
pub tlb_invalid_handler-IsPool :
    (w : World) (support : ℕ) (l : Level)
    → IsPool w l.swap_pool_table l.pte_hi
    → IsOut
        (w.sup_private_pg_tbl support (get_page_index w (l.sup_except_state support 0).entry_hi))
        l.swap_pool_table
    → let t = final (tlb_invalid_handler w support l) in IsPool w t.swap_pool_table t.pte_hi
unfolding tlb_invalid_handler get_frame
tlb_invalid_handler-IsPool w support l p out = elim (gain_pool-cases w l) [
  | inl (cs, e) ↦
      let t = record l { calls = cs } in
      let i = (get_frame t).0 in
      let pte =
        w.sup_private_pg_tbl support (get_page_index w (l.sup_except_state support 0).entry_hi) in
      let u = (get_frame t).1 in
      rw e (
        handled-IsPool w pte i
          ((if not (is_free_frame (u.swap_pool_table i)) then store_page w i else done) u)
          (release_pool w >> (get >>= λ k. finish (ldst (k.sup_except_state support 0))))
          (if-Keeps (IsReady w pte) (not (is_free_frame (u.swap_pool_table i))) (store_page w i)
            done (store_page-Keeps (IsReady w pte) w (IsReady-free w pte) i) (λ v k. k) u (p, out))
          (λ v k.
            and_then-Keeps (IsPool w) (release_pool w v) _ (release_pool-Keeps (IsPool w) w v k)
              (λ a z j. j)))
  | inr (end, cs, e) ↦ rw e p
]

-- So does `freeFrames`, which a process's end calls.
pub free_frames-IsPool :
    (w : World) (asid : ℕ) (l : Level)
    → IsPool w l.swap_pool_table l.pte_hi
    → let t = final (free_frames w asid l) in IsPool w t.swap_pool_table t.pte_hi
free_frames-IsPool w asid l p = free_frames-Keeps (IsPool w) w (IsPool-free w) asid l p
