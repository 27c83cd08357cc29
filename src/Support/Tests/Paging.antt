-- ===== src/Support/Tests/Paging.antt =====
-- The pager's theorems, on one process.
use progetto_so.Base.{
  ℕ, ◌≡◌, ◌==◌, refl, sym, false, Bool-cases, inl, inr, arith, none, some, length, ltb,
  if◌then◌else◌, ◌<◌,
}
use progetto_so.Kernel.State.{ProcState}
use progetto_so.Kernel.Tests.Samples.{registers}
use progetto_so.Support.State.{Answer, World, Level, final, ldst, ends}
use progetto_so.Support.Paging.{
  poolsize, get_frame, tlb_invalid_handler, uterminate, get_page_index, is_free_frame,
}
use progetto_so.Support.Paging.Frames.{Picked, get_frame-Picked}
use progetto_so.Support.Paging.Pool.{IsPool, IsOut, tlb_invalid_handler-IsPool}
use progetto_so.Support.Paging.Ending.{Ended, without, uterminate-Ended}
use progetto_so.Support.Start.{init_ptes}
use progetto_so.Support.Refill.{u_tlb_refill_handler, u_tlb_refill_handler-init_ptes}
use progetto_so.Support.Tests.Samples.{machine, machine-IsMachine, level}

get_frame-Picked_example : Picked level (get_frame level).0 (get_frame level).1
get_frame-Picked_example = get_frame-Picked level (omega arith)

-- Only the first frame is taken.
taken_first : (i : ℕ) → is_free_frame (level.swap_pool_table i) ≡ false → i ≡ 0
taken_first i taken = elim (Bool-cases (i == 0)) [
  | inl here ↦ ground arith
  | inr away ↦ absurd (ground (arith, taken, away))
]

page_two : get_page_index machine 0x8000_2040 ≡ 2
unfolding get_page_index
page_two = refl

page_three : get_page_index machine 0x8000_3040 ≡ 3
unfolding get_page_index
page_three = refl

three-IsOut :
    IsOut
      (machine.sup_private_pg_tbl 1000 (get_page_index machine 0x8000_3040))
      level.swap_pool_table
three-IsOut = rw page_three λ i b taken. rw (taken_first i taken) (λ e. omega (arith, e))

level-IsPool : IsPool machine level.swap_pool_table level.pte_hi
level-IsPool = record {
  one_frame = λ i j b c ti tj e. rw (taken_first i ti, taken_first j tj) refl;
  asid = λ i b t. rw (taken_first i t) refl;
  page = λ i b t. rw (taken_first i t) (sym page_two);
}

tlb_invalid_handler-IsPool_example :
    IsPool machine
      (final (tlb_invalid_handler machine 1000 level)).swap_pool_table
      (final (tlb_invalid_handler machine 1000 level)).pte_hi
tlb_invalid_handler-IsPool_example =
    tlb_invalid_handler-IsPool machine 1000 level level-IsPool three-IsOut

-- Only the first `n` system calls are answered.
abbrev answering : ℕ → World
answering n = record machine {
  answer = λ cs. if ltb n (length cs) then none else machine.answer cs;
}

abbrev reply : Answer
reply = record { v0 = 10; word = 5; next_word = 0 }

uterminate-Ended_example :
    Ended 20 1000 level (final (uterminate machine 20 level))
    × ((final (uterminate (answering 1) 20 level)).swap_pool_table ≡ level.swap_pool_table)
    × ((j : ℕ)
        → j < poolsize
        → (final (uterminate (answering 2) 20 level)).swap_pool_table j
          ≡ without 1 level.swap_pool_table j)
uterminate-Ended_example =
    uterminate-Ended machine (answering 1) (answering 2) 20 level reply reply reply
      (λ e. omega (arith, e)) record { sends = λ p x cs. (_, refl); grants = λ cs. (_, refl) } refl
      refl refl refl refl

abbrev missing : ProcState
missing = record registers { entry_hi = 0x8000_3040 }

u_tlb_refill_handler-init_ptes_example :
    (t : Level) × (u_tlb_refill_handler machine missing 0 (init_ptes machine 1 1000 4000 level)
      ≡ ends (ldst missing) t)
    × (t.tlb 0x8000_3040 ≡ some ((init_ptes machine 1 1000 4000 level).pte_lo 1324))
u_tlb_refill_handler-init_ptes_example =
    u_tlb_refill_handler-init_ptes machine 1 1000 4000 3 0 missing level machine-IsMachine
      (omega arith) (omega arith) refl refl
