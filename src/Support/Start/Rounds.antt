-- ===== src/Support/Start/Rounds.antt =====
-- `test` of phase3/initProc.c as a whole: the eight rounds that start the system service threads, and the wait.
use progetto_so.Base.{
  ℕ, Bool, zero, suc, ◌+◌, ◌*◌, ◌%◌, ◌^◌, ◌≡◌, true, false, List, [], ◌∷◌, length, has,
}
use progetto_so.Kernel.State.{word_mod}
use progetto_so.Support.State.{Call, Level, World}
use progetto_so.Support.Calls.{uprocmax}
use progetto_so.Support.Start.Handed.{frame, any, is_start}

-- The structures `supports` belong to the processes from `i` on in this order: each has its process's identifier, the
-- stacks of its handlers are the fourth and the fifth of the five frames from the `n`-th on that its round takes, and
-- the service interface was asked for a process with this structure, this identifier and the third frame for its stack.
abbrev pub AreBegun : World → (supports : List ℕ) → (i n : ℕ) → Level → Type 0
AreBegun w [] i n u = Unit {0}
AreBegun w (s ∷ ss) i n u =
    (u.sup_asid s ≡ i)
    × ((u.sup_except_context s 0).stack_ptr ≡ frame w (n + 3))
    × ((u.sup_except_context s 1).stack_ptr ≡ frame w (n + 4))
    × (any (is_start w s ((i * 2 ^ w.asid_bit) % word_mod) (frame w (n + 2))) u.calls ≡ true)
    × AreBegun w ss (i + 1) (n + 5) u

-- After the rounds for `supports`.
record Rounds (w : World) (supports : List ℕ) (i n : ℕ) (l u : Level) : Type 0 where
  pub begun : AreBegun w supports i n u
  pub free : u.free_support ≡ []
  pub offset : u.curr_offset ≡ n + 5 * length supports
  pub identifiers : (p : ℕ) → has p supports ≡ false → u.sup_asid p ≡ l.sup_asid p
  pub contexts : (p : ℕ) → has p supports ≡ false → u.sup_except_context p ≡ l.sup_except_context p
  pub calls : (f : Call → Bool) → any f l.calls ≡ true → any f u.calls ≡ true

-- The order in which the structures of `support_arr` are handed out.
abbrev pub handed : (support_arr : ℕ → ℕ) → ℕ → List ℕ
handed support_arr zero = []
handed support_arr (suc n) = support_arr n ∷ handed support_arr n

-- What is handed out when the support level has started.
pub record Launched (w : World) (support_arr : ℕ → ℕ) (u : Level) : Type 0 where
  pub begun : AreBegun w (handed support_arr uprocmax) 1 2 u
  pub free : u.free_support ≡ []
  pub offset : u.curr_offset ≡ 42
