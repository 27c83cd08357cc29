-- ===== src/Support/Start/Handed.antt =====
-- What a stage of the start in phase3/initProc.c hands out, and which system calls have been made by then.
use progetto_so.Base.{
  ℕ, Bool, ◌&&◌, ◌*◌, ◌%◌, ◌^◌, ◌≡◌, ◌≢◌, ◌==◌, ◌||◌, true, false, List, [], ◌∷◌, some, update,
  arith,
}
use progetto_so.Kernel.State.{word_mod}
use progetto_so.Kernel.Run.{add_word, sub_word}
use progetto_so.Support.State.{
  Call, send, receive, io_request, process_request, Answer, Level, World,
}

-- `getStackFrame` the n-th time: the frames go down from the last but one of the RAM.
abbrev pub frame : World → ℕ → ℕ
frame w n = sub_word (sub_word w.ram_top w.page_size) ((n * w.page_size) % word_mod)

-- Some call passes the test.
abbrev pub any : (Call → Bool) → List Call → Bool
any f [] = false
any f (c ∷ cs) = f c || any f cs

pub any-one :
    (f : Call → Bool) (a : Call) (cs : List Call) → any f cs ≡ true → any f (a ∷ cs) ≡ true
any-one f a cs e = ground (arith, e)

pub any-two :
    (f : Call → Bool) (a b : Call) (cs : List Call) → any f cs ≡ true → any f (a ∷ b ∷ cs) ≡ true
any-two f a b cs e = ground (arith, e)

-- The request for a system service thread with this support structure, EntryHi register and stack.
abbrev pub is_start : World → (s entry_hi stack : ℕ) → Call → Bool
is_start w s entry_hi stack (send p (process_request state support)) =
    (support == s)
    && (state.entry_hi == entry_hi)
    && (state.reg_sp == stack)
    && (state.pc_epc == w.sst_server_code)
is_start w s entry_hi stack c = false

-- Nothing but these changes: `n` frames are handed out.
pub record Grown (n : ℕ) (l u : Level) : Type 0 where
  pub offset : u.curr_offset ≡ add_word l.curr_offset n
  pub free : u.free_support ≡ l.free_support
  pub asid : u.sup_asid ≡ l.sup_asid
  pub context : u.sup_except_context ≡ l.sup_except_context
  pub calls : (f : Call → Bool) → any f l.calls ≡ true → any f u.calls ≡ true

-- No frame either.
pub record IsKept (l u : Level) : Type 0 where
  pub offset : u.curr_offset ≡ l.curr_offset
  pub free : u.free_support ≡ l.free_support
  pub asid : u.sup_asid ≡ l.sup_asid
  pub context : u.sup_except_context ≡ l.sup_except_context
  pub calls : (f : Call → Bool) → any f l.calls ≡ true → any f u.calls ≡ true

-- No request to a device ends with the status 4 or 5, the errors of a flash device.
abbrev pub IsHealthy : World → Type 0
IsHealthy w =
    (p addr value : ℕ) (cs : List Call) (a : Answer)
    → w.answer (receive p ∷ send p (io_request addr value) ∷ cs) ≡ some a
    → ((a.word == 5) || (a.word == 4)) ≡ false

-- A system service thread got the structure `s` with the identifier `asid`, its stack, and those of its two handlers.
pub record Begun (w : World) (asid s : ℕ) (ss : List ℕ) (l u : Level) : Type 0 where
  pub offset : u.curr_offset ≡ add_word (add_word (add_word l.curr_offset 1) 1) 1
  pub free : u.free_support ≡ ss
  pub identifier : u.sup_asid ≡ update l.sup_asid s asid
  pub fault_stack : (u.sup_except_context s 0).stack_ptr ≡ frame w (add_word l.curr_offset 1)
  pub general_stack :
      (u.sup_except_context s 1).stack_ptr ≡ frame w (add_word (add_word l.curr_offset 1) 1)
  pub asked :
      any (is_start w s ((asid * 2 ^ w.asid_bit) % word_mod) (frame w l.curr_offset)) u.calls ≡ true
  pub calls : (f : Call → Bool) → any f l.calls ≡ true → any f u.calls ≡ true
  pub others : (p : ℕ) → p ≢ s → u.sup_except_context p ≡ l.sup_except_context p
