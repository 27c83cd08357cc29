-- ===== src/Support/Threads.antt =====
-- phase3/sst.c: the system service threads. `u_proc` is one variable of the file, which all threads share.
pub mod Transmit
pub mod Shared
pub mod Rounds
pub mod Printer
use Prim.Native.Nat.{bit_and}
use progetto_so.Base.{ℕ, zero, suc, ◌+◌, ◌*◌, ◌%◌, ◌^◌, ◌∷◌, not, ◌==◌, if◌then◌else◌, update}
use progetto_so.Kernel.State.{ProcState, word_mod, int_max}
use progetto_so.Kernel.Run.{add_word, sub_word, int_ge, int_gt}
use progetto_so.Support.State.{
  Payload, nothing, value, send, receive, Answer, Level, World, Act, and_then, ◌>>=◌, ◌>>◌, done,
  returns, pure, modify, get, syscall,
}
use progetto_so.Support.Calls.{do_io, create_process, get_support_ptr}
use progetto_so.Support.Paging.{uterminate}

-- The state that `initUProcState` gives a user process.
abbrev pub init_uproc_state : World → (asid : ℕ) → ProcState → ProcState
init_uproc_state w asid s = record s {
  reg_t9 = 0x8000_00b0;
  pc_epc = 0x8000_00b0;
  reg_sp = 0xc000_0000;
  status = 0x0800_ff0c;
  entry_hi = (asid * 2 ^ w.asid_bit) % word_mod;
}

-- The rounds of a loop up to an `int`.
abbrev pub rounds_of : (length : ℕ) → ℕ
rounds_of length = if int_ge length 0 then length else 0

module _ (w : World) where
  -- `state` is what the stack holds where the function's variable stands.
  unfoldable pub start_uprocess : (state : ProcState) (asid support : ℕ) → Act ℕ
  start_uprocess state asid support = create_process w (init_uproc_state w asid state) support

  unfoldable pub receive_req : Act Answer
  receive_req = do l ← get; syscall w (receive l.u_proc)

  unfoldable pub send_res : Payload → Act (Unit {0})
  send_res payload = do l ← get; _ ← syscall w (send l.u_proc payload); done

  unfoldable pub handle_get_tod : Act (Unit {0})
  handle_get_tod = do l ← get; send_res (value (w.stck l.calls))

  -- The two requests to a mutex process.
  unfoldable pub gain : (mutex : ℕ) → Act (Unit {0})
  gain mutex = do _ ← syscall w (send mutex nothing); _ ← syscall w (receive mutex); done

  -- The loop of `handle_WritePrinter` from the `i`-th character on, which stands at `string`. The length of the
  -- payload is read in each round.
  unfoldable pub print_from : (reg payload rounds i string : ℕ) → Act (Unit {0})
  print_from reg payload zero i string l = done l
  print_from reg payload (suc rounds) i string l =
      let rest = print_from reg payload rounds (i + 1) (string + 1) in
      let print =
        and_then
          (do_io w (reg + 4) 2 (record l { word = update l.word (reg + 8) (w.char_at string) }))
          (λ status. if not (status == 0) then done else rest) in
      if int_gt (l.word payload) i then print else done l

  -- The loop of `handle_WriteTerminal`.
  unfoldable pub transmit_from : (reg rounds string : ℕ) → Act (Unit {0})
  transmit_from reg zero string l = done l
  transmit_from reg (suc rounds) string l =
      let rest = transmit_from reg rounds (string + 1) in
      and_then (do_io w (reg + 12) (add_word 2 ((w.char_at string * 256) % word_mod)) l)
        (λ status. if not (bit_and status 0xff == 5) then done else rest)

  -- The payload of a request is the address of the length, after which stands that of the string.
  -- An `int` has no more rounds than `int_max`.
  unfoldable pub handle_write_printer : (sender payload : ℕ) → Act (Unit {0})
  handle_write_printer sender payload = do
    l ← get
    let i = sub_word (l.sup_asid (l.p_support sender)) 1
    gain (l.printer_mutex_proc i)
    l ← get
    print_from (w.dev_reg_addr 6 i) payload int_max 0 (l.word (payload + 4))
    l ← get
    _ ← syscall w (send (l.printer_mutex_proc i) nothing)
    send_res nothing

  unfoldable pub handle_write_terminal : (sender payload : ℕ) → Act (Unit {0})
  handle_write_terminal sender payload = do
    l ← get
    let i = sub_word (l.sup_asid (l.p_support sender)) 1
    gain (l.terminal_mutex_proc i)
    l ← get
    transmit_from (w.dev_reg_addr w.il_terminal i) (rounds_of (l.word payload))
        (l.word (payload + 4))
    l ← get
    _ ← syscall w (send (l.terminal_mutex_proc i) nothing)
    send_res nothing

  abbrev pub handle_terminate : (sender : ℕ) → Act (Unit {0})
  handle_terminate sender = uterminate w sender

  unfoldable pub sst_request : (sender service arg : ℕ) → Act (Unit {0})
  sst_request sender service arg =
      if service == 1
      then handle_get_tod
      else if service == 2
      then handle_terminate sender
      else if service == 3
      then handle_write_printer sender arg
      else if service == 4
      then handle_write_terminal sender arg
      else modify λ l. record l { terminated = sender ∷ l.terminated }

  -- `SST_server` before its loop.
  unfoldable pub sst_start : (state : ProcState) → Act (Unit {0})
  sst_start state = do
    support ← get_support_ptr w
    l ← get
    child ← start_uprocess state (l.sup_asid support) support
    modify λ l. record l { u_proc = child }

  -- The rest of a round of the loop, once a message is there.
  unfoldable pub sst_serve : Answer → Act (Unit {0})
  sst_serve a l = if a.v0 == l.u_proc then sst_request a.v0 a.word a.next_word l else done l

  unfoldable pub sst_round : Act (Unit {0})
  sst_round = receive_req >>= sst_serve
