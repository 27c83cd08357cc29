-- ===== src/PhaseTwoTest/Traps.antt =====
-- The processes p5 and p7 of phase2/p2test.c, which raise exceptions, and the handlers of p5.
use Prim.Native.Nat.{bit_and, bit_or}
use progetto_so.Base.{ℕ, ◌*◌, ◌/◌, ◌%◌, ◌^◌, not, ◌==◌, if◌then◌else◌, update}
use progetto_so.Kernel.State.{ProcState}
use progetto_so.Kernel.Run.{add_word}
use progetto_so.PhaseTwoTest.{
  root_process, get_support, Prog, returns, panics, loads, stores, ldst, ◌>>=◌, ◌>>◌, done, syscall,
  get, modify, request, print_term0,
}
use progetto_so.PhaseTwoTest.Processes.{receive_from, ends_itself}

-- `*addr = value`
abbrev store : (addr value : ℕ) → Prog (Unit {0})
store addr value = stores addr value done

-- `pFiveSupport.sup_exceptState[i] = …`
abbrev set_state : (i : ℕ) → (ProcState → ProcState) → Prog (Unit {0})
set_state i f =
    modify
      λ g. record g { five_except_state = update g.five_except_state i (f (g.five_except_state i)) }

abbrev return_to_state : (i : ℕ) → Prog (Unit {0})
return_to_state i = do g ← get; ldst (g.five_except_state i)

-- The status is tested by its bit 3, `KUPBITON`.
unfoldable pub p5sys : Prog (Unit {0})
p5sys = do
  print_term0 "p5sys enter\n"
  g ← get
  let user = (((g.five_except_state 1).status * 2 ^ 28) % 2 ^ 32) / 2 ^ 31
  if user == 1
      then print_term0
          "ERROR: high level SYS call from USER mode process (should be in kernel mode)\n"
      else if user == 0
      then print_term0 "High level SYS call from kernel mode process\n"
      else print_term0 "ERROR: p5sys cannot recognise the status\n"
  set_state 1 λ s. record s { pc_epc = add_word s.pc_epc 4 }
  return_to_state 1

-- The addresses of `p5a`, `p5b` and `pFiveSupport`.
module _ (p5a_code p5b_code five_support : ℕ) where
  unfoldable pub p5gen : Prog (Unit {0})
  unfolding p5sys
  p5gen = do
    g ← get
    let code = ((g.five_except_state 1).cause % 256) / 4
    if code == 6
        then (do
          print_term0 "Bus Error (as expected): Access non-existent memory\n"
          set_state 1 λ s. record s { pc_epc = p5a_code })
        else if code == 10
        then (do
          print_term0 "privileged instruction\n"
          set_state 1 λ s. record s { pc_epc = p5b_code }
          set_state 1 λ s. record s { status = bit_and s.status 0xffff_fff7 })
        else if code == 4
        then (do
          print_term0 "Address Error (as expected): non-kuseg access w/KU=1\n"
          set_state 1 λ s. record s { status = bit_and s.status 0xffff_fff7 }
          set_state 1 λ s. record s { pc_epc = p5b_code })
        else if code == 8
        then p5sys
        else print_term0 "ERROR: other program trap\n" >> panics
    return_to_state 1

  unfoldable pub p5mm : Prog (Unit {0})
  p5mm = do
    print_term0 "memory management trap\n"
    a ← request get_support
    if not (a.word == five_support)
        then print_term0 "ERROR: support structure addresses are not the same\n"
        else print_term0 "Correct Support Structure Address\n"
    set_state 0 λ s. record s { status = bit_or s.status 8 }
    set_state 0 λ s. record s { pc_epc = p5b_code }
    return_to_state 0

unfoldable pub p5 : Prog (Unit {0})
p5 = do
  receive_from root_process
  print_term0 "p5 starts\n"
  g ← get
  v ← loads g.p5_mem_location returns
  store g.p5_mem_location (add_word v 1)

unfoldable pub p5a : Prog (Unit {0})
p5a = do
  print_term0 "p5a starts\n"
  modify λ g. record g { p5_mem_location = 0x8000_0000 }
  g ← get
  store g.p5_mem_location 42

unfoldable pub p5b : Prog (Unit {0})
p5b = do syscall 1; print_term0 "p5 ok\n"; ends_itself "ERROR: p5 didn't terminate\n"

unfoldable pub p7 : Prog (Unit {0})
p7 = do
  receive_from root_process
  print_term0 "p7 starts\n"
  store 0xffff_ffff 0
  print_term0 "ERROR: p7 alive after program trap with no trap vector\n"
  panics
