-- ===== src/PhaseTwoTest/Processes.antt =====
-- The processes of phase2/p2test.c, but for `test`, which starts them, and those that raise exceptions.
use Prim.Native.String.{String}
use progetto_so.Base.{
  ℕ, zero, suc, ◌/◌, ◌&&◌, not, ltb, ◌+◌, ◌%◌, ◌^◌, Bool, ◌==◌, if◌then◌else◌, update,
}
use progetto_so.Kernel.Run.{sub_word}
use progetto_so.PhaseTwoTest.{
  Name, root_process, p2_process, p3_process, p4_v1_process, p4_v2_process, p8_process,
  p8root_process, child1_process, child2_process, gchild1_process, gchild2_process, gchild3_process,
  gchild4_process, p9_process, p10_process, nothing, get_time, get_pid, create, Prog, panics, hangs,
  ◌>>=◌, ◌>>◌, done, send, receive, syscall, stck, get, modify, request, print_term0,
  clockwait_process, terminate_process, create_process,
}

-- `a < b` of two values of type `int`.
abbrev int_lt : (a b : ℕ) → Bool
int_lt a b = ltb ((a + 2 ^ 31) % 2 ^ 32) ((b + 2 ^ 31) % 2 ^ 32)

-- The end of a process that asks to be ended, and what it does if it lives on.
abbrev pub ends_itself : String → Prog (Unit {0})
ends_itself text = do terminate_process 0; print_term0 text; panics

abbrev pub receive_from : Name → Prog (Unit {0})
receive_from name = do g ← get; _ ← receive (g.pcb name); done

abbrev send_to : Name → Prog (Unit {0})
send_to name = do g ← get; _ ← send (g.pcb name) nothing; done

abbrev receive_any : Prog (Unit {0})
receive_any = do _ ← receive 0; done

-- A new process, whose block is kept.
abbrev create_named : Name → Prog (Unit {0})
create_named name = do
  g ← get
  p ← create_process (g.state name)
  modify λ g. record g { pcb = update g.pcb name p }

-- GETPROCESSID, and the complaint if it is not the identifier of `name`.
abbrev check_pid : (arg : ℕ) → Name → (text : String) → Prog (Unit {0})
check_pid arg name text = do
  a ← request (get_pid arg)
  g ← get
  if not (a.word == g.pid name) then print_term0 text else done

-- The rounds of a loop that waits for the clock.
unfoldable pub wait_from : (rounds : ℕ) → Prog (Unit {0})
wait_from zero = done
wait_from (suc rounds) = let rest = wait_from rounds in clockwait_process >> rest

-- `scale` is the word at TIMESCALEADDR; the loop that only takes time is left aside.
unfoldable pub p2 : (scale : ℕ) → Prog (Unit {0})
p2 scale = do
  receive_from root_process
  print_term0 "p2 started correctly\n"
  a ← request (get_pid 0)
  g ← get
  if not (a.word == g.pid p2_process)
      then print_term0 "Inconsistent process id for p2!\n"
      else print_term0 "p2 get pid successfully\n"
  now1 ← stck
  first ← request get_time
  second ← request get_time
  now2 ← stck
  let real = sub_word now2 now1
  let used = sub_word second.word first.word
  let least = 30_000 / scale
  if not (int_lt real used) && not (int_lt used least) then print_term0 "p2 is OK\n" else (do
    if int_lt real used then print_term0 "ERROR: more cpu time than real time\n" else done
    if int_lt used least then print_term0 "ERROR: not enough cpu time went by\n" else done
    print_term0 "p2 blew it!\n")
  modify λ g. record g { p1p2sync = 1 }
  send_to root_process
  ends_itself "ERROR: p2 didn't terminate\n"

-- The loop of p3 with the last two times, on fuel; half of the clock's interval is 50000, an unsigned number.
unfoldable pub delay_from : (fuel time1 time2 : ℕ) → Prog (Unit {0})
delay_from zero time1 time2 = hangs
delay_from (suc fuel) time1 time2 =
    let rest = delay_from fuel in
    let round = (do now ← stck; clockwait_process; after ← stck; rest now after) in
    if ltb (sub_word time2 time1) 50_000 then round else done

unfoldable pub p3 : (fuel scale : ℕ) → Prog (Unit {0})
unfolding delay_from wait_from
p3 fuel scale = do
  receive_from root_process
  print_term0 "p3 started correctly\n"
  delay_from fuel 0 0
  print_term0 "p3 - CLOCKWAIT OK\n"
  first ← request get_time
  wait_from 10
  second ← request get_time
  if int_lt (sub_word second.word first.word) (3_000 / scale)
      then print_term0 "ERROR: p3 - CPU time incorrectly maintained\n"
      else print_term0 "p3 - CPU time correctly maintained\n"
  check_pid 0 p3_process "Inconsistent process id for p3!\n"
  send_to root_process
  ends_itself "ERROR: p3 didn't terminate\n"

unfoldable pub p4 : Prog (Unit {0})
p4 = do
  g ← get
  if g.p4inc == 1
      then (do
        print_term0 "first incarnation of p4 starts\n"
        modify λ g. record g { p4inc = g.p4inc + 1 })
      else if g.p4inc == 2
      then (do
        receive_from p4_v1_process
        print_term0 "second incarnation of p4 starts\n"
        send_to p4_v1_process
        receive_any
        print_term0 "ERROR: second incarnation of p4 didn't terminate\n"
        panics)
      else done
  modify λ g. record g {
    state =
        update g.state p4_v1_process (record (g.state p4_v1_process) {
          reg_sp = sub_word (g.state p4_v1_process).reg_sp 1024;
        });
  }
  g ← get
  a ← request (create (g.state p4_v1_process) 0)
  modify λ g. record g { pcb = update g.pcb p4_v2_process a.word }
  send_to p4_v2_process
  receive_from p4_v2_process
  print_term0 "p4 is OK\n"
  send_to root_process
  ends_itself "ERROR: first incarnation of p4 didn't terminate\n"

-- What happens to the process at its system call is up to the nucleus.
unfoldable pub p6 : Prog (Unit {0})
p6 = do
  receive_from root_process
  print_term0 "p6 starts\n"
  syscall 1
  print_term0 "ERROR: p6 alive after SYS9() with no trap vector\n"
  panics

unfoldable pub p8 : Prog (Unit {0})
p8 = do
  receive_any
  print_term0 "p8 starts\n"
  send_to p8_process
  a ← receive 0
  g ← get
  if not (a.v0 == g.pcb p8_process) then print_term0 "ERROR: sender not equal to p8\n" else done
  print_term0 "p8 ok\n"
  send_to root_process
  ends_itself "ERROR: p8 didn't terminate\n"

-- The rounds of the loop that awaits the leaves.
unfoldable pub leaves_from : (rounds : ℕ) → Prog (Unit {0})
leaves_from zero = done
leaves_from (suc rounds) = let rest = leaves_from rounds in receive_any >> rest

unfoldable pub p8root : Prog (Unit {0})
unfolding leaves_from
p8root = do
  receive_from root_process
  print_term0 "p8root starts\n"
  create_named child1_process
  create_named child2_process
  leaves_from 4
  send_to root_process
  ends_itself "ERROR: p8root didn't terminate\n"

unfoldable pub child1 : Prog (Unit {0})
child1 = do
  print_term0 "child1 starts\n"
  check_pid 1 p8_process "Inconsistent (parent) process id for p8's first child\n"
  create_named gchild1_process
  create_named gchild2_process
  receive_any

unfoldable pub child2 : Prog (Unit {0})
child2 = do
  print_term0 "child2 starts\n"
  check_pid 1 p8_process "Inconsistent (parent) process id for p8's first child\n"
  create_named gchild3_process
  create_named gchild4_process
  receive_any

abbrev leaf : (text : String) → Prog (Unit {0})
leaf text = do print_term0 text; send_to p8root_process; receive_any

unfoldable pub p8leaf1 : Prog (Unit {0})
p8leaf1 = leaf "leaf process (1) starts\n"

unfoldable pub p8leaf2 : Prog (Unit {0})
p8leaf2 = leaf "leaf process (2) starts\n"

unfoldable pub p8leaf3 : Prog (Unit {0})
p8leaf3 = leaf "leaf process (3) starts\n"

unfoldable pub p8leaf4 : Prog (Unit {0})
p8leaf4 = leaf "leaf process (4) starts\n"

unfoldable pub p9 : Prog (Unit {0})
p9 = do
  receive_any
  print_term0 "p9 starts\n"
  create_named p10_process
  send_to root_process
  receive_any

unfoldable pub p10 : Prog (Unit {0})
p10 = do
  print_term0 "p10 starts\n"
  check_pid 1 p9_process "Inconsistent process id for p9!\n"
  print_term0 "p9 and p10 ok\n"
  send_to root_process
  ends_itself "ERROR: p10 didn't die with its parent!\n"

unfoldable pub hp_p1 : Prog (Unit {0})
hp_p1 = do print_term0 "hp_p1 starts\n"; ends_itself "ERROR: hp_p1 didn't die!\n"

unfoldable pub hp_p2 : Prog (Unit {0})
unfolding wait_from
hp_p2 = do print_term0 "hp_p2 starts\n"; wait_from 10; ends_itself "ERROR: hp_p2 didn't die!\n"
