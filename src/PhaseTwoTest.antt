-- ===== src/PhaseTwoTest.antt =====
-- phase2/p2test.c: the test program of phase 2, whose processes share their variables. A process is a tree of what
-- it does next: between two nodes others may run. Here stand the trees and the functions that all processes call;
-- Processes and Traps have the processes.

pub mod Processes
pub mod Traps
use Prim.Native.Char.{code}
use Prim.Native.String.{String}
use progetto_so.Base.{
  ℕ, zero, suc, ◌+◌, ◌*◌, ◌%◌, ◌^◌, List, [], ◌∷◌, ◌==◌, not, if◌then◌else◌, update,
}
use progetto_so.Kernel.State.{ProcState}
use progetto_so.Support.State.{Answer}

-- What a message points to: nothing, a string, or a request to the service interface with its argument.
pub data Payload : Type 0 where
  nothing : Payload
  text : List ℕ → Payload
  create : ProcState → (support : ℕ) → Payload
  end_process : ℕ → Payload
  do_io : (addr value : ℕ) → Payload
  get_time : Payload
  clock_wait : Payload
  get_support : Payload
  get_pid : ℕ → Payload

-- The shared variables: for each process its block, its state and its identifier, by its place in `Name`; the child
-- processes of the first one as `p_child` has them are the nucleus's.
abbrev pub Name : Type 0
Name = ℕ

abbrev pub root_process : Name
root_process = 0

abbrev pub printer_process : Name
printer_process = 1

abbrev pub p2_process : Name
p2_process = 2

abbrev pub p3_process : Name
p3_process = 3

abbrev pub p4_v1_process : Name
p4_v1_process = 4

abbrev pub p4_v2_process : Name
p4_v2_process = 5

abbrev pub p5_process : Name
p5_process = 6

abbrev pub p6_process : Name
p6_process = 7

abbrev pub p7_process : Name
p7_process = 8

abbrev pub p8_process : Name
p8_process = 9

abbrev pub p8root_process : Name
p8root_process = 10

abbrev pub child1_process : Name
child1_process = 11

abbrev pub child2_process : Name
child2_process = 12

abbrev pub gchild1_process : Name
gchild1_process = 13

abbrev pub gchild2_process : Name
gchild2_process = 14

abbrev pub gchild3_process : Name
gchild3_process = 15

abbrev pub gchild4_process : Name
gchild4_process = 16

abbrev pub p9_process : Name
p9_process = 17

abbrev pub p10_process : Name
p10_process = 18

pub record Shared : Type 0 where
  pub pcb : Name → ℕ
  pub pid : Name → ℕ
  pub state : Name → ProcState
  pub p1p2sync : ℕ
  pub p4inc : ℕ
  pub p5_mem_location : ℕ
  pub five_except_state : ℕ → ProcState
  pub ssi_pcb : ℕ

-- SYSCALL by its number, STCK, reading and writing of the shared variables and of a word of the memory, which may
-- raise an exception, and the end: a return, PANIC, LDST, or a loop that does not end.
pub data Prog (A : Type 0) : Type 0 where
  returns : A → Prog A
  panics : Prog A
  hangs : Prog A
  sends : (destination : ℕ) → Payload → (ℕ → Prog A) → Prog A
  receives : (sender : ℕ) → (Answer → Prog A) → Prog A
  calls : (number : ℕ) → Prog A → Prog A
  reads_clock : (ℕ → Prog A) → Prog A
  gets : (Shared → Prog A) → Prog A
  puts : (Shared → Shared) → Prog A → Prog A
  loads : (addr : ℕ) → (ℕ → Prog A) → Prog A
  stores : (addr value : ℕ) → Prog A → Prog A
  ldst : ProcState → Prog A

module _ {A B : Type 0} where
  infixl 5 ◌>>=◌ ◌>>◌
  unfoldable pub ◌>>=◌ : Prog A → (A → Prog B) → Prog B
  returns a >>= f = f a
  panics >>= f = panics
  hangs >>= f = hangs
  sends p x k >>= f = sends p x (λ r. k r >>= f)
  receives p k >>= f = receives p (λ a. k a >>= f)
  calls n k >>= f = calls n (k >>= f)
  reads_clock k >>= f = reads_clock (λ t. k t >>= f)
  gets k >>= f = gets (λ s. k s >>= f)
  puts g k >>= f = puts g (k >>= f)
  loads a k >>= f = loads a (λ v. k v >>= f)
  stores a v k >>= f = stores a v (k >>= f)
  ldst s >>= f = ldst s

  abbrev pub ◌>>◌ : Prog A → Prog B → Prog B
  x >> y = x >>= λ _. y

abbrev pub done : Prog (Unit {0})
done = returns tt

abbrev pub send : (destination : ℕ) → Payload → Prog ℕ
send p x = sends p x returns

abbrev pub receive : (sender : ℕ) → Prog Answer
receive p = receives p returns

abbrev pub syscall : (number : ℕ) → Prog (Unit {0})
syscall n = calls n done

abbrev pub stck : Prog ℕ
stck = reads_clock returns

abbrev pub get : Prog Shared
get = gets returns

abbrev pub modify : (Shared → Shared) → Prog (Unit {0})
modify f = puts f done

-- The code points of a literal.
abbrev pub codes : String → List ℕ
codes String.[] = []
codes (String.◌∷◌ c s) = code c ∷ codes s

-- A request to the service interface and its answer.
unfoldable pub request : Payload → Prog Answer
unfolding ◌>>=◌
request x = do s ← get; _ ← send s.ssi_pcb x; s ← get; receive s.ssi_pcb

-- The loop of `print` over the characters of a string.
unfoldable pub print_from : List ℕ → Prog (Unit {0})
unfolding ◌>>=◌ request
print_from [] = done
print_from (c ∷ cs) =
    let rest = print_from cs in
    request (do_io (0x1000_0254 + 12) ((c * 256) % 2 ^ 32 + 2)) >>= λ a.
    if a.word % 256 == 5 then rest else panics

-- A round of the loop of `print`, where `string_at` is the string at an address.
unfoldable pub print_round : (string_at : ℕ → List ℕ) → Prog (Unit {0})
unfolding ◌>>=◌ print_from
print_round string_at = do a ← receive 0; print_from (string_at a.word); _ ← send a.v0 nothing; done

unfoldable pub print_term0 : String → Prog (Unit {0})
unfolding ◌>>=◌
print_term0 s = do
  g ← get
  _ ← send (g.pcb printer_process) (text (codes s))
  g ← get
  _ ← receive (g.pcb printer_process)
  done

unfoldable pub clockwait_process : Prog (Unit {0})
unfolding ◌>>=◌ request
clockwait_process = do _ ← request clock_wait; done

-- 0 is the process itself.
unfoldable pub terminate_process : (arg : ℕ) → Prog (Unit {0})
unfolding ◌>>=◌ request
terminate_process arg = do _ ← request (end_process arg); done

unfoldable pub create_process : ProcState → Prog ℕ
unfolding ◌>>=◌ request
create_process state = do a ← request (create state 0); returns a.word
