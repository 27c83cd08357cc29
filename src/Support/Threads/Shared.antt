-- ===== src/Support/Threads/Shared.antt =====
-- The variable `u_proc` of phase3/sst.c, which all threads share.
use progetto_so.Base.{ℕ, ◌≡◌, ◌≢◌, ◌==◌, ◌∙◌, false, refl, sym, ap, some, List, ◌∷◌, ==-false}
use progetto_so.Kernel.State.{ProcState}
use progetto_so.Support.State.{
  Call, send, receive, process_request, support_request, Payload, Answer, Level, World, returns,
  Act, and_then, ◌>>◌, modify,
}
use progetto_so.Support.Calls.{create_process, get_support_ptr}
use progetto_so.Support.Threads.{init_uproc_state, start_uprocess, send_res, sst_start, sst_serve}
use progetto_so.Support.Syscalls.{IsResponsive, answered-syscall, request-answered}

-- The calls of a thread that asks for its support structure, which is `s`, and starts its child.
abbrev pub support_calls : Level → List Call
support_calls l = receive l.ssi_pcb ∷ send l.ssi_pcb support_request ∷ l.calls

abbrev pub start_calls : (w : World) → ProcState → (s : ℕ) → Level → List Call
start_calls w state s l =
    receive l.ssi_pcb
    ∷ send l.ssi_pcb (process_request (init_uproc_state w (l.sup_asid s) state) s)
    ∷ support_calls l

sst_start-answered :
    (w : World) (state : ProcState) (l : Level) (s child : Answer)
    → IsResponsive w
    → w.answer (support_calls l) ≡ some s
    → w.answer (start_calls w state s.word l) ≡ some child
    → sst_start w state l
      ≡ returns tt (record l { calls = start_calls w state s.word l; u_proc = child.word })
unfolding sst_start get_support_ptr start_uprocess create_process
sst_start-answered w state l s child m e f =
    let u = record l { calls = support_calls l } in
    rw
      (
        request-answered w support_request l s m e,
        request-answered w (process_request (init_uproc_state w (l.sup_asid s.word) state) s.word) u
            child m f,
      )
      refl

-- A thread with the support structure `s` has started `child`.
abbrev pub started : (w : World) → ProcState → (s child : ℕ) → Level → Level
started w state s child l = record l { calls = start_calls w state s l; u_proc = child }

-- The processor goes to a process.
abbrev pub on : ℕ → Level → Level
on thread l = record l { current_process = thread }

-- Two threads start their children, one after the other, and then the first goes on.
abbrev pub two_start : (w : World) (first second : ℕ) (state later : ProcState) → Act (Unit {0})
two_start w first second state later = do
  modify (on first)
  sst_start w state
  modify (on second)
  sst_start w later
  modify (on first)

abbrev pub two_started :
    (w : World) (first second : ℕ) (state later : ProcState) (s child s' child' : ℕ) → Level → Level
two_started w first second state later s child s' child' l =
    on first (started w later s' child' (on second (started w state s child (on first l))))

two_start-started :
    (w : World) (first second : ℕ) (state later : ProcState) (l : Level)
    (s child s' child' : Answer)
    → IsResponsive w
    → w.answer (support_calls l) ≡ some s
    → w.answer (start_calls w state s.word l) ≡ some child
    → let t = started w state s.word child.word l in
      w.answer (support_calls t) ≡ some s'
      → w.answer (start_calls w later s'.word t) ≡ some child'
      → two_start w first second state later l
        ≡ returns tt
            (two_started w first second state later s.word child.word s'.word child'.word l)
two_start-started w first second state later l s child s' child' m e f g h =
    let t = started w state s.word child.word (on first l) in
    rw
      (
        sst_start-answered w state (on first l) s child m e f,
        sst_start-answered w later (on second t) s' child' m g h,
      )
      refl

-- When two system service threads have started their children, which are not the same, the variable that both share
-- names the second child: the first thread drops the request of its own child without a system call, and sends its
-- answers to the other thread's child. Every system call is answered.
pub sst_start-Misdirected :
    (w : World) (first second : ℕ) (state later : ProcState) (l : Level)
    (s child s' child' a : Answer) (p : Payload)
    → IsResponsive w
    → w.answer (support_calls l) ≡ some s
    → w.answer (start_calls w state s.word l) ≡ some child
    → let t = started w state s.word child.word l in
      w.answer (support_calls t) ≡ some s'
      → w.answer (start_calls w later s'.word t) ≡ some child'
      → child.word ≢ child'.word
      → a.v0 ≡ child.word
      → let u = two_started w first second state later s.word child.word s'.word child'.word l in
        (and_then (two_start w first second state later l) (λ _. sst_serve w a) ≡ returns tt u)
        × (and_then (two_start w first second state later l) (λ _. send_res w p)
            ≡ returns tt (record u { calls = send child'.word p ∷ u.calls }))
unfolding sst_serve send_res
sst_start-Misdirected w first second state later l s child s' child' a p m e f g h apart own =
    let u = two_started w first second state later s.word child.word s'.word child'.word l in
    let (b, i) = m (send child'.word p ∷ u.calls) in
    let both = two_start-started w first second state later l s child s' child' m e f g h in
    let other : (a.v0 == child'.word) ≡ false =
      ==-false a.v0 child'.word (λ q. apart (sym own ∙ q)) in
    (
      ap (λ r. and_then r (λ _. sst_serve w a)) both ∙ rw other refl,
      ap (λ r. and_then r (λ _. send_res w p)) both
          ∙ rw (answered-syscall w (send child'.word p) u b i) refl,
    )
