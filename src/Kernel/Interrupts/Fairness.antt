-- ===== src/Kernel/Interrupts/Fairness.antt =====
-- Round robin: how phase2/interrupts.c and phase2/scheduler.c share the processor when each process uses up its
-- time slice.
use Prim.Native.Nat.{bit_and}
use progetto_so.Base.{
  ℕ, zero, suc, ◌==◌, ◌≡◌, ◌≢◌, refl, sym, subst, ap, ◌∙◌, false, List, [], ◌∷◌, ◌++◌, length, has,
  Option, some, none, arith, ==-false, has-append,
}
use mathlib.Core.List.{append_assoc}
use progetto_so.Listx.{null}
use progetto_so.Kernel.State.{Kernel}
use progetto_so.Kernel.Run.{Run, ldst, stops}
use progetto_so.Kernel.Scheduler.{interval_tod, update_process_cpu_time, dispatch, scheduler}
use progetto_so.Kernel.Interrupts.{Machine, plt_handler, serve_line, interrupt_handler}

-- `runs` is what a process does in its time slice, at the end of which the local timer's interrupt is pending.
-- It may change the memory and its registers, and does not reach the nucleus's variables.
pub record IsSlice (h : Machine) (runs : Kernel → Kernel) : Type 0 where
  pub current : (k : Kernel) → (runs k).current_process ≡ k.current_process
  pub ready : (k : Kernel) → (runs k).ready_queue ≡ k.ready_queue
  pub pending :
      (k : Kernel)
      → (bit_and (bit_and (runs k).proc_state.cause h.cause_ip_mask) 0x200 == 0) ≡ false

-- The state from which a process goes on, if one does.
abbrev pub resumed : Run (Unit {0}) → Option Kernel
resumed (stops (ldst s) t) = some t
resumed _ = none

-- Time slices one after the other, as long as the nucleus gives the processor to a process.
unfoldable pub next_slices : (Kernel → Option Kernel) → Option Kernel → Option Kernel
next_slices f none = none
next_slices f (some t) = f t

unfoldable pub slices : (h : Machine) (runs : Kernel → Kernel) → ℕ → Kernel → Option Kernel
unfolding next_slices
slices h runs zero k = some k
slices h runs (suc n) k = next_slices (slices h runs n) (resumed (interrupt_handler h (runs k)))

-- The state after one time slice: the first ready process runs, the other stands last.
abbrev IsNext : (x cur : ℕ) (xs : List ℕ) → Option Kernel → Type 0
IsNext x cur xs o =
    (t : Kernel) × (o ≡ some t) × (t.current_process ≡ x) × (t.ready_queue ≡ xs ++ cur ∷ [])

plt_handler-IsNext :
    (h : Machine) (x : ℕ) (xs : List ℕ) (k : Kernel)
    → k.current_process ≢ null
    → k.ready_queue ≡ x ∷ xs
    → IsNext x k.current_process xs (resumed (plt_handler h k))
unfolding plt_handler update_process_cpu_time interval_tod scheduler dispatch
plt_handler-IsNext h x xs k live queue =
    rw (==-false k.current_process null live, queue) (_, refl, refl, refl)

interrupt_handler-IsNext :
    (h : Machine) (x : ℕ) (xs : List ℕ) (k : Kernel)
    → k.current_process ≢ null
    → k.ready_queue ≡ x ∷ xs
    → (bit_and (bit_and k.proc_state.cause h.cause_ip_mask) 0x200 == 0) ≡ false
    → IsNext x k.current_process xs (resumed (interrupt_handler h k))
unfolding interrupt_handler serve_line update_process_cpu_time interval_tod
interrupt_handler-IsNext h x xs k live queue pending =
    rw (==-false k.current_process null live, pending) (plt_handler-IsNext h x xs _ live queue)

slice-IsNext :
    (h : Machine) (runs : Kernel → Kernel)
    → IsSlice h runs
    → (x : ℕ) (xs : List ℕ) (k : Kernel) → k.current_process ≢ null
    → k.ready_queue ≡ x ∷ xs
    → IsNext x k.current_process xs (resumed (interrupt_handler h (runs k)))
slice-IsNext h runs s x xs k live queue =
    subst (λ c. IsNext x c xs (resumed (interrupt_handler h (runs k)))) (s.current k)
      (interrupt_handler-IsNext h x xs (runs k) (λ e. live (sym (s.current k) ∙ e))
        (s.ready k ∙ queue) (s.pending k))

live_snoc : (p : ℕ) (xs : List ℕ) → p ≢ null → has null xs ≡ false → has null (xs ++ p ∷ []) ≡ false
live_snoc p xs pn h = ground (arith, has-append null xs (p ∷ []))

-- Round robin: while every process uses up its time slice, a ready process with `length xs` others before it
-- gets the processor after as many slices and one more, and those others then stand behind the process that
-- runs now, in the same order.
pub slices-turn :
    (h : Machine) (runs : Kernel → Kernel) (xs : List ℕ) (q : ℕ) (ys : List ℕ) (k : Kernel)
    → IsSlice h runs
    → k.current_process ≢ null
    → has null k.ready_queue ≡ false
    → k.ready_queue ≡ xs ++ q ∷ ys
    → (t : Kernel) × (slices h runs (suc (length xs)) k ≡ some t)
      × (t.current_process ≡ q)
      × (t.ready_queue ≡ ys ++ k.current_process ∷ xs)
unfolding slices next_slices
slices-turn h runs [] q ys k s live all queue =
    let (t, e, c, r) = slice-IsNext h runs s q ys k live queue in
    (t, ap (next_slices (slices h runs zero)) e, c, r)
slices-turn h runs (x ∷ xs) q ys k s live all queue =
    let (u, e, c, r) = slice-IsNext h runs s x (xs ++ q ∷ ys) k live queue in
    let r' : u.ready_queue ≡ xs ++ q ∷ (ys ++ k.current_process ∷ []) =
      r ∙ append_assoc xs (q ∷ ys) (k.current_process ∷ []) in
    let all' : has null (x ∷ xs ++ q ∷ ys) ≡ false = subst (λ w. has null w ≡ false) queue all in
    let xn : x ≢ null = λ i. ground arith in
    let later : has null (xs ++ q ∷ ys) ≡ false = ground arith in
    let (t, e', c', w') =
      slices-turn h runs xs q (ys ++ k.current_process ∷ []) u s (λ i. xn (sym c ∙ i))
        (subst (λ w. has null w ≡ false) (sym r)
          (live_snoc k.current_process (xs ++ q ∷ ys) live later))
        r' in
    (
      t,
      ap (next_slices (slices h runs (suc (length xs)))) e ∙ e',
      c',
      w'
          ∙ append_assoc ys (k.current_process ∷ []) (u.current_process ∷ xs)
          ∙ ap (λ i. ys ++ k.current_process ∷ i ∷ xs) c,
    )
