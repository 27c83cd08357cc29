-- ===== src/PhaseOneTest/Passing.antt =====
-- The run of phase1/p1test.c as a whole, with the tables at the addresses of Pcb.Samples and the heads `qa` and `qm`
-- at 300 and 400.
use progetto_so.Base.{ℕ, List, ◌<◌, ◌≡◌, ◌∙◌, refl, ap, fun_ext, Option, none, some, arith}
use progetto_so.Listx.{
  list_add, list_add_tail, list_del, list_empty, list_prev, init_list_head, list_search,
}
use progetto_so.Pcb.{
  init_pcbs, alloc_pcb, free_pcb, mk_empty_proc_q, empty_proc_q, insert_proc_q, head_proc_q,
  out_proc_q, remove_proc_q, empty_child, insert_child, out_child, remove_child, reset_pcb, orphan,
}
use progetto_so.Msg.{
  init_msgs, alloc_msg, free_msg, mk_empty_message_q, empty_message_q, insert_message, push_message,
  pop_message, head_message, reset_msg,
}
use progetto_so.Pcb.Samples.{layout}
use progetto_so.PhaseOneTest.{
  Terminals, Program, Act, Outcome, returns, panics, hangs, copy, noted, addokbuf, adderrbuf,
  printing,
}
use progetto_so.PhaseOneTest.Printing.{IsSettling, termprint-settles}
use progetto_so.PhaseOneTest.Main.{main}

-- The static variables as the program starts: the free list of the process blocks is empty, and `mp` is `okbuf`.
abbrev pub loaded : Program → Program
loaded t = record t {
  store = record t.store { mem = init_list_head layout.pcb_free_h t.store.mem };
  mp = 0;
}

-- What a run returns, and where `mp` then stands.
abbrev exit_of : Outcome ℕ → Option (ℕ × ℕ)
exit_of (returns v t) = some (v, t.mp)
exit_of (panics t) = none
exit_of (hangs t) = none

abbrev value_or : ℕ × ℕ → Option (ℕ × ℕ) → ℕ × ℕ
value_or r none = r
value_or r (some s) = s

exit_of-returns :
    (v i : ℕ) (r : Outcome ℕ)
    → exit_of r ≡ some (v, i)
    → (u : Program) × (r ≡ returns v u) × (u.mp ≡ i)
exit_of-returns v i (returns n t) e =
    let pair : (n, t.mp) ≡ (v, i) = ap (value_or (0, 0)) e in
    (t, ap (λ (p : ℕ × ℕ). returns p.0 t) pair, ap (λ (p : ℕ × ℕ). p.1) pair)
exit_of-returns v i (panics t) e = absurd (ground (arith, e))
exit_of-returns v i (hangs t) e = absurd (ground (arith, e))

-- `addokbuf` where it returns.
abbrev returning : Terminals → List ℕ → Act (Unit {0})
returning d str t = returns tt (noted d str t)

addokbuf-returning : (d : Terminals) → IsSettling d → addokbuf d ≡ returning d
unfolding addokbuf
addokbuf-returning d settles =
    fun_ext
      (λ str. fun_ext (λ t. let (b, e) = termprint-settles d str t.commands settles in rw e refl))

exit_of-main :
    (d : Terminals) (fail : List ℕ → Act (Unit {0})) (t : Program)
    → exit_of (main (record { okprint = returning d; errprint = fail }) layout 300 400 (loaded t))
      ≡ some (0, 670)
unfolding main copy list_add list_add_tail list_del list_empty list_prev init_list_head list_search
    init_pcbs alloc_pcb free_pcb mk_empty_proc_q empty_proc_q insert_proc_q head_proc_q out_proc_q
    remove_proc_q empty_child insert_child out_child remove_child reset_pcb orphan init_msgs
    alloc_msg free_msg mk_empty_message_q empty_message_q insert_message push_message pop_message
    head_message reset_msg
exit_of-main d fail t = refl

-- With the tables of the process blocks and the messages at 10000 and 30000 and the two heads of `main` at 300 and 400,
-- whatever else the memory and the variables hold as the program starts, but for the empty free list and `mp`, the test
-- of phase 1 finds no fault, if the first terminal is not busy for ever after a command: `main` ends, no check of it
-- leads to PANIC, it returns 0, and `mp` still points into the buffer of 2048 characters.
pub main-passes :
    (d : Terminals) (t : Program)
    → IsSettling d
    → (u : Program) × (main (printing d) layout 300 400 (loaded t) ≡ returns 0 u) × (u.mp < 2048)
main-passes d t settles =
    let run = λ (p : List ℕ → Act (Unit {0})).
      main (record { okprint = p; errprint = adderrbuf d }) layout 300 400 (loaded t) in
    let (u, e, i) = exit_of-returns 0 670 (run (returning d)) (exit_of-main d (adderrbuf d) t) in
    (u, ap run (addokbuf-returning d settles) ∙ e, omega (arith, i))
