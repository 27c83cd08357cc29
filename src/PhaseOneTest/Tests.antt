-- ===== src/PhaseOneTest/Tests.antt =====
-- Runs of the test program of phase 1.
use progetto_so.Base.{◌≡◌, ◌<◌, refl, ◌==◌, if◌then◌else◌, some, ◌∷◌, []}
use progetto_so.Pcb.Samples.{boot, layout}
use progetto_so.PhaseOneTest.{
  Terminals, Program, returns, done, printed_then, printing, termprint, addokbuf,
}
use progetto_so.PhaseOneTest.Main.{main}
use progetto_so.PhaseOneTest.Passing.{loaded, main-passes}
use progetto_so.PhaseOneTest.Printing.{IsText, Printed, addokbuf-IsText}

-- Terminals that transmit whatever they get.
abbrev terminals : Terminals
terminals = record { status = λ i cs. 1; settled = λ i cs. some 5; ready = 1 }

-- The buffer holds `ab`.
abbrev program : Program
program = record {
  store = boot;
  commands = λ i. [];
  okbuf = λ i. if i == 0 then 97 else if i == 1 then 98 else 0;
  mp = 2;
  errbuf = λ i. 0;
  procp = λ i. 0;
  msg = λ i. 0;
  q = 0;
  firstproc = 0;
  midproc = 0;
  lastproc = 0;
  m = 0;
  n = 0;
  firstmsg = 0;
  midmsg = 0;
  lastmsg = 0;
}

main-passes_example :
    (u : Program) × (main (printing terminals) layout 300 400 (loaded program) ≡ returns 0 u)
    × (u.mp < 2048)
main-passes_example = main-passes terminals program (λ cs. (5, refl))

addokbuf-IsText_example :
    (u : Program) × (addokbuf terminals (99 ∷ []) program
      ≡ printed_then (termprint terminals (99 ∷ []) 0 program.commands).0 done u)
    × IsText u.okbuf 0 (97 ∷ 98 ∷ 99 ∷ [])
    × (u.mp ≡ 3)
    × Printed terminals
        (99 ∷ [])
        0
        program.commands
        ((termprint terminals (99 ∷ []) 0 program.commands).0, u.commands)
addokbuf-IsText_example =
    addokbuf-IsText terminals (99 ∷ []) (97 ∷ 98 ∷ []) program (refl, (refl, refl)) refl

-- The commands for the two characters of a string, the last first.
termprint-commands : (termprint terminals (97 ∷ 98 ∷ []) 0 (λ i. [])).1 0 ≡ 25_090 ∷ 24_834 ∷ []
unfolding termprint
termprint-commands = refl
