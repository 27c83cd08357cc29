-- ===== src/Support/Tests/Threads.antt =====
-- The system service threads' theorems, on concrete threads.
use progetto_so.Base.{◌+◌, update, ℕ, ◌≡◌, refl, arith, List, [], ◌∷◌, length, some}
use progetto_so.Kernel.Tests.Samples.{registers}
use progetto_so.Support.State.{
  nothing, send, receive, returns, and_then, Call, Answer, World, Level,
}
use progetto_so.Support.Syscalls.{IsResponsive}
use progetto_so.Support.Threads.Printer.{first_printed, handle_write_printer-truncates}
use progetto_so.Support.Threads.{handle_write_printer, handle_write_terminal, send_res, sst_serve}
use progetto_so.Support.Threads.Transmit.{trace, Transmitted, handle_write_terminal-Transmitted}
use progetto_so.Support.Threads.Shared.{two_start, two_started, sst_start-Misdirected}
use progetto_so.Support.Tests.Samples.{machine, level}

machine-IsResponsive : IsResponsive machine
machine-IsResponsive cs = (_, refl)

handle_write_terminal-Transmitted_example :
    (k : ℕ) × (memory : ℕ → ℕ) × (handle_write_terminal machine 20 5000 level
      ≡ returns tt (record level {
        calls =
            send 20 nothing
            ∷ send 100 nothing
            ∷ trace machine 9 0x1000_03d4 k 6000 (receive 100 ∷ send 100 nothing ∷ []);
        word = memory;
      }))
    × Transmitted machine 9 0x1000_03d4 3 6000 (receive 100 ∷ send 100 nothing ∷ []) k
handle_write_terminal-Transmitted_example =
    handle_write_terminal-Transmitted machine 20 5000 level machine-IsResponsive

-- Every answer is the number of calls so far: the children of two threads that start one after the other are 4 and 8.
abbrev counted : List Call → Answer
counted cs = record { v0 = 10; word = length cs; next_word = 0 }

abbrev counting : World
counting = record machine { answer = λ cs. some (counted cs) }

abbrev fresh : Level
fresh = record level { calls = [] }

abbrev both_started : Level
both_started = two_started counting 11 12 registers registers 2 4 6 8 fresh

sst_start-Misdirected_example :
    (and_then
        (two_start counting 11 12 registers registers fresh)
        (λ _. sst_serve counting (record { v0 = 4; word = 1; next_word = 0 }))
      ≡ returns tt both_started)
    × (and_then
          (two_start counting 11 12 registers registers fresh)
          (λ _. send_res counting nothing)
        ≡ returns tt (record both_started { calls = send 8 nothing ∷ both_started.calls }))
sst_start-Misdirected_example =
    sst_start-Misdirected counting 11 12 registers registers fresh
      (record { v0 = 10; word = 2; next_word = 0 }) (record { v0 = 10; word = 4; next_word = 0 })
      (record { v0 = 10; word = 6; next_word = 0 }) (record { v0 = 10; word = 8; next_word = 0 })
      (record { v0 = 4; word = 1; next_word = 0 }) nothing (λ cs. (_, refl)) refl refl refl refl
      (λ e. omega (arith, e)) refl

handle_write_printer-truncates_example :
    handle_write_printer machine 20 5000 level
    ≡ returns tt (record level {
      calls = send 20 nothing ∷ send 200 nothing ∷ first_printed machine 20 level;
      word = update level.word (0x1000_0354 + 8) 65;
    })
handle_write_printer-truncates_example =
    handle_write_printer-truncates machine 20 5000 level
      (record { v0 = 10; word = 5; next_word = 0 }) machine-IsResponsive refl refl
      (λ e. omega (arith, e))
