-- ===== src/Support/Tests/Exceptions.antt =====
-- The exceptions of the user process 20.
use progetto_so.Kernel.Tests.Samples.{registers}
use progetto_so.Support.State.{Level, Answer}
use progetto_so.Support.Tests.Samples.{level}

-- It sends the message at 77 to its parent, which is 10.
abbrev sending : Level
sending = record level {
  sup_except_state = λ s i. record registers { cause = 32; reg_a0 = 1; reg_a2 = 77 };
}

abbrev reply : Answer
reply = record { v0 = 10; word = 5; next_word = 0 }
