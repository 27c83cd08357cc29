-- ===== src/Support/Tests/Start.antt =====
-- The start of the support level on a machine whose devices answer with the status 1.
use progetto_so.Base.{ℕ, ◌+◌, ◌*◌, Option, none, some}
use progetto_so.Support.State.{Answer, Level, World}
use progetto_so.Support.Tests.Samples.{machine, level}

abbrev reply : Answer
reply = record { v0 = 10; word = 1; next_word = 0 }

abbrev answering : World
answering = record machine { answer = λ cs. some reply }

abbrev word_of : Option Answer → ℕ
word_of none = 0
word_of (some a) = a.word

abbrev before : Level
before = record level { curr_offset = 1 }

abbrev supports : ℕ → ℕ
supports i = 2000 + i * 500
