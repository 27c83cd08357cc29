-- ===== src/Kernel/Run.antt =====
-- How a function of the nucleus ends: it returns, or it hands the processor over and never returns.
use progetto_so.Base.{ℕ, ◌+◌, ◌-◌, ◌%◌, Bool, ltb, leb, ◌&&◌}
use progetto_so.Kernel.State.{ProcState, Kernel, word_mod, int_max}

-- `LDST`, `LDCXT` with the support structure and the index of the context, `HALT`, `PANIC` and `WAIT` of the
-- emulator's library; the last is no part of the source, but what a model on fuel can end with.
pub data Stop : Type 0 where
  ldst : ProcState → Stop
  ldcxt : (support index : ℕ) → Stop
  halt : Stop
  panic : Stop
  wait : Stop
  out_of_fuel : Stop

pub data Run (A : Type 0) : Type 0 where
  returns : A → Kernel → Run A
  stops : Stop → Kernel → Run A

abbrev pub Cmd : Type 0 → Type 0
Cmd A = Kernel → Run A

module _ {A B : Type 0} where
  abbrev pub and_then : Run A → (A → Cmd B) → Run B
  and_then (returns a k) f = f a k
  and_then (stops e k) f = stops e k

  infixl 5 ◌>>=◌ ◌>>◌
  abbrev pub ◌>>=◌ : Cmd A → (A → Cmd B) → Cmd B
  m >>= f = λ k. and_then (m k) f

  abbrev pub ◌>>◌ : Cmd A → Cmd B → Cmd B
  m >> n = m >>= λ _. n

abbrev pub pure : {A : Type 0} → A → Cmd A
pure = returns

abbrev pub stop : {A : Type 0} → Stop → Cmd A
stop e k = stops e k

abbrev pub modify : (Kernel → Kernel) → Cmd (Unit {0})
modify f k = returns tt (f k)

abbrev pub get : Cmd Kernel
get k = returns k k

-- The state in which a function leaves the nucleus, however it ends.
abbrev pub final : {A : Type 0} → Run A → Kernel
final (returns a k) = k
final (stops e k) = k

-- The machine's arithmetic.
abbrev pub add_word : ℕ → ℕ → ℕ
add_word a b = (a + b) % word_mod

abbrev pub sub_word : ℕ → ℕ → ℕ
sub_word a b = (a + word_mod - b) % word_mod

-- `a > b` and `a >= b` of an `int` and a constant `b` that is not negative.
abbrev pub int_gt : ℕ → ℕ → Bool
int_gt a b = ltb b a && leb a int_max

abbrev pub int_ge : ℕ → ℕ → Bool
int_ge a b = leb b a && leb a int_max

abbrev pub minus_one : ℕ
minus_one = word_mod - 1

abbrev pub minus_two : ℕ
minus_two = word_mod - 2
