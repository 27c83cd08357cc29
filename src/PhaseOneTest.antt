-- ===== src/PhaseOneTest.antt =====
-- phase1/p1test.c: the test program of phase 1, which uses phase1/pcb.c and phase1/msg.c. Here stand its state and
-- what it prints; Checks has `main`. A string is the list of its characters before the one that ends it.

pub mod Checks
pub mod Main
pub mod Passing
pub mod Printing
mod Tests
use Prim.Native.Char.{code}
use Prim.Native.String.{String}
use progetto_so.Base.{
  ℕ, ◌+◌, ◌*◌, ◌%◌, ◌^◌, Bool, true, false, ◌||◌, List, [], ◌∷◌, Option, none, some, ◌==◌, ltb,
  if◌then◌else◌, update, length,
}
use progetto_so.Store.{Store}

-- The code points of a literal.
abbrev pub codes : String → List ℕ
codes String.[] = []
codes (String.◌∷◌ c s) = code c ∷ codes s

-- The terminals, by the commands that each has got, the last first: what the status register shows, and what it shows
-- once it is not busy, which is where the busy waiting ends, if it ever ends. The code of a terminal that is ready is
-- the emulator's.
pub record Terminals : Type 0 where
  pub status : (term : ℕ) → List ℕ → ℕ
  pub settled : (term : ℕ) → List ℕ → Option ℕ
  pub ready : ℕ

-- The variables of the program, the store of phase 1, and the commands to the terminals.
pub record Program : Type 0 where
  pub store : Store
  pub commands : ℕ → List ℕ
  pub okbuf : ℕ → ℕ
  pub mp : ℕ
  pub errbuf : ℕ → ℕ
  pub procp : ℕ → ℕ
  pub msg : ℕ → ℕ
  pub q : ℕ
  pub firstproc : ℕ
  pub midproc : ℕ
  pub lastproc : ℕ
  pub m : ℕ
  pub n : ℕ
  pub firstmsg : ℕ
  pub midmsg : ℕ
  pub lastmsg : ℕ

-- How a function ends: it returns, it stops in PANIC, or a loop does not end, of phase 1 or the busy waiting.
pub data Outcome (A : Type 0) : Type 0 where
  returns : A → Program → Outcome A
  panics : Program → Outcome A
  hangs : Program → Outcome A

abbrev pub Act : Type 0 → Type 0
Act A = Program → Outcome A

module _ {A B : Type 0} where
  abbrev pub and_then : Outcome A → (A → Act B) → Outcome B
  and_then (returns a t) f = f a t
  and_then (panics t) f = panics t
  and_then (hangs t) f = hangs t

  infixl 5 ◌>>=◌ ◌>>◌
  abbrev pub ◌>>=◌ : Act A → (A → Act B) → Act B
  x >>= f = λ t. and_then (x t) f

  abbrev pub ◌>>◌ : Act A → Act B → Act B
  x >> y = x >>= λ _. y

abbrev pub done : Act (Unit {0})
done = returns tt

abbrev pub get : Act Program
get t = returns t t

abbrev pub modify : (Program → Program) → Act (Unit {0})
modify f t = returns tt (f t)

-- A call of phase 1 that only changes the store, one that returns a pointer, and one with a loop.
abbrev pub calls : (Store → Store) → Act (Unit {0})
calls f t = returns tt (record t { store = f t.store })

abbrev pub gives : (Store → ℕ × Store) → Act ℕ
gives f t = let r = f t.store in returns r.0 (record t { store = r.1 })

abbrev pub finds : (Store → Option (ℕ × Store)) → Act ℕ
finds f t = elim (f t.store) [ none ↦ hangs t | some r ↦ returns r.0 (record t { store = r.1 }) ]

-- The loop that copies a string with the character that ends it.
unfoldable pub copy : List ℕ → (i : ℕ) → (ℕ → ℕ) → ℕ → ℕ
copy [] i buf = update buf i 0
copy (c ∷ cs) i buf = copy cs (i + 1) (update buf i c)

-- The busy waiting and what stands behind it: `rest` is what the other characters give.
abbrev pub waited :
    Option ℕ → (now : ℕ → List ℕ) → Option Bool × (ℕ → List ℕ) → Option Bool × (ℕ → List ℕ)
waited none now rest = (none, now)
waited (some status) now rest = if status % 256 == 5 then rest else (some false, now)

-- What stands behind the call of `termprint` runs only where that has a result.
abbrev pub printed_then : Option Bool → Act (Unit {0}) → Act (Unit {0})
printed_then none next = hangs
printed_then (some well) next = next

module _ (d : Terminals) where
  -- The cycle of `termprint`: a command for each character, while the terminal transmits. It gives no result when the
  -- busy waiting does not end.
  unfoldable pub print_from : List ℕ → (term : ℕ) → (ℕ → List ℕ) → Option Bool × (ℕ → List ℕ)
  print_from [] term given = (some true, given)
  print_from (c ∷ cs) term given =
      let now = update given term (((c * 256) % 2 ^ 32 + 2) ∷ given term) in
      let rest = print_from cs term now in waited (d.settled term (now term)) now rest

  -- On the commands given to the terminals so far.
  unfoldable pub termprint : List ℕ → (term : ℕ) → (ℕ → List ℕ) → Option Bool × (ℕ → List ℕ)
  unfolding print_from
  termprint str term given =
      let stat = d.status term (given term) % 256 in
      let printed = print_from str term given in
      if ltb term 8
      then if (stat == d.ready) || (stat == 5) then printed else (some false, given)
      else (some false, given)

  -- What `addokbuf` leaves.
  abbrev pub noted : List ℕ → Program → Program
  noted str t = record t {
    okbuf = copy str t.mp t.okbuf;
    mp = t.mp + length str;
    commands = (termprint str 0 t.commands).1;
  }

  unfoldable pub addokbuf : List ℕ → Act (Unit {0})
  unfolding termprint copy
  addokbuf str t = printed_then (termprint str 0 t.commands).0 done (noted str t)

  unfoldable pub adderrbuf : List ℕ → Act (Unit {0})
  unfolding termprint copy
  adderrbuf str t =
      printed_then (termprint str 0 t.commands).0 panics
        (record t { errbuf = copy str 0 t.errbuf; commands = (termprint str 0 t.commands).1 })

-- The two functions that `main` prints with.
pub record Output : Type 0 where
  pub okprint : List ℕ → Act (Unit {0})
  pub errprint : List ℕ → Act (Unit {0})

abbrev pub printing : Terminals → Output
printing d = record { okprint = addokbuf d; errprint = adderrbuf d }

module _ (d : Output) where
  abbrev pub say : String → Act (Unit {0})
  say text = d.okprint (codes text)

  -- `if (bad) adderrbuf(text);`
  abbrev pub refuse : (bad : Bool) → String → Act (Unit {0})
  refuse bad text = if bad then d.errprint (codes text) else done
