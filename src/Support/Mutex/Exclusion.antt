-- ===== src/Support/Mutex/Exclusion.antt =====
-- Mutual exclusion by the mutex processes of phase3/vmSupport.c and phase3/deviceMutex.c.
use progetto_so.Base.{
  ℕ, ◌∙◌, ◌<◌, length, length-append, ltb, ◌≡◌, ◌≢◌, refl, subst, true, false, List, [], ◌∷◌, ◌++◌,
  ◌==◌, if◌then◌else◌, has, erase, arith, Bool-cases, inl, inr, ==-refl, has-append,
}
use progetto_so.Listx.{null}
use progetto_so.Support.Mutex.{Mutex, admit, release, swap_mutex}

-- What the others see: a process is let in, or the one inside has left.
pub data Event : Type 0 where
  enters : ℕ → Event
  leaves : ℕ → Event

-- The first entry of `xs` that is missing in `ys`.
abbrev pub missing : (xs ys : List ℕ) → ℕ
missing [] ys = null
missing (x ∷ xs) [] = x
missing (x ∷ xs) (y ∷ ys) = if x == y then missing xs ys else x

abbrev pub last : List ℕ → ℕ
last [] = null
last (x ∷ []) = x
last (x ∷ y ∷ ys) = last (y ∷ ys)

-- By the messages alone: a new answer lets its receiver in, and a message received without an answer is that of a
-- process that has left.
abbrev pub seen : (before after : Mutex) → List Event
seen m u =
    if ltb (length m.answered) (length u.answered)
    then enters (last u.answered) ∷ []
    else if ltb (length u.inbox) (length m.inbox)
    then leaves (missing m.inbox u.inbox) ∷ []
    else []

-- Processes enter one at a time: with `inside` the process that is in, `NULL` for none, whoever enters finds
-- nobody inside, and whoever leaves was inside.
abbrev pub IsExclusive : (inside : ℕ) → List Event → Type 0
IsExclusive inside [] = Unit {0}
IsExclusive inside (enters p ∷ es) = (inside ≡ null) × (p ≢ null) × IsExclusive p es
IsExclusive inside (leaves p ∷ es) = (inside ≡ p) × (p ≢ null) × IsExclusive null es

-- What can happen to one mutex: nothing, a message of a process arrives, the first sender is let in, or the
-- process inside is let out.
pub data Change (m : Mutex) : Mutex → Type 0 where
  waits : Change m m
  sent : {p : ℕ} → p ≢ null → Change m (record m { inbox = m.inbox ++ p ∷ [] })
  lets_in :
      {p : ℕ} {ps : List ℕ}
      → m.curr ≡ null
      → m.inbox ≡ p ∷ ps
      → Change m (record m { curr = p; inbox = ps; answered = m.answered ++ p ∷ [] })
  lets_out :
      m.curr ≢ null
      → has m.curr m.inbox ≡ true
      → Change m (record m { curr = null; inbox = erase m.curr m.inbox })

admit-Change : (m : Mutex) (ps : List ℕ) → m.inbox ≡ ps → m.curr ≡ null → Change m (admit ps m)
unfolding admit
admit-Change m [] e c = waits
admit-Change m (p ∷ ps) e c = lets_in c e

pub swap_mutex-Change : (m : Mutex) → Change m (swap_mutex m)
unfolding swap_mutex release
swap_mutex-Change m = elim (Bool-cases (m.curr == null)) [
  | inl free ↦ rw free (admit-Change m m.inbox refl (ground arith))
  | inr held ↦ rw held (elim (Bool-cases (has m.curr m.inbox)) [
    | inl there ↦ rw there (lets_out (λ e. ground arith) there)
    | inr not_yet ↦ rw not_yet waits
  ])
]

has-erase : (p q : ℕ) (xs : List ℕ) → has q xs ≡ false → has q (erase p xs) ≡ false
has-erase p q [] h = refl
has-erase p q (x ∷ xs) h = ground (arith, has-erase p q xs)

-- The messages stay the messages of processes.
Change-live : {m u : Mutex} → Change m u → has null m.inbox ≡ false → has null u.inbox ≡ false
Change-live waits live = live
Change-live {m} (sent {p} pn) live = ground (arith, has-append null m.inbox (p ∷ []))
Change-live {m} (lets_in {p} {ps} c e) live =
    let live' : has null (p ∷ ps) ≡ false = subst (λ w. has null w ≡ false) e live in ground arith
Change-live {m} (lets_out c there) live = has-erase m.curr null m.inbox live

last-snoc : (p : ℕ) (xs : List ℕ) → last (xs ++ p ∷ []) ≡ p
last-snoc p [] = refl
last-snoc p (x ∷ []) = refl
last-snoc p (x ∷ y ∷ ys) = last-snoc p (y ∷ ys)

missing_first : (x : ℕ) (xs : List ℕ) → missing (x ∷ xs) xs ≡ x
missing_first x [] = refl
missing_first x (y ∷ ys) = elim (Bool-cases (x == y)) [
  | inl same ↦ rw same (missing_first y ys ∙ ground (arith, same))
  | inr apart ↦ rw apart refl
]

missing-erase : (p : ℕ) (xs : List ℕ) → has p xs ≡ true → missing xs (erase p xs) ≡ p
missing-erase p [] there = absurd (ground (arith, there))
missing-erase p (x ∷ xs) there = elim (Bool-cases (p == x)) [
  | inl here ↦ rw here (missing_first x xs ∙ ground (arith, here))
  | inr away ↦ rw (away, ==-refl x) (missing-erase p xs (ground (arith, away, there)))
]

length-erase : (p : ℕ) (xs : List ℕ) → has p xs ≡ true → length (erase p xs) < length xs
length-erase p [] there = absurd (ground (arith, there))
length-erase p (x ∷ xs) there = elim (Bool-cases (p == x)) [
  | inl here ↦ rw here (omega arith)
  | inr away ↦
      let rest = length-erase p xs (ground (arith, away, there)) in rw away (omega (arith, rest))
]

ltb_self : (n : ℕ) → ltb n n ≡ false
ltb_self n = ground arith

-- The rest of a history, after what one change shows.
IsExclusive-seen :
    {m u : Mutex} (es : List Event)
    → Change m u
    → has null m.inbox ≡ false
    → IsExclusive u.curr es
    → IsExclusive m.curr (seen m u ++ es)
IsExclusive-seen {m} es waits live ex =
    rw (ltb_self (length m.answered), ltb_self (length m.inbox)) ex
IsExclusive-seen {m} es (sent {p} pn) live ex =
    let longer : ltb (length (m.inbox ++ p ∷ [])) (length m.inbox) ≡ false =
      ground (arith, length-append m.inbox (p ∷ [])) in
    rw (ltb_self (length m.answered), longer) ex
IsExclusive-seen {m} es (lets_in {p} {ps} c e) live ex =
    let live' : has null (p ∷ ps) ≡ false = subst (λ w. has null w ≡ false) e live in
    let pn : p ≢ null = λ q. ground arith in
    let more : ltb (length m.answered) (length (m.answered ++ p ∷ [])) ≡ true =
      ground (arith, length-append m.answered (p ∷ [])) in
    rw (more, last-snoc p m.answered) (c, pn, ex)
IsExclusive-seen {m} es (lets_out c there) live ex =
    let fewer : ltb (length (erase m.curr m.inbox)) (length m.inbox) ≡ true =
      ground (arith, length-erase m.curr m.inbox there) in
    rw (ltb_self (length m.answered), fewer, missing-erase m.curr m.inbox there) (refl, c, ex)

-- The events at a mutex while actions run.
abbrev pub events :
    {State Action : Type 0} (act : Action → State → State) (mutex : State → Mutex)
    → List Action
    → State
    → List Event
events act mutex [] s = []
events act mutex (a ∷ rest) s = seen (mutex s) (mutex (act a s)) ++ events act mutex rest (act a s)

-- All actions are possible ones.
abbrev pub AreLive : {Action : Type 0} (IsLive : Action → Type 0) → List Action → Type 0
AreLive IsLive [] = Unit {0}
AreLive IsLive (a ∷ rest) = IsLive a × AreLive IsLive rest

-- Any system whose actions change a mutex in these ways only.
pub events-IsExclusive :
    {State Action : Type 0} (act : Action → State → State) (mutex : State → Mutex)
    {IsLive : Action → Type 0}
    → ((a : Action) (s : State) → IsLive a → Change (mutex s) (mutex (act a s)))
    → (actions : List Action) (s : State) → AreLive IsLive actions
    → has null (mutex s).inbox ≡ false
    → IsExclusive (mutex s).curr (events act mutex actions s)
events-IsExclusive act mutex changes [] s all live = tt
events-IsExclusive act mutex changes (a ∷ rest) s (one, all) live =
    let change = changes a s one in
    IsExclusive-seen (events act mutex rest (act a s)) change live
      (events-IsExclusive act mutex changes rest (act a s) all (Change-live change live))
