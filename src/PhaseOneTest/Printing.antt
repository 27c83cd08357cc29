-- ===== src/PhaseOneTest/Printing.antt =====
-- What `addokbuf` and `termprint` of phase1/p1test.c leave in the buffer and give to a terminal.
use progetto_so.Base.{
  ℕ, ◌+◌, ◌*◌, ◌%◌, ◌^◌, ◌<◌, ◌≡◌, ◌≢◌, ◌==◌, ◌||◌, Bool, true, false, refl, sym, ap, subst, ◌∙◌,
  List, [], ◌∷◌, ◌++◌, inl, inr, Bool-cases, Option, none, some, Option-cases, ltb, update, length,
  length-append, arith, ==-false, ==-refl,
}
use progetto_so.PhaseOneTest.{
  Terminals, Program, copy, print_from, termprint, printed_then, done, noted, addokbuf,
}

-- The buffer has this string from `i` on, and then the character that ends it.
abbrev pub IsText : (ℕ → ℕ) → ℕ → List ℕ → Type 0
IsText buf i [] = buf i ≡ 0
IsText buf i (c ∷ cs) = (buf i ≡ c) × IsText buf (i + 1) cs

copy-below : (cs : List ℕ) (i : ℕ) (buf : ℕ → ℕ) (j : ℕ) → j < i → copy cs i buf j ≡ buf j
unfolding copy
copy-below [] i buf j b = rw (==-false j i (λ e. omega (arith, b, e))) refl
copy-below (c ∷ cs) i buf j b =
    copy-below cs (i + 1) (update buf i c) j (omega (arith, b))
    ∙ rw (==-false j i (λ e. omega (arith, b, e))) refl

copy-IsText : (cs : List ℕ) (i : ℕ) (buf : ℕ → ℕ) → IsText (copy cs i buf) i cs
unfolding copy
copy-IsText [] i buf = rw (==-refl i) refl
copy-IsText (c ∷ cs) i buf = (
  copy-below cs (i + 1) (update buf i c) i (omega arith) ∙ rw (==-refl i) refl,
  copy-IsText cs (i + 1) (update buf i c),
)

copy-append :
    (xs cs : List ℕ) (i n : ℕ) (buf : ℕ → ℕ)
    → IsText buf i xs
    → n ≡ i + length xs
    → IsText (copy cs n buf) i (xs ++ cs)
copy-append [] cs i n buf text e =
    let here : i ≡ n = omega (arith, e) in
    subst (λ j. IsText (copy cs n buf) j cs) (sym here) (copy-IsText cs n buf)
copy-append (x ∷ xs) cs i n buf (first, rest) e = (
  copy-below cs n buf i (omega (arith, e)) ∙ first,
  copy-append xs cs (i + 1) n buf rest (omega (arith, e)),
)

-- The commands that transmit these characters, after the ones given before.
abbrev pub transmitted : List ℕ → List ℕ → List ℕ
transmitted [] given = given
transmitted (c ∷ cs) given = transmitted cs (((c * 256) % 2 ^ 32 + 2) ∷ given)

-- The terminal got the first characters of the string, and all of it if the result is TRUE; no other got any. Where
-- there is no result, the terminal stays busy after its last command.
pub record Printed (d : Terminals) (str : List ℕ) (term : ℕ) (given : ℕ → List ℕ)
    (r : Option Bool × (ℕ → List ℕ)) : Type 0 where
  pub sent : List ℕ
  pub unsent : List ℕ
  pub whole : sent ++ unsent ≡ str
  pub commands : r.1 term ≡ transmitted sent (given term)
  pub others : (i : ℕ) → i ≢ term → r.1 i ≡ given i
  pub complete : r.0 ≡ some true → unsent ≡ []
  pub stuck : r.0 ≡ none → d.settled term (r.1 term) ≡ none

module _ (d : Terminals) (term : ℕ) where
  print_from-Printed :
      (str : List ℕ) (given : ℕ → List ℕ) → Printed d str term given (print_from d str term given)
  unfolding print_from
  print_from-Printed [] given = record {
    sent = [];
    unsent = [];
    whole = refl;
    commands = refl;
    others = λ i apart. refl;
    complete = λ e. refl;
    stuck = λ e. absurd (ground (arith, e));
  }
  print_from-Printed (c ∷ cs) given =
      let now = update given term (((c * 256) % 2 ^ 32 + 2) ∷ given term) in
      let there : now term ≡ (((c * 256) % 2 ^ 32 + 2) ∷ given term) = rw (==-refl term) refl in
      elim (Option-cases (d.settled term (now term))) [
        | inl busy ↦ rw busy record {
          sent = c ∷ [];
          unsent = cs;
          whole = refl;
          commands = there;
          others = λ i apart. rw (==-false i term apart) refl;
          complete = λ e. absurd (ground (arith, e));
          stuck = λ e. busy;
        }
        | inr (status, idle) ↦ elim (Bool-cases (status % 256 == 5)) [
          | inl well ↦
              let r = print_from-Printed cs now in
              rw (idle, well)
                record {
                  sent = c ∷ r.sent;
                  unsent = r.unsent;
                  whole = ap (λ l. c ∷ l) r.whole;
                  commands = r.commands ∙ ap (transmitted r.sent) there;
                  others = λ i apart. r.others i apart ∙ rw (==-false i term apart) refl;
                  complete = r.complete;
                  stuck = r.stuck;
                }
          | inr badly ↦
              rw (idle, badly)
                record {
                  sent = c ∷ [];
                  unsent = cs;
                  whole = refl;
                  commands = there;
                  others = λ i apart. rw (==-false i term apart) refl;
                  complete = λ e. absurd (ground (arith, e));
                  stuck = λ e. absurd (ground (arith, e));
                }
        ]
      ]

  termprint-Printed :
      (str : List ℕ) (given : ℕ → List ℕ) → Printed d str term given (termprint d str term given)
  unfolding termprint
  termprint-Printed str given =
      let stat = d.status term (given term) % 256 in
      let nothing : Printed d str term given (some false, given) = record {
        sent = [];
        unsent = str;
        whole = refl;
        commands = refl;
        others = λ i apart. refl;
        complete = λ e. absurd (ground (arith, e));
        stuck = λ e. absurd (ground (arith, e));
      } in
      elim (Bool-cases (ltb term 8)) [
        | inl exists ↦ elim (Bool-cases ((stat == d.ready) || (stat == 5))) [
          | inl able ↦ rw (exists, able) (print_from-Printed str given)
          | inr busy ↦ rw (exists, busy) nothing
        ]
        | inr missing ↦ rw missing nothing
      ]

-- When the buffer holds a string up to `mp`, addokbuf appends its argument to it and moves `mp` behind that, and gives
-- the first terminal the first characters of it in order, all of them if termprint returns TRUE, and no other terminal
-- any. It returns, unless termprint does not, which is so only where the first terminal stays busy after its last
-- command.
pub addokbuf-IsText :
    (d : Terminals) (str xs : List ℕ) (t : Program)
    → IsText t.okbuf 0 xs
    → t.mp ≡ length xs
    → (u : Program) × (addokbuf d str t ≡ printed_then (termprint d str 0 t.commands).0 done u)
      × IsText u.okbuf 0 (xs ++ str)
      × (u.mp ≡ length (xs ++ str))
      × Printed d str 0 t.commands ((termprint d str 0 t.commands).0, u.commands)
unfolding addokbuf
addokbuf-IsText d str xs t text place = (
  noted d str t,
  refl,
  copy-append xs str 0 t.mp t.okbuf text (omega (arith, place)),
  omega (arith, place, length-append xs str),
  termprint-Printed d 0 str t.commands,
)

-- The busy waiting on the first terminal ends after each command.
abbrev pub IsSettling : Terminals → Type 0
IsSettling d = (cs : List ℕ) → (status : ℕ) × (d.settled 0 cs ≡ some status)

pub termprint-settles :
    (d : Terminals) (str : List ℕ) (given : ℕ → List ℕ)
    → IsSettling d
    → (b : Bool) × ((termprint d str 0 given).0 ≡ some b)
termprint-settles d str given settles =
    let printed = termprint-Printed d 0 str given in
    elim (Option-cases (termprint d str 0 given).0) [
      | inl silent ↦
          let (status, e) = settles ((termprint d str 0 given).1 0) in
          absurd (ground (arith, e, printed.stuck silent))
      | inr told ↦ told
    ]
