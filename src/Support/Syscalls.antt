-- ===== src/Support/Syscalls.antt =====
-- What is known of a system call of the support level (`syscall` in Support.State) by its answer.
use progetto_so.Base.{◌≡◌, ◌⊎◌, inl, inr, refl, none, some, List, ◌∷◌, Option-cases}
use progetto_so.Support.State.{
  Call, send, receive, Payload, Answer, Level, World, returns, ends, never_answered, syscall,
}
use progetto_so.Support.Calls.{request}

-- Every system call is answered.
abbrev pub IsResponsive : World → Type 0
IsResponsive w = (cs : List Call) → (a : Answer) × (w.answer cs ≡ some a)

pub answered-syscall :
    (w : World) (c : Call) (l : Level) (a : Answer)
    → w.answer (c ∷ l.calls) ≡ some a
    → syscall w c l ≡ returns a (record l { calls = c ∷ l.calls })
unfolding syscall
answered-syscall w c l a e = rw e refl

pub silent-syscall :
    (w : World) (c : Call) (l : Level)
    → w.answer (c ∷ l.calls) ≡ none
    → syscall w c l ≡ ends never_answered (record l { calls = c ∷ l.calls })
unfolding syscall
silent-syscall w c l e = rw e refl

-- A system call leaves its trace, and changes nothing else of the level.
pub syscall-cases :
    (w : World) (c : Call) (l : Level)
    → ((a : Answer) × (w.answer (c ∷ l.calls) ≡ some a)
        × (syscall w c l ≡ returns a (record l { calls = c ∷ l.calls })))
      ⊎ (syscall w c l ≡ ends never_answered (record l { calls = c ∷ l.calls }))
unfolding syscall
syscall-cases w c l = elim (Option-cases (w.answer (c ∷ l.calls))) [
  | inl silent ↦ inr (rw silent refl)
  | inr (a, e) ↦ inl (a, e, rw e refl)
]

pub request-answered :
    (w : World) (p : Payload) (l : Level) (a : Answer)
    → IsResponsive w
    → w.answer (receive l.ssi_pcb ∷ send l.ssi_pcb p ∷ l.calls) ≡ some a
    → request w p l
      ≡ returns a (record l { calls = receive l.ssi_pcb ∷ send l.ssi_pcb p ∷ l.calls })
unfolding request
request-answered w p l a m e =
    let (b, f) = m (send l.ssi_pcb p ∷ l.calls) in
    rw
      (
        answered-syscall w (send l.ssi_pcb p) l b f,
        answered-syscall w (receive l.ssi_pcb) (record l { calls = send l.ssi_pcb p ∷ l.calls }) a
            e,
      )
      refl
