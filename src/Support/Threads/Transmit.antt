-- ===== src/Support/Threads/Transmit.antt =====
-- What a terminal gets from `handle_WriteTerminal` of phase3/sst.c.
use Prim.Native.Nat.{bit_and}
use progetto_so.Base.{
  ℕ, zero, suc, ◌+◌, ◌*◌, ◌%◌, ◌<◌, ◌≤◌, ◌≡◌, ◌⊎◌, inl, inr, refl, ◌∙◌, ap, true, false, Bool, ◌==◌,
  Option, some, none, List, ◌∷◌, Bool-cases, arith,
}
use progetto_so.Kernel.State.{word_mod}
use progetto_so.Kernel.Run.{add_word, sub_word}
use progetto_so.Support.State.{
  Call, send, receive, nothing, io_request, Answer, Level, World, returns,
}
use progetto_so.Support.Syscalls.{IsResponsive, answered-syscall, request-answered}
use progetto_so.Support.Calls.{do_io}
use progetto_so.Support.Threads.{gain, send_res, transmit_from, rounds_of, handle_write_terminal}

abbrev pub is_ok : Option Answer → Bool
is_ok none = false
is_ok (some a) = bit_and a.word 0xff == 5

-- The answer to the last call says that the character has been transmitted.
abbrev pub is_transmitted : World → List Call → Bool
is_transmitted w cs = is_ok (w.answer cs)

-- The calls after `k` characters, the first of them at `string`, have been given to the terminal.
abbrev pub trace : (w : World) (ssi reg k string : ℕ) → List Call → List Call
trace w ssi reg zero string cs = cs
trace w ssi reg (suc k) string cs = trace w ssi reg k (string + 1) (
    receive ssi
    ∷ send ssi (io_request (reg + 12) (add_word 2 ((w.char_at string * 256) % word_mod)))
    ∷ cs)

-- The first `k` of `n` characters have been given to the terminal, once each and in order: all of them, or up to the
-- first that it does not transmit.
pub record Transmitted (w : World) (ssi reg n string : ℕ) (cs : List Call) (k : ℕ) : Type 0 where
  pub within : k ≤ n
  pub before : (j : ℕ) → 0 < j → j < k → is_transmitted w (trace w ssi reg j string cs) ≡ true
  pub last : (k ≡ n) ⊎ (is_transmitted w (trace w ssi reg k string cs) ≡ false)

pub do_io-answered :
    (w : World) (addr v : ℕ) (l : Level)
    → IsResponsive w
    → let cs = receive l.ssi_pcb ∷ send l.ssi_pcb (io_request addr v) ∷ l.calls in
      (a : Answer) × (w.answer cs ≡ some a)
      × (do_io w addr v l ≡ returns a.word (record l { calls = cs; word = w.dma cs l.word }))
unfolding do_io
do_io-answered w addr v l m =
    let (a, e) = m (receive l.ssi_pcb ∷ send l.ssi_pcb (io_request addr v) ∷ l.calls) in
    (a, e, rw (request-answered w (io_request addr v) l a m e) refl)

-- The characters before the last, with one more at the start.
before_next :
    (w : World) (ssi reg string k : ℕ) (cs : List Call)
    → is_transmitted w (trace w ssi reg 1 string cs) ≡ true
    → ((j : ℕ)
        → 0 < j
        → j < k
        → is_transmitted w (trace w ssi reg j (string + 1) (trace w ssi reg 1 string cs)) ≡ true)
    → (j : ℕ) → 0 < j
    → j < suc k
    → is_transmitted w (trace w ssi reg j string cs) ≡ true
before_next w ssi reg string k cs one later zero p q = absurd (omega (arith, p))
before_next w ssi reg string k cs one later (suc zero) p q = one
before_next w ssi reg string k cs one later (suc (suc j)) p q =
    later (suc j) (omega arith) (omega (arith, q))

transmit_from-Transmitted :
    (w : World) (reg n string : ℕ) (l : Level)
    → IsResponsive w
    → (k : ℕ) × (memory : ℕ → ℕ) × (transmit_from w reg n string l
        ≡ returns tt (record l { calls = trace w l.ssi_pcb reg k string l.calls; word = memory }))
      × Transmitted w l.ssi_pcb reg n string l.calls k
unfolding transmit_from
transmit_from-Transmitted w reg zero string l m = (
  0,
  l.word,
  refl,
  record { within = omega arith; before = λ j p q. absurd (omega (arith, q)); last = inl refl },
)
transmit_from-Transmitted w reg (suc n) string l m =
    let v = add_word 2 ((w.char_at string * 256) % word_mod) in
    let (a, e, f) = do_io-answered w (reg + 12) v l m in
    let cs = receive l.ssi_pcb ∷ send l.ssi_pcb (io_request (reg + 12) v) ∷ l.calls in
    let u = record l { calls = cs; word = w.dma cs l.word } in
    elim (Bool-cases (bit_and a.word 0xff == 5)) [
      | inr bad ↦ (
        1,
        w.dma cs l.word,
        rw (f, bad, transmit_from) refl,
        record {
          within = omega arith;
          before = λ j p q. absurd (omega (arith, p, q));
          last = inr (ap is_ok e ∙ bad);
        },
      )
      | inl good ↦
          let (k, memory, g, t) = transmit_from-Transmitted w reg n (string + 1) u m in
          (
            suc k,
            memory,
            rw (f, good, transmit_from) g,
            record {
              within = omega (arith, t.within);
              before = before_next w l.ssi_pcb reg string k l.calls (ap is_ok e ∙ good) t.before;
              last = elim t.last [ inl q ↦ inl (ap suc q) | inr q ↦ inr q ];
            },
          )
    ]

-- When every system call is answered, `handle_WriteTerminal` gains the terminal of the sender's process, gives it the
-- characters of the string, once each, in order and none after one that fails, gives the terminal back, answers
-- and returns.
pub handle_write_terminal-Transmitted :
    (w : World) (sender payload : ℕ) (l : Level)
    → IsResponsive w
    → let i = sub_word (l.sup_asid (l.p_support sender)) 1 in
      let mutex = l.terminal_mutex_proc i in
      let reg = w.dev_reg_addr w.il_terminal i in
      let string = l.word (payload + 4) in
      let gained = receive mutex ∷ send mutex nothing ∷ l.calls in
      (k : ℕ) × (memory : ℕ → ℕ) × (handle_write_terminal w sender payload l
        ≡ returns tt (record l {
          calls =
              send l.u_proc nothing ∷ send mutex nothing ∷ trace w l.ssi_pcb reg k string gained;
          word = memory;
        }))
      × Transmitted w l.ssi_pcb reg (rounds_of (l.word payload)) string gained k
unfolding handle_write_terminal gain send_res
handle_write_terminal-Transmitted w sender payload l m =
    let i = sub_word (l.sup_asid (l.p_support sender)) 1 in
    let mutex = l.terminal_mutex_proc i in
    let reg = w.dev_reg_addr w.il_terminal i in
    let string = l.word (payload + 4) in
    let n = rounds_of (l.word payload) in
    let asked = record l { calls = send mutex nothing ∷ l.calls } in
    let gained = record l { calls = receive mutex ∷ send mutex nothing ∷ l.calls } in
    let (k, memory, e, t) = transmit_from-Transmitted w reg n string gained m in
    let sent = record gained {
      calls = trace w l.ssi_pcb reg k string gained.calls;
      word = memory;
    } in
    let freed = record sent { calls = send mutex nothing ∷ sent.calls } in
    let (a, f) = m asked.calls in
    let (b, g) = m gained.calls in
    let (c, h) = m freed.calls in
    let (d, j) = m (send l.u_proc nothing ∷ freed.calls) in
    (
      k,
      memory,
      rw
          (
            answered-syscall w (send mutex nothing) l a f,
            answered-syscall w (receive mutex) asked b g,
            e,
            answered-syscall w (send mutex nothing) sent c h,
            answered-syscall w (send l.u_proc nothing) freed d j,
          )
          refl,
      t,
    )
