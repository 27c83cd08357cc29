-- ===== src/Support/Threads/Printer.antt =====
-- What a printer gets from `handle_WritePrinter` of phase3/sst.c.
use progetto_so.Base.{
  ℕ, suc, ◌+◌, ◌-◌, ◌≡◌, ◌≢◌, refl, sym, ◌∙◌, ap, true, ==-false, Option, some, none, List, ◌∷◌,
  update,
}
use progetto_so.Kernel.State.{int_max}
use progetto_so.Kernel.Run.{sub_word, int_gt}
use progetto_so.Support.State.{
  Call, send, receive, nothing, io_request, Answer, Level, World, returns,
}
use progetto_so.Support.Syscalls.{IsResponsive, answered-syscall}
use progetto_so.Support.Threads.{gain, send_res, print_from, handle_write_printer}
use progetto_so.Support.Threads.Transmit.{do_io-answered}

-- The calls that give a printer one character.
abbrev pub printed : (ssi reg : ℕ) → List Call → List Call
printed ssi reg cs = receive ssi ∷ send ssi (io_request (reg + 4) 2) ∷ cs

abbrev word_of : Option Answer → ℕ
word_of none = 0
word_of (some x) = x.word

-- A round with an answer other than 0 is the last.
print_from-last :
    (w : World) (reg payload rounds i string : ℕ) (l : Level) (a : Answer)
    → IsResponsive w
    → int_gt (l.word payload) i ≡ true
    → w.answer (printed l.ssi_pcb reg l.calls) ≡ some a
    → a.word ≢ 0
    → print_from w reg payload (suc rounds) i string l
      ≡ returns tt (record l {
        calls = printed l.ssi_pcb reg l.calls;
        word = w.dma (printed l.ssi_pcb reg l.calls) (update l.word (reg + 8) (w.char_at string));
      })
unfolding print_from
print_from-last w reg payload rounds i string l a m on e status =
    let u = record l { word = update l.word (reg + 8) (w.char_at string) } in
    let (b, f, g) = do_io-answered w (reg + 4) 2 u m in
    let same : b.word ≡ a.word = ap word_of (sym f ∙ e) in
    rw (on, g, same, ==-false a.word 0 status) refl

-- The printer of the sender's process, and the calls after it has been gained and has got one character.
abbrev pub printer_of : (sender : ℕ) → Level → ℕ
printer_of sender l = sub_word (l.sup_asid (l.p_support sender)) 1

abbrev pub first_printed : World → (sender : ℕ) → Level → List Call
first_printed w sender l =
    let mutex = l.printer_mutex_proc (printer_of sender l) in
    printed l.ssi_pcb (w.dev_reg_addr 6 (printer_of sender l))
      (receive mutex ∷ send mutex nothing ∷ l.calls)

-- When every system call is answered and the string is not empty, a printer whose status after the first character is
-- not 0, as of one that is ready, gets that character and no other; `handle_WritePrinter` then gives it back,
-- answers and returns.
pub handle_write_printer-truncates :
    (w : World) (sender payload : ℕ) (l : Level) (a : Answer)
    → IsResponsive w
    → int_gt (l.word payload) 0 ≡ true
    → w.answer (first_printed w sender l) ≡ some a
    → a.word ≢ 0
    → handle_write_printer w sender payload l
      ≡ returns tt (record l {
        calls =
            send l.u_proc nothing
            ∷ send (l.printer_mutex_proc (printer_of sender l)) nothing
            ∷ first_printed w sender l;
        word = w.dma (first_printed w sender l) (
            update l.word
              (w.dev_reg_addr 6 (printer_of sender l) + 8)
              (w.char_at (l.word (payload + 4))));
      })
unfolding handle_write_printer gain send_res
handle_write_printer-truncates w sender payload l a m on e status =
    let i = sub_word (l.sup_asid (l.p_support sender)) 1 in
    let mutex = l.printer_mutex_proc i in
    let reg = w.dev_reg_addr 6 i in
    let string = l.word (payload + 4) in
    let asked = record l { calls = send mutex nothing ∷ l.calls } in
    let gained = record l { calls = receive mutex ∷ send mutex nothing ∷ l.calls } in
    let one = print_from-last w reg payload (int_max - 1) 0 string gained a m on e status in
    let sent = record gained {
      calls = printed l.ssi_pcb reg gained.calls;
      word =
          w.dma (printed l.ssi_pcb reg gained.calls) (update l.word (reg + 8) (w.char_at string));
    } in
    let freed = record sent { calls = send mutex nothing ∷ sent.calls } in
    let (b, f) = m asked.calls in
    let (c, g) = m gained.calls in
    let (d, h) = m freed.calls in
    let (x, j) = m (send l.u_proc nothing ∷ freed.calls) in
    rw
      (
        answered-syscall w (send mutex nothing) l b f,
        answered-syscall w (receive mutex) asked c g,
        one,
        answered-syscall w (send mutex nothing) sent d h,
        answered-syscall w (send l.u_proc nothing) freed x j,
      )
      refl
