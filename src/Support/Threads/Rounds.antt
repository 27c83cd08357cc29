-- ===== src/Support/Threads/Rounds.antt =====
-- The loop of `handle_WritePrinter` of phase3/sst.c ends within the rounds that an `int` allows.
use progetto_so.Base.{
  ℕ, zero, suc, ◌+◌, ◌≤◌, ◌≡◌, refl, ap, fun_ext, false, not, ◌==◌, if◌then◌else◌, Bool-cases, inl,
  inr, arith, update,
}
use progetto_so.Kernel.State.{int_max}
use progetto_so.Kernel.Run.{int_gt}
use progetto_so.Support.State.{Level, World, and_then, done}
use progetto_so.Support.Calls.{do_io}
use progetto_so.Support.Threads.{print_from}

-- One round more changes nothing once the rounds reach `int_max`.
pub print_from-suc :
    (w : World) (reg payload rounds i string : ℕ)
    → i ≤ int_max
    → int_max ≤ i + rounds
    → (l : Level)
    → print_from w reg payload (suc rounds) i string l ≡ print_from w reg payload rounds i string l
unfolding print_from
print_from-suc w reg payload zero i string b e l =
    let over : int_gt (l.word payload) i ≡ false = ground (arith, b, e) in rw over refl
print_from-suc w reg payload (suc rounds) i string b e l =
    elim (Bool-cases (int_gt (l.word payload) i)) [
      | inr over ↦ rw over refl
      | inl on ↦
          let below : i + 1 ≤ int_max = ground (arith, on) in
          let same =
            fun_ext
              (print_from-suc w reg payload rounds (i + 1) (string + 1) below (omega (arith, e))) in
          rw on (
            ap
              (λ f.
                and_then
                  (do_io w (reg + 4) 2
                    (record l { word = update l.word (reg + 8) (w.char_at string) }))
                  (λ status. if not (status == 0) then done else f))
              same)
    ]
