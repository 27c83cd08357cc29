-- ===== src/Klog/Bounds.antt =====
-- The bounds of the indices of phase2/klog.c.
use progetto_so.Base.{
  ℕ, ◌+◌, ◌^◌, ◌<◌, ◌≡◌, List, map, [], ◌∷◌, some, ◌==◌, leb, arith, Bool-cases, inl, inr,
}
use progetto_so.Klog.Digits.{klog_print_hex-klog_print}
use progetto_so.Klog.{
  Klog, klog_lines, klog_line_size, next_line, next_char, put, digit, klog_print, klog_print_hex,
}

-- The next character to be written lies in the buffer.
pub record IsInside (k : Klog) : Type 0 where
  pub line : k.line_index < klog_lines
  pub char : k.char_index < klog_line_size

next_line-IsInside : (k : Klog) → IsInside (next_line k)
unfolding next_line
next_line-IsInside k = record { line = omega arith; char = omega arith }

next_char-IsInside : (k : Klog) → IsInside k → IsInside (next_char k)
unfolding next_char
next_char-IsInside k i = elim (Bool-cases (leb klog_line_size (k.char_index + 1))) [
  | inl full ↦ rw full (next_line-IsInside (record k { char_index = 0 }))
  | inr room ↦ rw room record { line = i.line; char = ground arith }
]

put-IsInside : (c : ℕ) (k : Klog) → IsInside k → IsInside (put c k)
put-IsInside c k i = record { line = i.line; char = i.char }

-- Whatever string is printed, the place of the next character lies in the buffer if it did before.
pub klog_print-IsInside : (cs : List ℕ) (k : Klog) → IsInside k → IsInside (klog_print cs k)
unfolding klog_print
klog_print-IsInside [] k i = i
klog_print-IsInside (c ∷ cs) k i = elim (Bool-cases (c == 10)) [
  | inl newline ↦ rw newline (klog_print-IsInside cs (next_line k) (next_line-IsInside k))
  | inr other ↦ rw other (
      klog_print-IsInside cs (next_char (put c k))
        (next_char-IsInside (put c k) (put-IsInside c k i)))
]

-- klog_print_hex ends for every word, and the next character then lies in the buffer when it did before.
pub klog_print_hex-IsInside :
    (num : ℕ) (k : Klog)
    → num < 2 ^ 32
    → IsInside k
    → (t : Klog) × (klog_print_hex num k ≡ some t) × IsInside t
klog_print_hex-IsInside num k small i =
    let (ds, numeral, e) = klog_print_hex-klog_print num k small in
    (klog_print (map digit ds) k, e, klog_print-IsInside (map digit ds) k i)
