-- ===== src/Klog.antt =====
-- phase2/klog.c: a ring of lines of characters.
pub mod Bounds
pub mod Digits
mod Tests
use progetto_so.Base.{
  ℕ, zero, suc, ◌+◌, ◌/◌, ◌%◌, List, [], ◌∷◌, Option, some, none, ◌==◌, ltb, leb, if◌then◌else◌,
  update,
}

abbrev pub klog_lines : ℕ
klog_lines = 64

abbrev pub klog_line_size : ℕ
klog_line_size = 42

pub record Klog : Type 0 where
  pub line_index : ℕ
  pub char_index : ℕ
  pub buffer : ℕ → ℕ → ℕ

-- The line is filled with blanks.
unfoldable pub next_line : Klog → Klog
next_line k =
    let line = (k.line_index + 1) % klog_lines in
    record k {
      line_index = line;
      char_index = 0;
      buffer = update k.buffer line (λ i. if ltb i klog_line_size then 32 else k.buffer line i);
    }

unfoldable pub next_char : Klog → Klog
unfolding next_line
next_char k =
    if leb klog_line_size (k.char_index + 1)
    then next_line (record k { char_index = 0 })
    else record k { char_index = k.char_index + 1 }

abbrev pub put : (c : ℕ) → Klog → Klog
put c k = record k {
  buffer = update k.buffer k.line_index (update (k.buffer k.line_index) k.char_index c);
}

-- A string is the list of its characters before the one that ends it; 10 is the newline.
unfoldable pub klog_print : List ℕ → Klog → Klog
unfolding next_line next_char
klog_print [] k = k
klog_print (c ∷ cs) k =
    if c == 10 then klog_print cs (next_line k) else klog_print cs (next_char (put c k))

-- The digits are '0' to '9', then 'A' to 'F'.
abbrev pub digit : ℕ → ℕ
digit d = if ltb d 10 then 48 + d else 55 + d

-- In the first branch the loop runs once, since `num / 10` is 0.
unfoldable pub klog_print_dec : (num : ℕ) → Klog → Klog
unfolding next_char
klog_print_dec num k =
    if ltb num 10
    then next_char (put (digit (num % 10)) k)
    else next_char (put (digit (num % 10)) (next_char (put (digit (num / 10 % 10)) k)))

-- The loop on fuel.
unfoldable pub print_hex_from : (fuel num : ℕ) → Klog → Option Klog
unfolding next_char
print_hex_from zero num k = none
print_hex_from (suc fuel) num k =
    let t = next_char (put (digit (num % 16)) k) in
    let rest = print_hex_from fuel (num / 16) t in if ltb 0 (num / 16) then rest else some t

-- A word has eight digits.
unfoldable pub klog_print_hex : (num : ℕ) → Klog → Option Klog
unfolding print_hex_from
klog_print_hex num k = print_hex_from 8 num k
