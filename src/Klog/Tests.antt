-- ===== src/Klog/Tests.antt =====
-- Concrete runs of the log.
use progetto_so.Base.{ℕ, List, map, ◌≡◌, refl, some, [], ◌∷◌, arith}
use progetto_so.Klog.{Klog, next_line, next_char, klog_print, klog_print_hex, print_hex_from, digit}
use progetto_so.Klog.Digits.{IsNumeral, klog_print_hex-klog_print}

abbrev at_end : Klog
at_end = record { line_index = 63; char_index = 41; buffer = λ l i. 0 }

-- After the last character of the last line the ring starts again.
klog_print-line : (klog_print (65 ∷ 66 ∷ []) at_end).line_index ≡ 0
unfolding klog_print next_char next_line
klog_print-line = refl

-- 0x12 comes out as 21.
klog_print_hex-swapped : klog_print_hex 0x12 at_end ≡ some (klog_print (50 ∷ 49 ∷ []) at_end)
unfolding klog_print_hex klog_print print_hex_from next_char next_line
klog_print_hex-swapped = refl

klog_print_hex-klog_print_example :
    (ds : List ℕ) × IsNumeral 16 0x1234_abcd ds
    × (klog_print_hex 0x1234_abcd at_end ≡ some (klog_print (map digit ds) at_end))
klog_print_hex-klog_print_example = klog_print_hex-klog_print 0x1234_abcd at_end (omega arith)
