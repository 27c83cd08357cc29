-- ===== src/Klog/Digits.antt =====
-- What the printing of numbers in phase2/klog.c writes, as strings for its `klog_print`.
use progetto_so.Base.{
  ℕ, zero, suc, ◌+◌, ◌*◌, ◌/◌, ◌%◌, ◌^◌, ◌<◌, ◌≡◌, refl, sym, ◌∙◌, ap, false, List, [], ◌∷◌, map,
  some, ◌==◌, ltb, arith, Bool-cases, inl, inr, length,
}
use progetto_so.Klog.{Klog, next_char, put, digit, klog_print, print_hex_from, klog_print_hex}

-- A string of digits to the base, the lowest first, and its value.
abbrev pub value : (base : ℕ) → List ℕ → ℕ
value base [] = 0
value base (d ∷ ds) = d + base * value base ds

abbrev pub AreDigits : (base : ℕ) → List ℕ → Type 0
AreDigits base [] = Unit {0}
AreDigits base (d ∷ ds) = (d < base) × AreDigits base ds

-- The highest digit.
abbrev pub top : List ℕ → ℕ
top [] = 0
top (d ∷ []) = d
top (d ∷ e ∷ ds) = top (e ∷ ds)

-- The digits of a number, the lowest first, without leading zeros.
pub record IsNumeral (base num : ℕ) (ds : List ℕ) : Type 0 where
  pub digits : AreDigits base ds
  pub valued : value base ds ≡ num
  pub short : 0 < num → 0 < top ds
  pub some_digit : 0 < length ds

digit_not_newline : (d : ℕ) → (digit d == 10) ≡ false
digit_not_newline d = ground arith

printed_next :
    (d : ℕ) (cs : List ℕ) (k : Klog)
    → klog_print (digit d ∷ cs) k ≡ klog_print cs (next_char (put (digit d) k))
unfolding klog_print
printed_next d cs k = rw (digit_not_newline d) refl

printed_last : (k : Klog) → klog_print [] k ≡ k
unfolding klog_print
printed_last k = refl

top-cons : (d : ℕ) (ds : List ℕ) → 0 < length ds → top (d ∷ ds) ≡ top ds
top-cons d [] h = absurd (omega (arith, h))
top-cons d (e ∷ ds) h = refl

-- `16 ^ fuel`
abbrev bound : ℕ → ℕ
bound zero = 1
bound (suc n) = 16 * bound n

some_fuel : (fuel n : ℕ) → n < bound fuel → 0 < n → 0 < fuel
some_fuel zero n small left = absurd (omega (arith, small, left))
some_fuel (suc fuel) n small left = omega arith

print_hex_from-klog_print :
    (fuel num : ℕ) (k : Klog)
    → num < bound fuel
    → 0 < fuel
    → (ds : List ℕ) × IsNumeral 16 num ds
      × (print_hex_from fuel num k ≡ some (klog_print (map digit ds) k))
unfolding print_hex_from
print_hex_from-klog_print zero num k small live = absurd (omega (arith, live))
print_hex_from-klog_print (suc fuel) num k small live =
    let t = next_char (put (digit (num % 16)) k) in
    elim (Bool-cases (ltb 0 (num / 16))) [
      | inl more ↦
          let less : num / 16 < bound fuel = omega (arith, small) in
          let left : 0 < num / 16 = ground arith in
          let (ds, n, e) =
            print_hex_from-klog_print fuel (num / 16) t less
              (some_fuel fuel (num / 16) less left) in
          (
            num % 16 ∷ ds,
            record {
              digits = (omega arith, n.digits);
              valued = omega (arith, n.valued);
              short = λ p. omega (arith, top-cons (num % 16) ds n.some_digit, n.short left);
              some_digit = omega arith;
            },
            rw more (e ∙ ap some (sym (printed_next (num % 16) (map digit ds) k))),
          )
      | inr last ↦
          let over : num / 16 ≡ 0 = ground arith in
          (
            num % 16 ∷ [],
            record {
              digits = (omega arith, tt);
              valued = omega (arith, over);
              short = λ p. omega (arith, over, p);
              some_digit = omega arith;
            },
            rw last (ap some (sym (printed_next (num % 16) [] k ∙ printed_last t))),
          )
    ]

-- `klog_print_hex` prints for every word what `klog_print` prints for the string of the digits of its numeral to the
-- base 16, without leading zeros, but the lowest digit first.
pub klog_print_hex-klog_print :
    (num : ℕ) (k : Klog)
    → num < 2 ^ 32
    → (ds : List ℕ) × IsNumeral 16 num ds
      × (klog_print_hex num k ≡ some (klog_print (map digit ds) k))
unfolding klog_print_hex
klog_print_hex-klog_print num k small = print_hex_from-klog_print 8 num k small (omega arith)
