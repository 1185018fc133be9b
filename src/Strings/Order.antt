-- ===== src/Strings/Order.antt =====
-- The lexicographic order of texts, and of numbers of fixed width.
use zombie_finder.Base.{
  ℕ, zero, suc, ◌/◌, ◌%◌, ◌^◌, ◌<◌, ◌≡◌, refl, sym, ◌∙◌, [], ◌∷◌, arith, ltb, if◌then◌else◌,
}
use zombie_finder.Base.Text.{Text, decimal_digit}
use zombie_finder.Base.Text.FixedWidth.{base_digits, digits}
use zombie_finder.Strings.{Comparison, less, equal, greater}
use native.Mathlib.Nat.{pow-suc}

abbrev pub compare_numbers : ℕ → ℕ → Comparison
compare_numbers n m = if ltb n m then less else if ltb m n then greater else equal

-- The second comparison decides where the first does not.
abbrev pub and_then : Comparison → Comparison → Comparison
and_then less c = less
and_then equal c = c
and_then greater c = greater

abbrev pub compare_texts : Text → Text → Comparison
compare_texts [] [] = equal
compare_texts [] (d ∷ t) = less
compare_texts (c ∷ s) [] = greater
compare_texts (c ∷ s) (d ∷ t) = and_then (compare_numbers c d) (compare_texts s t)

and_then_assoc : (a b c : Comparison) → and_then (and_then a b) c ≡ and_then a (and_then b c)
and_then_assoc less b c = refl
and_then_assoc equal b c = refl
and_then_assoc greater b c = refl

pub compare_numbers_refl : (n : ℕ) → compare_numbers n n ≡ equal
compare_numbers_refl n = ground arith

by_last_digit :
    (n m : ℕ)
    → and_then
        (compare_numbers (n / 10) (m / 10))
        (compare_numbers (decimal_digit (n % 10)) (decimal_digit (m % 10)))
      ≡ compare_numbers n m
by_last_digit n m = ground arith

pub compare_texts-digits :
    (w n m : ℕ) (s t : Text)
    → n < 10 ^ w
    → m < 10 ^ w
    → compare_texts (digits w n s) (digits w m t)
      ≡ and_then (compare_numbers n m) (compare_texts s t)
unfolding base_digits
compare_texts-digits zero n m s t hn hm = ground arith
compare_texts-digits (suc w) n m s t hn hm =
    compare_texts-digits w (n / 10) (m / 10) (decimal_digit (n % 10) ∷ s)
      (decimal_digit (m % 10) ∷ t) (omega (arith, pow-suc 10 w, hn))
      (omega (arith, pow-suc 10 w, hm))
    ∙ sym (
        rw (by_last_digit n m) at (
          and_then_assoc (compare_numbers (n / 10) (m / 10))
            (compare_numbers (decimal_digit (n % 10)) (decimal_digit (m % 10)))
            (compare_texts s t)))
