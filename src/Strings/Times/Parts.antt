-- ===== src/Strings/Times/Parts.antt =====
-- Formats of separators and zero-filled numbers, in two times at once.
use zombie_finder.Base.{
  ℕ, zero, suc, ◌+◌, ◌<◌, ◌≡◌, refl, ap, ◌∙◌, Bool, true, ◌++◌, [], ◌∷◌, arith, ltb, length,
  length-append, ap₂, ◌/◌, ◌%◌, ◌^◌, append-nil, List, all, ◌&&◌,
}
use zombie_finder.Base.Text.{Text, decimal_digit}
use zombie_finder.Base.Text.FixedWidth.{base_digits, digits, pad_left-decimal, length-base_digits}
use zombie_finder.Strings.{Comparison, equal}
use zombie_finder.Strings.Order.{
  compare_texts, compare_numbers, and_then, compare_texts-digits, compare_numbers_refl,
}
use zombie_finder.Strings.Times.{filled}

digits-append : (w n : ℕ) (s t : Text) → digits w n s ++ t ≡ digits w n (s ++ t)
unfolding base_digits
digits-append zero n s t = refl
digits-append (suc w) n s t = digits-append w (n / 10) (decimal_digit (n % 10) ∷ s) t

field :
    (w n m : ℕ) (s t : Text) (c : Comparison)
    → n < 10 ^ suc w
    → m < 10 ^ suc w
    → compare_texts s t ≡ c
    → compare_texts (filled (suc w) n ++ s) (filled (suc w) m ++ t)
      ≡ and_then (compare_numbers n m) c
unfolding filled
field w n m s t c hn hm rest =
    ap₂ compare_texts (ap (λ p. p ++ s) (pad_left-decimal w n hn) ∙ digits-append (suc w) n [] s)
      (ap (λ p. p ++ t) (pad_left-decimal w m hm) ∙ digits-append (suc w) m [] t)
    ∙ compare_texts-digits (suc w) n m s t hn hm
    ∙ ap (and_then (compare_numbers n m)) rest

-- A part of a format: a character, or a number of so many digits and one more, in two times.
pub data Part : Type 0 where
  separator : ℕ → Part
  number : ℕ → ℕ → ℕ → Part

abbrev pub fits : Part → Bool
fits (separator k) = true
fits (number w n m) = ltb n (10 ^ suc w) && ltb m (10 ^ suc w)

-- The text of the first time, and that of the second.
abbrev pub first : List Part → Text
first [] = []
first (separator k ∷ ps) = k ∷ first ps
first (number w n m ∷ []) = filled (suc w) n
first (number w n m ∷ q ∷ ps) = filled (suc w) n ++ first (q ∷ ps)

abbrev pub second : List Part → Text
second [] = []
second (separator k ∷ ps) = k ∷ second ps
second (number w n m ∷ []) = filled (suc w) m
second (number w n m ∷ q ∷ ps) = filled (suc w) m ++ second (q ∷ ps)

abbrev pub order : List Part → Comparison
order [] = equal
order (separator k ∷ ps) = order ps
order (number w n m ∷ ps) = and_then (compare_numbers n m) (order ps)

pub compare_parts :
    (ps : List Part) → all fits ps ≡ true → compare_texts (first ps) (second ps) ≡ order ps
compare_parts [] h = refl
compare_parts (separator k ∷ ps) h = rw (compare_numbers_refl k) (compare_parts ps h)
compare_parts (number w n m ∷ []) h =
    rw (append-nil (filled (suc w) n), append-nil (filled (suc w) m)) at
      (field w n m [] [] equal (ground arith) (ground arith) refl)
compare_parts (number w n m ∷ q ∷ ps) h =
    field w n m (first (q ∷ ps)) (second (q ∷ ps)) (order (q ∷ ps)) (ground arith) (ground arith)
      (compare_parts (q ∷ ps) (ground arith))

abbrev pub width : List Part → ℕ
width [] = 0
width (separator k ∷ ps) = suc (width ps)
width (number w n m ∷ ps) = suc w + width ps

length-filled : (w n : ℕ) → n < 10 ^ suc w → length (filled (suc w) n) ≡ suc w
unfolding filled
length-filled w n h =
    ap length (pad_left-decimal w n h)
    ∙ omega (arith, length-base_digits decimal_digit 10 (suc w) n [])

pub length-first : (ps : List Part) → all fits ps ≡ true → length (first ps) ≡ width ps
length-first [] h = refl
length-first (separator k ∷ ps) h = omega (arith, length-first ps h)
length-first (number w n m ∷ []) h = omega (arith, length-filled w n (ground arith))
length-first (number w n m ∷ q ∷ ps) h = omega (
  arith,
  length-append (filled (suc w) n) (first (q ∷ ps)),
  length-filled w n (ground arith),
  length-first (q ∷ ps) (ground arith),
)
