-- ===== src/Base/Text/Scan.antt =====
-- `swscanf_s` with "%llu", as the C library of Windows has it: white space is skipped, a sign may
-- stand in front, what follows the digits is not read, and a number that does not fit is the largest.
use Prim.Native.Nat.{ℕ, zero, suc, ◌+◌, ◌-◌, ◌*◌, ◌/◌, ◌%◌, ◌^◌, ◌<◌, ◌≤◌}
use mathlib.Core.Bool.{Bool, true, ◌&&◌, ◌||◌}
use mathlib.Core.List.{[], ◌∷◌}
use mathlib.Core.Logic.{inl, inr, ◌≢◌}
use mathlib.Core.Option.{Option, none, some}
use mathlib.Core.Path.{◌≡◌, refl, ap, ◌∙◌}
use native.Mathlib.Omega.{arith}
use zombie_finder.Base.Lists.{all}
use zombie_finder.Base.Tests.{ltb, leb, ◌==◌, if◌then◌else◌, Bool-cases}
use zombie_finder.Base.Text.{Text, digit_loop, decimal, decimal_digit}
use zombie_finder.Base.Text.Digits.{is_decimal_digit, all-decimal}

abbrev is_space : ℕ → Bool
is_space c = c == 32 || (leb 9 c && leb c 13)

skip_spaces : Text → Text
skip_spaces [] = []
skip_spaces (c ∷ s) = if is_space c then skip_spaces s else c ∷ s

-- The number after one more digit.
abbrev with_digit : Option ℕ → ℕ → ℕ
with_digit none c = c - b'0'
with_digit (some n) c = n * 10 + (c - b'0')

-- The number that the digits in front stand for, behind those that were read before.
scan_digits : Text → Option ℕ → Option ℕ
scan_digits [] n = n
scan_digits (c ∷ s) n = if is_decimal_digit c then scan_digits s (some (with_digit n c)) else n

abbrev to_ulonglong : Option ℕ → Option ℕ
to_ulonglong none = none
to_ulonglong (some n) = some (if ltb n (2 ^ 64) then n else 2 ^ 64 - 1)

abbrev to_negative : Option ℕ → Option ℕ
to_negative none = none
to_negative (some n) = some (if ltb n (2 ^ 64) then (2 ^ 64 - n) % 2 ^ 64 else 2 ^ 64 - 1)

scan_signed : Text → Option ℕ
scan_signed [] = none
scan_signed (c ∷ s) =
    if c == b'-'
    then to_negative (scan_digits s none)
    else if c == b'+'
    then to_ulonglong (scan_digits s none)
    else to_ulonglong (scan_digits (c ∷ s) none)

-- The number, if the call returns 1.
unfoldable pub scan_llu : Text → Option ℕ
unfolding skip_spaces scan_signed scan_digits
scan_llu s = scan_signed (skip_spaces s)

abbrev read_decimal : ℕ → Text → ℕ
read_decimal n [] = n
read_decimal n (c ∷ s) = read_decimal (n * 10 + (c - b'0')) s

scan_digits-all :
    (s : Text) (n : ℕ)
    → all is_decimal_digit s ≡ true
    → scan_digits s (some n) ≡ some (read_decimal n s)
unfolding scan_digits
scan_digits-all [] n h = refl
scan_digits-all (c ∷ s) n h = ground (arith, scan_digits-all s (n * 10 + (c - b'0')), h)

scan_llu-all :
    (s : Text)
    → s ≢ []
    → all is_decimal_digit s ≡ true
    → read_decimal 0 s < 2 ^ 64
    → scan_llu s ≡ some (read_decimal 0 s)
unfolding scan_llu
scan_llu-all [] some_digit h small = absurd (some_digit refl)
scan_llu-all (c ∷ s) some_digit h small =
    let first : is_decimal_digit c ≡ true = ground (arith, h) in
    let rest : all is_decimal_digit s ≡ true = ground (arith, h) in
    let same : read_decimal (c - b'0') s ≡ read_decimal 0 (c ∷ s) =
      ap (λ k. read_decimal k s) (omega arith) in
    ground (arith, scan_digits-all s (c - b'0') rest, first, same, small)

read_decimal-digit_loop :
    (fuel n : ℕ) (out : Text)
    → n ≤ fuel
    → read_decimal 0 (digit_loop decimal_digit 10 fuel n out) ≡ read_decimal n out
unfolding digit_loop
read_decimal-digit_loop zero n out h = ap (λ k. read_decimal k out) (omega (arith, h))
read_decimal-digit_loop (suc fuel) n out h = elim (Bool-cases (ltb n 10)) [
  | inl e ↦ rw e (ap (λ k. read_decimal k out) (omega arith))
  | inr e ↦ rw e (
      read_decimal-digit_loop fuel (n / 10) (decimal_digit (n % 10) ∷ out) (ground (arith, h, e))
      ∙ ap (λ k. read_decimal k out) (omega arith))
]

digit_loop-ne-nil : (fuel n : ℕ) (out : Text) → digit_loop decimal_digit 10 fuel n out ≢ []
unfolding digit_loop
digit_loop-ne-nil zero n out e = cc
digit_loop-ne-nil (suc fuel) n out e = elim (Bool-cases (ltb n 10)) [
  | inl small ↦ cc (rw small at e)
  | inr large ↦ digit_loop-ne-nil fuel (n / 10) (decimal_digit (n % 10) ∷ out) (rw large at e)
]

-- What `stream << n` prints is read back.
pub scan_llu-decimal : (n : ℕ) → n < 2 ^ 64 → scan_llu (decimal n) ≡ some n
unfolding decimal
scan_llu-decimal n small =
    let same : read_decimal 0 (decimal n) ≡ n = read_decimal-digit_loop n n [] (omega arith) in
    scan_llu-all (decimal n) (digit_loop-ne-nil n n []) (all-decimal is_decimal_digit (λ c d. d) n)
      (omega (arith, same, small))
    ∙ ap some same
