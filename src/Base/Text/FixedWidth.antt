-- ===== src/Base/Text/FixedWidth.antt =====
-- Zero-filled numbers in a field of fixed width, in any base.
use Prim.Native.Nat.{ℕ, zero, suc, ◌+◌, ◌-◌, ◌*◌, ◌/◌, ◌%◌, ◌^◌, ◌<◌, ◌≤◌}
use mathlib.Core.Bool.{Bool}
use mathlib.Core.List.{[], ◌∷◌, ◌++◌}
use mathlib.Core.Path.{◌≡◌, refl, ap, subst, ◌∙◌}
use native.Mathlib.Omega.{arith}
use mathlib.Core.Logic.{inl, inr}
use native.Mathlib.Nat.{
  pow-suc, pow-zero, mod-eq_of_lt, div-eq_of_lt, div-lt_self, div-lt_iff_lt-mul,
}
use zombie_finder.Base.Lists.{length, replicate}
use zombie_finder.Base.Tests.{ltb, Bool-cases, ltb→lt, lt→ltb}
use zombie_finder.Base.Text.{
  Text, digit_loop, decimal, decimal_digit, hexadecimal, hex_digit, pad_left,
}

module _ (digit : ℕ → ℕ) (b : ℕ) where
  -- The last `w` digits of a number, in front of `out`.
  unfoldable pub base_digits : ℕ → ℕ → Text → Text
  base_digits zero n out = out
  base_digits (suc w) n out = base_digits w (n / b) (digit (n % b) ∷ out)

  pub length-base_digits : (w n : ℕ) (out : Text) → length (base_digits w n out) ≡ w + length out
  unfolding base_digits
  length-base_digits zero n out = omega arith
  length-base_digits (suc w) n out =
      omega (arith, length-base_digits w (n / b) (digit (n % b) ∷ out))

replicate-cons : (n c : ℕ) (s : Text) → replicate n c ++ c ∷ s ≡ c ∷ replicate n c ++ s
replicate-cons zero c s = refl
replicate-cons (suc n) c s = ap (λ t. c ∷ t) (replicate-cons n c s)

-- `pad_left` with the digit 0.
abbrev fill_up : ℕ → Text → Text
fill_up width s = replicate (width - length s) b'0' ++ s

module _ (digit : ℕ → ℕ) (b : ℕ) (zero_digit : digit 0 ≡ b'0') (large : 1 < b) where
  base_digits-zero : (w : ℕ) (out : Text) → base_digits digit b w 0 out ≡ replicate w b'0' ++ out
  unfolding base_digits
  base_digits-zero zero out = refl
  base_digits-zero (suc w) out =
      let high : 0 / b ≡ 0 = div-eq_of_lt (omega (arith, large)) in
      let low : 0 % b ≡ 0 = mod-eq_of_lt (omega (arith, large)) in
      rw (high, low, zero_digit) (base_digits-zero w (b'0' ∷ out) ∙ replicate-cons w b'0' out)

  last_digit :
      (w n : ℕ) (out : Text)
      → n < b
      → fill_up (suc w + length out) (digit n ∷ out) ≡ base_digits digit b (suc w) n out
  unfolding base_digits
  last_digit w n out small =
      let high : n / b ≡ 0 = div-eq_of_lt small in
      let low : n % b ≡ n = mod-eq_of_lt small in
      let left : suc w + length out - suc (length out) ≡ w = omega arith in
      rw (high, low, left, base_digits-zero w (digit n ∷ out)) refl

  filled-digit_loop :
      (w fuel n : ℕ) (out : Text)
      → n < b ^ suc w
      → n ≤ fuel
      → fill_up (suc w + length out) (digit_loop digit b fuel n out)
        ≡ base_digits digit b (suc w) n out
  unfolding digit_loop base_digits
  filled-digit_loop w zero n out small enough =
      let none_left : 0 ≡ n = omega (arith, enough) in
      let low : 0 % b ≡ 0 = mod-eq_of_lt (omega (arith, large)) in
      subst
        (λ k.
          fill_up (suc w + length out) (digit_loop digit b 0 k out)
          ≡ base_digits digit b (suc w) k out)
        none_left
        (ap (λ d. fill_up (suc w + length out) (digit d ∷ out)) low
          ∙ last_digit w 0 out (omega (arith, large)))
  filled-digit_loop zero (suc fuel) n out small enough =
      let less : n < b =
        subst (λ k. n < k) (pow-suc b 0 ∙ ap (λ k. k * b) (pow-zero b) ∙ omega arith) small in
      rw (lt→ltb n b less) (last_digit 0 n out less)
  filled-digit_loop (suc w) (suc fuel) n out small enough = elim (Bool-cases (ltb n b)) [
    | inl e ↦ rw e (last_digit (suc w) n out (ltb→lt n b e))
    | inr e ↦
        let positive : 0 < n = ground (arith, e, large) in
        let place : suc (suc w) + length out ≡ suc w + suc (length out) = omega arith in
        rw (e, place)
          (filled-digit_loop w fuel (n / b) (digit (n % b) ∷ out)
            ((div-lt_iff_lt-mul (omega (arith, large))).1
              (subst (λ k. n < k) (pow-suc b (suc w)) small))
            (omega (arith, div-lt_self {n = n} positive large, enough)))
  ]

  -- A number that fits its field is printed as its digits.
  pub pad_left-digit_loop :
      (w n : ℕ)
      → n < b ^ suc w
      → pad_left b'0' (suc w) (digit_loop digit b n n []) ≡ base_digits digit b (suc w) n []
  unfolding pad_left
  pad_left-digit_loop w n small =
      let printed = digit_loop digit b n n [] in
      let e : suc w - length printed ≡ suc w + 0 - length printed = omega arith in
      ap (λ k. replicate k b'0' ++ printed) e ∙ filled-digit_loop w n n [] small (omega arith)

-- Decimal digits.
abbrev pub digits : ℕ → ℕ → Text → Text
digits = base_digits decimal_digit 10

pub pad_left-decimal :
    (w n : ℕ) → n < 10 ^ suc w → pad_left b'0' (suc w) (decimal n) ≡ digits (suc w) n []
unfolding decimal
pad_left-decimal w n small = pad_left-digit_loop decimal_digit 10 refl (omega arith) w n small

pub pad_left-hexadecimal :
    (upcase : Bool) (w n : ℕ)
    → n < 16 ^ suc w
    → pad_left b'0' (suc w) (hexadecimal upcase n) ≡ base_digits (hex_digit upcase) 16 (suc w) n []
unfolding hexadecimal
pad_left-hexadecimal upcase w n small =
    pad_left-digit_loop (hex_digit upcase) 16 refl (omega arith) w n small
