-- ===== src/Hex/Reread.antt =====
-- The numbers of HEX.h, read back.
use zombie_finder.Base.{
  ℕ, zero, suc, ◌+◌, ◌-◌, ◌*◌, ◌/◌, ◌%◌, ◌^◌, ◌<◌, ◌≡◌, ap, ◌∙◌, Bool, true, false, [], ◌∷◌, leb,
  if◌then◌else◌, length, arith, drop, sym, subst, refl,
}
use native.Mathlib.Nat.{pow-suc, mul_assoc}
use zombie_finder.Base.Text.{Text, hex_digit}
use zombie_finder.Base.Text.FixedWidth.{base_digits, length-base_digits, pad_left-hexadecimal}
use zombie_finder.Hex.{hex, to_u64}

-- The value of a digit, in upper or lower case.
abbrev digit_value : ℕ → ℕ
digit_value c = if leb c b'9' then c - b'0' else if leb c b'F' then c - b'A' + 10 else c - b'a' + 10

-- Reads digits in base 16 behind a number.
abbrev pub read_digits : ℕ → Text → ℕ
read_digits n [] = n
read_digits n (c ∷ s) = read_digits (n * 16 + digit_value c) s

digit_value-hex_digit : (upcase : Bool) (d : ℕ) → d < 16 → digit_value (hex_digit upcase d) ≡ d
digit_value-hex_digit true d small = ground arith
digit_value-hex_digit false d small = ground arith

read_digits-base_digits :
    (upcase : Bool) (w n m : ℕ) (out : Text)
    → n < 16 ^ w
    → read_digits m (base_digits (hex_digit upcase) 16 w n out) ≡ read_digits (m * 16 ^ w + n) out
unfolding base_digits
read_digits-base_digits upcase zero n m out small =
    ap (λ k. read_digits k out) (omega (arith, small))
read_digits-base_digits upcase (suc w) n m out small =
    let high : n / 16 < 16 ^ w = omega (arith, small, pow-suc 16 w) in
    let scaled : m * 16 ^ suc w ≡ m * 16 ^ w * 16 =
      ap (λ k. m * k) (pow-suc 16 w) ∙ sym (mul_assoc m (16 ^ w) 16) in
    let digit = digit_value-hex_digit upcase (n % 16) (omega arith) in
    read_digits-base_digits upcase w (n / 16) m (hex_digit upcase (n % 16) ∷ out) high
    ∙ ap (λ k. read_digits k out) (omega (arith, digit, scaled))

-- The sizes of the integer types.
pub data IsIntegerSize : ℕ → Type 0 where
  one_byte : IsIntegerSize 1
  two_bytes : IsIntegerSize 2
  four_bytes : IsIntegerSize 4
  eight_bytes : IsIntegerSize 8

-- The number that the bytes of an integer of a size hold.
abbrev pub bit_pattern : ℕ → ℕ → ℕ
bit_pattern size num = num % 2 ^ (8 * size)

to_u64-bit_pattern : (size num : ℕ) → IsIntegerSize size → to_u64 size num ≡ bit_pattern size num
unfolding to_u64
to_u64-bit_pattern size num one_byte = refl
to_u64-bit_pattern size num two_bytes = refl
to_u64-bit_pattern size num four_bytes = refl
to_u64-bit_pattern size num eight_bytes = refl

-- Without the prefix, if there is one.
abbrev pub digits_of : Bool → Text → Text
digits_of prefix s = drop (if prefix then 2 else 0) s

digits_of-hex :
    (size num w : ℕ) (upcase prefix : Bool)
    → to_u64 size num < 16 ^ suc w
    → digits_of prefix (hex size num (suc w) upcase prefix)
      ≡ base_digits (hex_digit upcase) 16 (suc w) (to_u64 size num) []
unfolding hex
digits_of-hex size num w upcase true small = pad_left-hexadecimal upcase w (to_u64 size num) small
digits_of-hex size num w upcase false small = pad_left-hexadecimal upcase w (to_u64 size num) small

-- An integer of 1, 2, 4 or 8 bytes whose bit pattern fits the width, which is not 0, is printed in as
-- many characters as the width says, behind the prefix if one is asked for, and read back these are
-- the bit pattern, whether the digits are in upper case or lower case.
pub read_digits-hex :
    (size num w : ℕ) (upcase prefix : Bool)
    → IsIntegerSize size
    → bit_pattern size num < 16 ^ suc w
    → let s = hex size num (suc w) upcase prefix in
      (length (digits_of prefix s) ≡ suc w)
      × (read_digits 0 (digits_of prefix s) ≡ bit_pattern size num)
read_digits-hex size num w upcase prefix integer fits =
    let n = to_u64 size num in
    let pattern = to_u64-bit_pattern size num integer in
    let small : n < 16 ^ suc w = subst (λ k. k < 16 ^ suc w) (sym pattern) fits in
    let printed = digits_of-hex size num w upcase prefix small in
    (
      ap length printed ∙ length-base_digits (hex_digit upcase) 16 (suc w) n [] ∙ omega arith,
      ap (read_digits 0) printed
          ∙ read_digits-base_digits upcase (suc w) n 0 [] small
          ∙ omega arith
          ∙ pattern,
    )
