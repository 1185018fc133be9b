-- ===== src/Base/Text.antt =====
-- Wide strings as lists of character values, and how the iostream library prints numbers.
pub mod Digits
pub mod FixedWidth
pub mod Scan
use Prim.Native.Nat.{ℕ, zero, suc, ◌+◌, ◌-◌, ◌/◌, ◌%◌}
use Prim.Native.Char.{code}
use Prim.Native.String.{String}
use mathlib.Core.Bool.{Bool}
use mathlib.Core.List.{List, [], ◌∷◌, ◌++◌}
use zombie_finder.Base.Lists.{length, replicate}
use zombie_finder.Base.Tests.{ltb, ◌==◌, if◌then◌else◌}

abbrev pub Text : Type 0
Text = List ℕ

-- What `stream << a << b` writes.
infixr 4 ◌<<◌
abbrev pub ◌<<◌ : Text → Text → Text
s << t = s ++ t

abbrev pub codes : String → Text
codes String.[] = []
codes (String.◌∷◌ c s) = code c ∷ codes s

-- What `c_str()` shows a C function: the characters in front of the first NUL.
abbrev pub c_str : Text → Text
c_str [] = []
c_str (c ∷ s) = if c == 0 then [] else c ∷ c_str s

-- The digits of `n` in base `b`, in front of `out`; each round divides `n` by the base.
unfoldable digit_loop : (ℕ → ℕ) → ℕ → ℕ → ℕ → Text → Text
digit_loop digit b zero n out = digit (n % b) ∷ out
digit_loop digit b (suc fuel) n out =
    let more = digit_loop digit b fuel (n / b) (digit (n % b) ∷ out) in
    if ltb n b then digit n ∷ out else more

abbrev pub decimal_digit : ℕ → ℕ
decimal_digit d = b'0' + d

-- `stream << n`. There are at most `n` rounds.
unfoldable pub decimal : ℕ → Text
unfolding digit_loop
decimal n = digit_loop decimal_digit 10 n n []

-- The digits that `std::hex` prints, in upper or lower case.
abbrev pub hex_digit : Bool → ℕ → ℕ
hex_digit upcase d =
    if ltb d 10 then b'0' + d else if upcase then b'A' + (d - 10) else b'a' + (d - 10)

unfoldable pub hexadecimal : Bool → ℕ → Text
unfolding digit_loop
hexadecimal upcase n = digit_loop (hex_digit upcase) 16 n n []

-- `std::setw(width)` with the fill character, on the right or on the left of the field.
unfoldable pub pad_left : ℕ → ℕ → Text → Text
pad_left fill width s = replicate (width - length s) fill ++ s

unfoldable pub pad_right : ℕ → ℕ → Text → Text
pad_right fill width s = s ++ replicate (width - length s) fill
