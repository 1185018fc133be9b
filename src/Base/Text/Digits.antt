-- ===== src/Base/Text/Digits.antt =====
-- The characters of printed numbers.
use Prim.Native.Nat.{ℕ, zero, suc, ◌+◌, ◌-◌, ◌/◌, ◌%◌, ◌<◌}
use mathlib.Core.Bool.{Bool, true, false, ◌&&◌, ◌||◌}
use mathlib.Core.List.{[], ◌∷◌, ◌++◌}
use mathlib.Core.Path.{◌≡◌, refl}
use native.Mathlib.Omega.{arith}
use native.Mathlib.Nat.{mod-lt}
use zombie_finder.Base.Lists.{length, replicate, all}
use zombie_finder.Base.Tests.{leb}
use zombie_finder.Base.Text.{
  Text, digit_loop, decimal, decimal_digit, hexadecimal, hex_digit, pad_left,
}

module _ (p : ℕ → Bool) where
  pub all-append : (s t : Text) → all p s ≡ true → all p t ≡ true → all p (s ++ t) ≡ true
  all-append [] t hs ht = ht
  all-append (c ∷ s) t hs ht = ground (arith, all-append s t)

  all-replicate : (n c : ℕ) → p c ≡ true → all p (replicate n c) ≡ true
  all-replicate zero c h = refl
  all-replicate (suc n) c h = ground (arith, all-replicate n c h)

  all-digit_loop :
      (digit : ℕ → ℕ) (b fuel n : ℕ) (out : Text)
      → 0 < b
      → ((d : ℕ) → d < b → p (digit d) ≡ true)
      → all p out ≡ true
      → all p (digit_loop digit b fuel n out) ≡ true
  unfolding digit_loop
  all-digit_loop digit b zero n out pos h ho = ground (arith, h (n % b) (mod-lt n pos), ho)
  all-digit_loop digit b (suc fuel) n out pos h ho =
      let low : p (digit (n % b)) ≡ true = h (n % b) (mod-lt n pos) in
      let more : all p (digit_loop digit b fuel (n / b) (digit (n % b) ∷ out)) ≡ true =
        all-digit_loop digit b fuel (n / b) (digit (n % b) ∷ out) pos h (ground (arith, low, ho)) in
      ground (arith, h n, more, ho)

-- The digits that `stream << n` prints.
abbrev pub is_decimal_digit : ℕ → Bool
is_decimal_digit c = leb b'0' c && leb c b'9'

module _ (p : ℕ → Bool) (digits : (c : ℕ) → is_decimal_digit c ≡ true → p c ≡ true) where
  pub all-decimal : (n : ℕ) → all p (decimal n) ≡ true
  unfolding decimal
  all-decimal n =
      all-digit_loop p decimal_digit 10 n n [] (omega arith)
        (λ d small. digits (b'0' + d) (ground arith)) refl

  pub all-hexadecimal :
      ((c : ℕ) → (leb b'A' c && leb c b'F') || (leb b'a' c && leb c b'f') ≡ true → p c ≡ true)
      → (upcase : Bool) (n : ℕ) → all p (hexadecimal upcase n) ≡ true
  unfolding hexadecimal
  all-hexadecimal letters upcase n =
      all-digit_loop p (hex_digit upcase) 16 n n [] (omega arith) (digit upcase) refl
    where
      digit : (upcase : Bool) (d : ℕ) → d < 16 → p (hex_digit upcase d) ≡ true
      digit true d small = ground (arith, digits (b'0' + d), letters (b'A' + (d - 10)))
      digit false d small = ground (arith, digits (b'0' + d), letters (b'a' + (d - 10)))

  pub all-pad_left :
      (fill width : ℕ) (s : Text)
      → p fill ≡ true
      → all p s ≡ true
      → all p (pad_left fill width s) ≡ true
  unfolding pad_left
  all-pad_left fill width s hf hs =
      all-append p (replicate (width - length s) fill) s
        (all-replicate p (width - length s) fill hf) hs
