-- ===== src/Hex.antt =====
-- HEX.h: a number as zero-filled hexadecimal text, wide (HEXW) or not (HEXA). `size` is `sizeof(T)`; a signed argument stands
-- as the bit pattern that `static_cast<uint64_t>` gives it.
pub mod Reread
use zombie_finder.Base.{ℕ, ◌%◌, ◌^◌, ◌++◌, Bool, ◌==◌, if◌then◌else◌, []}
use zombie_finder.Base.Text.{Text, codes, hexadecimal, pad_left}

unfoldable pub to_u64 : ℕ → ℕ → ℕ
to_u64 size num =
    if size == 1
    then num % 2 ^ 8
    else if size == 2
    then num % 2 ^ 16
    else if size == 4
    then num % 2 ^ 32
    else num % 2 ^ 64

-- `std::setw` applies to the number, not to the prefix, which is written first with no width.
unfoldable pub hex : ℕ → ℕ → ℕ → Bool → Bool → Text
unfolding to_u64 hexadecimal pad_left
hex size num width upcase prefix =
    (if prefix then codes "0x" else [])
    ++ pad_left b'0' width (hexadecimal upcase (to_u64 size num))
