-- ===== src/Tests/Texts.antt =====
-- Runs of the functions on texts.
use zombie_finder.Strings.Replace.Nul.{
  escape_cr_lf_tab_nul-escape_with_nul, escape_with_nul, without_last_nul,
}
use zombie_finder.ErrorText.Trimmed.{trimmed, number_text, sys_error_message-trimmed}
use zombie_finder.ErrorText.{sys_error_message, sys_error_message_with_code}
use zombie_finder.Hex.Reread.{bit_pattern, four_bytes, read_digits, digits_of, read_digits-hex}
use zombie_finder.Hex.{hex}
use zombie_finder.Strings.Replace.Ending.{replace_string_all-ends}
use zombie_finder.Base.{
  ◌≡◌, ◌<◌, refl, arith, true, false, not, ◌&&◌, ◌==◌, some, [], ◌∷◌, length, all, is_some, ◌++◌, ℕ,
}
use zombie_finder.Base.Text.{Text, codes, decimal, pad_left, c_str}
use zombie_finder.Strings.Directory.{get_directory_name_from_file_path}
use zombie_finder.Strings.Order.{compare_texts}
use zombie_finder.Strings.Prefix.{starts_with, ends_with}
use zombie_finder.Strings.Replace.{escape_cr_lf_tab_nul, replace_string_all}
use zombie_finder.Strings.Split.{split_string_to_vector, join, lacks, split_string_to_vector-join}
use zombie_finder.Strings.Times.{SystemTime, system_time_to_w_string}
use zombie_finder.Strings.Times.Sorted.{
  IsShort, compare_times, compare_texts-system_time_to_w_string,
}
use zombie_finder.Tests.Scenario.{times, a_time, denied}

abbrev fields : Text
fields = codes "a\tbc\t"

split_fields : split_string_to_vector fields b'\t' ≡ codes "a" ∷ codes "bc" ∷ [] ∷ []
unfolding split_string_to_vector
split_fields = refl

split_string_to_vector-join_example :
    (join b'\t' (split_string_to_vector fields b'\t') ≡ fields)
    × (all (lacks b'\t') (split_string_to_vector fields b'\t') ≡ true)
    × ((length (split_string_to_vector fields b'\t') == 0) ≡ (length fields == 0))
split_string_to_vector-join_example = split_string_to_vector-join fields b'\t'

abbrev a_second_later : SystemTime
a_second_later = record a_time { second = 10; milliseconds = 0 }

a_time-text : system_time_to_w_string times a_time true false ≡ codes "2024-02-29 23:59:09.007"
unfolding system_time_to_w_string pad_left decimal
a_time-text = refl

a_time-IsShort : IsShort a_time
a_time-IsShort = record {
  year = omega arith;
  month = omega arith;
  day = omega arith;
  hour = omega arith;
  minute = omega arith;
  second = omega arith;
  milliseconds = omega arith;
}

a_second_later-IsShort : IsShort a_second_later
a_second_later-IsShort = record {
  year = omega arith;
  month = omega arith;
  day = omega arith;
  hour = omega arith;
  minute = omega arith;
  second = omega arith;
  milliseconds = omega arith;
}

compare_texts-system_time_to_w_string_example :
    (length (system_time_to_w_string times a_time true true) < 32)
    × (compare_texts
          (system_time_to_w_string times a_time true true)
          (system_time_to_w_string times a_second_later true true)
        ≡ compare_times true a_time a_second_later)
compare_texts-system_time_to_w_string_example =
    compare_texts-system_time_to_w_string times true true a_time a_second_later a_time-IsShort
      a_second_later-IsShort

-- "a", CR, LF, NUL, tab, "b", NUL.
abbrev two_lines : Text
two_lines = codes "a\r\n" ++ (0 ∷ codes "\tb") ++ 0 ∷ []

escape_cr_lf_tab_nul-escape_with_nul_example :
    (escape_cr_lf_tab_nul two_lines ≡ some (escape_with_nul (without_last_nul two_lines)))
    × (all
          (λ c. not (c == 13) && not (c == 10) && not (c == 9) && not (c == 0))
          (escape_with_nul (without_last_nul two_lines))
        ≡ true)
escape_cr_lf_tab_nul-escape_with_nul_example = escape_cr_lf_tab_nul-escape_with_nul two_lines

-- Only a NUL that is not the last character is shown.
escapes_nul : escape_cr_lf_tab_nul (0 ∷ b'\t' ∷ 0 ∷ []) ≡ some (codes "\\0\\t")
unfolding escape_cr_lf_tab_nul
escapes_nul = refl

replaces_all : replace_string_all (codes "aaab") (codes "aa") (codes "a") ≡ some (codes "aab")
unfolding replace_string_all
replaces_all = refl

replace_string_all-ends_example :
    is_some (replace_string_all (codes "aaab") (codes "aa") (codes "aaa")) ≡ true
replace_string_all-ends_example = replace_string_all-ends (codes "aaab") (codes "aa") (codes "aaa")

prefixes :
    (starts_with (codes "ABC") (codes "ab") false ≡ true)
    × (starts_with (codes "ABC") (codes "ab") true ≡ false)
    × (starts_with (codes "A") (codes "ab") false ≡ false)
    × (ends_with (codes "ab") b'b' ≡ true)
    × (ends_with [] b'b' ≡ false)
unfolding starts_with ends_with
prefixes = (refl, refl, refl, refl, refl)

directories :
    (get_directory_name_from_file_path (codes "C:\\Subdir") ≡ codes "C:")
    × (get_directory_name_from_file_path (codes "C:\\") ≡ [])
    × (get_directory_name_from_file_path (codes "\\\\server\\share\\a") ≡ codes "\\\\server\\share")
    × (get_directory_name_from_file_path (codes "\\\\server\\share") ≡ [])
    × (get_directory_name_from_file_path (codes "a.txt") ≡ [])
unfolding get_directory_name_from_file_path
directories = (refl, refl, refl, refl, refl)

hex_text : hex 4 0xc0000022 8 true true ≡ codes "0xC0000022"
unfolding hex
hex_text = refl

-- A negative status, as `static_cast<uint64_t>` extends it.
abbrev denied_status : ℕ
denied_status = 0xffffffffc0000022

read_digits-hex_example :
    (length (digits_of true (hex 4 denied_status 8 true true)) ≡ 8)
    × (read_digits 0 (digits_of true (hex 4 denied_status 8 true true))
        ≡ bit_pattern 4 denied_status)
read_digits-hex_example = read_digits-hex 4 denied_status 7 true true four_bytes (omega arith)

access_denied : sys_error_message_with_code denied 5 false ≡ codes "Denied. Error # 5 (0x00000005)"
unfolding sys_error_message_with_code
access_denied = refl

sys_error_message-trimmed_example :
    (sys_error_message denied 5 false ≡ trimmed (c_str (codes "Denied.\r\n")))
    × (sys_error_message_with_code denied 5 false
        ≡ trimmed (c_str (codes "Denied.\r\n")) ++ codes " " ++ number_text 5)
sys_error_message-trimmed_example = sys_error_message-trimmed denied 5 false
