-- ===== src/Strings/Times.antt =====
-- The date and time texts (StringUtils.cpp). A FILETIME and a LARGE_INTEGER stand as their 64 bits.
pub mod Parts
pub mod Sorted
use zombie_finder.Base.{
  ℕ, ◌++◌, Bool, true, false, Option, none, some, [], ◌∷◌, ltb, ◌==◌, if◌then◌else◌, length,
}
use zombie_finder.Base.Text.{Text, codes, ◌<<◌, decimal, pad_left}

pub record SystemTime : Type 0 where
  pub year : ℕ
  pub month : ℕ
  pub day : ℕ
  pub hour : ℕ
  pub minute : ℕ
  pub second : ℕ
  pub milliseconds : ℕ

-- `to_system_time`: what `st` holds behind `FileTimeToSystemTime`. `overflow`: what `swprintf` leaves
-- in the buffer if the text does not fit.
pub record TimeCalls : Type 0 where
  pub to_system_time : ℕ → SystemTime
  pub overflow : ℕ → Text → Text

-- `swprintf` into a buffer of so many characters.
unfoldable pub swprintf : TimeCalls → ℕ → Text → Text
swprintf calls buffer_size s =
    if ltb (length s) buffer_size then s else calls.overflow buffer_size s

-- "%04d" and the like.
unfoldable pub filled : ℕ → ℕ → Text
filled width n = pad_left b'0' width (decimal n)

-- What the four formats print.
unfoldable pub time_text : SystemTime → Bool → Bool → Text
unfolding filled
time_text st true true =
    filled 4 st.year
    << filled 2 st.month
    << filled 2 st.day
    << codes "_"
    << filled 2 st.hour
    << filled 2 st.minute
    << filled 2 st.second
    << codes "_"
    << filled 3 st.milliseconds
time_text st true false =
    filled 4 st.year
    << codes "-"
    << filled 2 st.month
    << codes "-"
    << filled 2 st.day
    << codes " "
    << filled 2 st.hour
    << codes ":"
    << filled 2 st.minute
    << codes ":"
    << filled 2 st.second
    << codes "."
    << filled 3 st.milliseconds
time_text st false true =
    filled 4 st.year
    << filled 2 st.month
    << filled 2 st.day
    << codes "_"
    << filled 2 st.hour
    << filled 2 st.minute
    << filled 2 st.second
time_text st false false =
    filled 4 st.year
    << codes "-"
    << filled 2 st.month
    << codes "-"
    << filled 2 st.day
    << codes " "
    << filled 2 st.hour
    << codes ":"
    << filled 2 st.minute
    << codes ":"
    << filled 2 st.second

-- `bIncludeMilliseconds`, then `bForFileSystem`.
unfoldable pub system_time_to_w_string : TimeCalls → SystemTime → Bool → Bool → Text
unfolding swprintf time_text
system_time_to_w_string calls st milliseconds for_file_system =
    swprintf calls 32 (time_text st milliseconds for_file_system)

-- `none` is a null pointer for `szIfZero`.
unfoldable pub file_time_to_w_string : TimeCalls → ℕ → Bool → Option Text → Text
unfolding system_time_to_w_string
file_time_to_w_string calls ft milliseconds if_zero =
    if ft == 0
    then elim if_zero [ none ↦ [] | some s ↦ s ]
    else system_time_to_w_string calls (calls.to_system_time ft) milliseconds false

unfoldable pub large_integer_to_date_time_string : TimeCalls → ℕ → Bool → Option Text → Text
unfolding file_time_to_w_string
large_integer_to_date_time_string calls l milliseconds if_zero =
    file_time_to_w_string calls l milliseconds if_zero

-- `now` is what `GetSystemTime` gives.
unfoldable pub timestamp_utc : TimeCalls → SystemTime → Bool → Text
unfolding system_time_to_w_string
timestamp_utc calls now milliseconds = system_time_to_w_string calls now milliseconds false

unfoldable pub timestamp_utc_for_filepath : TimeCalls → SystemTime → Bool → Text
unfolding system_time_to_w_string
timestamp_utc_for_filepath calls now milliseconds =
    system_time_to_w_string calls now milliseconds true
