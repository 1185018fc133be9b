-- ===== src/Strings.antt =====
-- What the program uses of the C and C++ string functions, and StringUtils.h.
pub mod Folding
pub mod Order
pub mod Times
pub mod Last
pub mod Paths
pub mod Parent
pub mod Split
pub mod Prefix
pub mod Directory
pub mod Replace
use zombie_finder.Base.{
  ℕ, suc, ◌+◌, ◌-◌, Bool, true, false, ◌&&◌, ◌||◌, Option, none, some, List, [], ◌∷◌, ltb, leb,
  ◌==◌, if◌then◌else◌, length, take, drop, get_elem?, map,
}
use zombie_finder.Base.Text.{Text, c_str}

-- The sign of the number that a comparison returns.
pub data Comparison : Type 0 where
  less equal greater : Comparison

-- The case folding of `_wcsicmp` in the "C" locale, which the program never changes.
unfoldable pub to_lower : ℕ → ℕ
to_lower c = if leb b'A' c && leb c b'Z' then c + 32 else c

unfoldable pub compare_folded : Text → Text → Comparison
unfolding to_lower
compare_folded [] [] = equal
compare_folded [] (d ∷ t) = less
compare_folded (c ∷ s) [] = greater
compare_folded (c ∷ s) (d ∷ t) =
    if ltb (to_lower c) (to_lower d)
    then less
    else if ltb (to_lower d) (to_lower c)
    then greater
    else compare_folded s t

-- `WString_To_Upper`; the argument stands for `std::toupper` in the locale of the user.
unfoldable pub w_string_to_upper : (ℕ → ℕ) → Text → Text
w_string_to_upper toupper str = map toupper str

-- `_wcsicmp(a.c_str(), b.c_str())`.
unfoldable pub wcsicmp : Text → Text → Comparison
unfolding compare_folded
wcsicmp a b = compare_folded (c_str a) (c_str b)

-- `find_last_of` and `find_first_of` for a set of characters; `none` is `npos`.
unfoldable pub find_last_of : (ℕ → Bool) → Text → Option ℕ
find_last_of p [] = none
find_last_of p (c ∷ s) = elim (find_last_of p s) [
  | some ix ↦ some (suc ix)
  | none ↦ if p c then some 0 else none
]

unfoldable pub find_first_of : (ℕ → Bool) → Text → Option ℕ
find_first_of p [] = none
find_first_of p (c ∷ s) =
    let later : Option ℕ = elim (find_first_of p s) [ none ↦ none | some ix ↦ some (suc ix) ] in
    if p c then some 0 else later

-- The set L"/\\".
unfoldable pub is_path_separator : ℕ → Bool
is_path_separator c = c == b'/' || c == b'\\'

unfoldable pub get_file_name_from_file_path : Text → Text
unfolding find_last_of is_path_separator
get_file_name_from_file_path file_path = elim (find_last_of is_path_separator file_path) [
  | none ↦ file_path
  | some ix ↦ drop (suc ix) file_path
]
