-- ===== src/Strings/Directory.antt =====
-- `GetDirectoryNameFromFilePath` (StringUtils.cpp).
use zombie_finder.Base.{
  ℕ, suc, ◌+◌, ◌-◌, Bool, false, ◌||◌, Option, none, some, [], ◌==◌, if◌then◌else◌, length, take,
  drop,
}
use zombie_finder.Base.Text.{Text, codes}
use zombie_finder.Strings.{find_last_of, find_first_of, is_path_separator}
use zombie_finder.Strings.Prefix.{starts_with}

-- `find_first_of` from an index on.
unfoldable pub find_first_from : (ℕ → Bool) → Text → ℕ → Option ℕ
unfolding find_first_of
find_first_from p s start = elim (find_first_of p (drop start s)) [
  | none ↦ none
  | some ix ↦ some (start + ix)
]

-- The separator behind the share of a UNC path.
unfoldable pub share_end : Text → Option ℕ
unfolding find_first_from is_path_separator
share_end path = elim (find_first_from is_path_separator path 2) [
  | none ↦ none
  | some ix ↦ find_first_from is_path_separator path (suc ix)
]

-- The separator that must not be the last character; `none` if there is none.
unfoldable pub root_end : Text → Option ℕ
unfolding share_end starts_with
root_end path =
    if starts_with path (codes "\\\\") false || starts_with path (codes "//") false
    then share_end path
    else find_first_of is_path_separator path

unfoldable pub get_directory_name_from_file_path : Text → Text
unfolding find_last_of root_end
get_directory_name_from_file_path path = elim (find_last_of is_path_separator path) [
  | none ↦ []
  | some last ↦ elim (root_end path) [
    | none ↦ []
    | some ix ↦ if length path - 1 == ix then [] else take last path
  ]
]
