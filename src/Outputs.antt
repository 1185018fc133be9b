-- ===== src/Outputs.antt =====
-- The four functions of ZombieFinder.cpp that write the results, and the table that they write with
-- tabs. The collection that they read is what the sorted pointers lead to.
pub mod Summary
pub mod Details
pub mod SummaryCsv
pub mod DetailsCsv
pub mod Plain
pub mod Rows
pub mod Tables
pub mod Printed
pub mod Reread
use zombie_finder.Base.{
  ℕ, ◌+◌, ◌-◌, ◌/◌, ◌%◌, ◌^◌, ltb, if◌then◌else◌, Option, none, some, List, [], ◌∷◌, length, Bool,
}
use zombie_finder.Base.Text.{Text, codes, ◌<<◌}
use zombie_finder.Services.{ServiceNames, ServiceList}

-- `std::endl`.
abbrev pub end_line : Text
end_line = codes "\n"

-- `szTabDelim`.
abbrev pub tab_delim : Text
tab_delim = codes "\t"

-- The loop over the services.
unfoldable pub service_names : List ServiceNames → Text
service_names [] = []
service_names (s ∷ services) = s.service_name << codes " " << service_names services

-- The services, behind `before`, of a process that hosts some.
unfoldable pub services_text : Text → Option ServiceList → Text
unfolding service_names
services_text before none = []
services_text before (some services) = before << service_names services

-- `nSecondsAgo`; the difference is one of unsigned 64-bit numbers.
unfoldable pub seconds_ago : ℕ → ℕ → ℕ
seconds_ago now exit_time = (now + (2 ^ 64 - exit_time % 2 ^ 64)) % 2 ^ 64 / 10000000

unfoldable pub parent_text : Text → Text
parent_text path = if ltb 0 (length path) then path else codes "(exited)"

-- What a block writes that is left out for an empty list.
abbrev pub unless_empty {ℓ} : {A : Type ℓ} → List A → Text → Text
unless_empty xs written = if ltb 0 (length xs) then written else []

-- The loop over `ProcessEnumErrors()` of the formats without tabs.
unfoldable pub error_lines : List Text → Text
error_lines [] = []
error_lines (e ∷ errors) = codes "ERROR: " << e << end_line << error_lines errors
