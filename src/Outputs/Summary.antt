-- ===== src/Outputs/Summary.antt =====
-- `OutputSummary` (ZombieFinder.cpp).
use zombie_finder.Base.{ℕ, ◌+◌, ltb, if◌then◌else◌, List, [], ◌∷◌, length}
use zombie_finder.Base.Text.{Text, codes, ◌<<◌, decimal, pad_left, pad_right}
use zombie_finder.Outputs.{unless_empty, end_line, services_text, error_lines}
use zombie_finder.ZombieOwners.{ZombieOwner}
use zombie_finder.ZombieOwners.Object.{ZombieOwners}

-- The loop that looks for the longest name.
unfoldable pub longest_name : List ZombieOwner → ℕ → ℕ
longest_name [] width = width
longest_name (o ∷ coll) width =
    longest_name coll (if ltb width (length o.exe_name) then length o.exe_name else width)

-- A left-aligned field and a right-aligned field of 6 characters.
abbrev pub columns : ℕ → Text → Text → Text
columns width left right = pad_right b' ' width left << pad_left b' ' 6 right

unfoldable pub summary_line : ℕ → ZombieOwner → Text
unfolding services_text
summary_line width o =
    columns width (o.exe_name << codes " (" << decimal o.pid << codes ")")
      (decimal (length o.zombie_owning_info))
    << services_text (codes "     ") o.service_list
    << end_line

unfoldable pub summary_lines : ℕ → List ZombieOwner → Text
unfolding summary_line
summary_lines width [] = []
summary_lines width (o ∷ coll) = summary_line width o << summary_lines width coll

unfoldable pub output_summary : List ZombieOwner → ZombieOwners → Text
unfolding longest_name summary_lines error_lines
output_summary coll z =
    let width = longest_name coll 0 + 10 in
    columns width (codes "Exe name (PID)") (codes "Count")
    << codes "     Services"
    << end_line
    << columns width (codes "--------------") (codes "-----")
    << codes "     --------"
    << end_line
    << summary_lines width coll
    << unless_empty z.unexplained
        (columns width (codes "(No process)") (decimal (length z.unexplained)) << end_line)
    << unless_empty z.process_enum_errors (error_lines z.process_enum_errors)
