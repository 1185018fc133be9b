-- ===== src/Outputs/SummaryCsv.antt =====
-- `OutputSummaryCsv` (ZombieFinder.cpp).
use zombie_finder.Base.{List, [], ◌∷◌, length}
use zombie_finder.Base.Text.{Text, codes, ◌<<◌, decimal}
use zombie_finder.Outputs.{unless_empty, end_line, tab_delim, services_text}
use zombie_finder.ZombieOwners.{ZombieOwner}
use zombie_finder.ZombieOwners.Object.{ZombieOwners}

unfoldable pub summary_row : ZombieOwner → Text
unfolding services_text
summary_row o =
    o.exe_name
    << tab_delim
    << decimal o.pid
    << tab_delim
    << decimal (length o.zombie_owning_info)
    << tab_delim
    << services_text [] o.service_list
    << end_line

unfoldable pub summary_rows : List ZombieOwner → Text
unfolding summary_row
summary_rows [] = []
summary_rows (o ∷ coll) = summary_row o << summary_rows coll

unfoldable pub summary_error_rows : List Text → Text
summary_error_rows [] = []
summary_error_rows (e ∷ errors) =
    codes "ERROR: "
    << e
    << tab_delim
    << tab_delim
    << tab_delim
    << end_line
    << summary_error_rows errors

unfoldable pub output_summary_csv : List ZombieOwner → ZombieOwners → Text
unfolding summary_rows summary_error_rows
output_summary_csv coll z =
    codes "Exe name"
    << tab_delim
    << codes "PID"
    << tab_delim
    << codes "Count"
    << tab_delim
    << codes "Services"
    << end_line
    << summary_rows coll
    << unless_empty z.unexplained (
        codes "(No process)"
        << tab_delim
        << tab_delim
        << decimal (length z.unexplained)
        << tab_delim
        << end_line)
    << unless_empty z.process_enum_errors (summary_error_rows z.process_enum_errors)
