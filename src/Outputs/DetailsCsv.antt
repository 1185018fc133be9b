-- ===== src/Outputs/DetailsCsv.antt =====
-- `OutputDetailsCsv` (ZombieFinder.cpp).
use zombie_finder.Base.{ℕ, ◌==◌, not, true, false, some, if◌then◌else◌, List, [], ◌∷◌}
use zombie_finder.Base.Text.{Text, codes, ◌<<◌, decimal}
use zombie_finder.Hex.{hex}
use zombie_finder.Outputs.{
  unless_empty, end_line, tab_delim, services_text, seconds_ago, parent_text,
}
use zombie_finder.Processes.Ago.{ago}
use zombie_finder.Strings.Times.{TimeCalls, file_time_to_w_string}
use zombie_finder.ZombieInfo.{ZombieProcessThreadInfo}
use zombie_finder.ZombieOwners.{ZombieOwner, ZombieOwningInfo}
use zombie_finder.ZombieOwners.Object.{ZombieOwners}

-- `strTID` and `strThreads`.
unfoldable pub tid_text : ZombieProcessThreadInfo → Text
tid_text z = if not (z.tid == 0) then decimal z.tid else []

unfoldable pub threads_text : ZombieProcessThreadInfo → Text
threads_text z = if not (z.tid == 0) then [] else decimal z.n_threads

unfoldable pub details_row : TimeCalls → ℕ → ZombieOwner → ZombieOwningInfo → Text
unfolding services_text tid_text threads_text seconds_ago parent_text
details_row calls now o info =
    let z = info.zombie_info in
    o.exe_name
    << tab_delim
    << decimal o.pid
    << tab_delim
    << o.process_image_path
    << tab_delim
    << services_text [] o.service_list
    << tab_delim
    << hex 8 info.handle_value 8 false true
    << tab_delim
    << decimal z.pid
    << tab_delim
    << tid_text z
    << tab_delim
    << z.image_path
    << tab_delim
    << threads_text z
    << tab_delim
    << file_time_to_w_string calls z.create_time false (some [])
    << tab_delim
    << file_time_to_w_string calls z.exit_time false (some [])
    << tab_delim
    << ago (seconds_ago now z.exit_time)
    << tab_delim
    << decimal z.parent_pid
    << tab_delim
    << parent_text z.parent_image_path
    << end_line

unfoldable pub owner_rows : TimeCalls → ℕ → ZombieOwner → List ZombieOwningInfo → Text
unfolding details_row
owner_rows calls now o [] = []
owner_rows calls now o (info ∷ infos) = details_row calls now o info << owner_rows calls now o infos

unfoldable pub all_owner_rows : TimeCalls → ℕ → List ZombieOwner → Text
unfolding owner_rows
all_owner_rows calls now [] = []
all_owner_rows calls now (o ∷ coll) =
    owner_rows calls now o o.zombie_owning_info << all_owner_rows calls now coll

unfoldable pub unexplained_row : TimeCalls → ℕ → ZombieProcessThreadInfo → Text
unfolding seconds_ago parent_text
unexplained_row calls now z =
    tab_delim
    << tab_delim
    << tab_delim
    << tab_delim
    << tab_delim
    << decimal z.pid
    << tab_delim
    << tab_delim
    << z.image_path
    << tab_delim
    << decimal z.n_threads
    << tab_delim
    << file_time_to_w_string calls z.create_time false (some [])
    << tab_delim
    << file_time_to_w_string calls z.exit_time false (some [])
    << tab_delim
    << ago (seconds_ago now z.exit_time)
    << tab_delim
    << decimal z.parent_pid
    << tab_delim
    << parent_text z.parent_image_path
    << end_line

unfoldable pub unexplained_rows : TimeCalls → ℕ → List ZombieProcessThreadInfo → Text
unfolding unexplained_row
unexplained_rows calls now [] = []
unexplained_rows calls now (z ∷ zombies) =
    unexplained_row calls now z << unexplained_rows calls now zombies

unfoldable pub details_error_rows : List Text → Text
details_error_rows [] = []
details_error_rows (e ∷ errors) =
    codes "ERROR"
    << tab_delim
    << codes "ERROR"
    << tab_delim
    << e
    << tab_delim
    << tab_delim
    << tab_delim
    << tab_delim
    << tab_delim
    << tab_delim
    << tab_delim
    << tab_delim
    << tab_delim
    << tab_delim
    << tab_delim
    << end_line
    << details_error_rows errors

unfoldable pub details_heading : Text
details_heading =
    codes "Owning process name"
    << tab_delim
    << codes "Owning PID"
    << tab_delim
    << codes "Owning process image path"
    << tab_delim
    << codes "Services"
    << tab_delim
    << codes "Handle"
    << tab_delim
    << codes "Z PID"
    << tab_delim
    << codes "Z TID"
    << tab_delim
    << codes "Zombie image path"
    << tab_delim
    << codes "Threads"
    << tab_delim
    << codes "Started"
    << tab_delim
    << codes "Exited"
    << tab_delim
    << codes "Exited ago"
    << tab_delim
    << codes "PPID"
    << tab_delim
    << codes "Parent image path"
    << end_line

unfoldable pub output_details_csv : TimeCalls → List ZombieOwner → ZombieOwners → ℕ → Text
unfolding details_heading all_owner_rows unexplained_rows details_error_rows
output_details_csv calls coll z now =
    details_heading
    << all_owner_rows calls now coll
    << unless_empty z.unexplained (unexplained_rows calls now z.unexplained)
    << unless_empty z.process_enum_errors (details_error_rows z.process_enum_errors)
