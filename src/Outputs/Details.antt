-- ===== src/Outputs/Details.antt =====
-- `OutputDetails` (ZombieFinder.cpp).
use zombie_finder.Base.{
  ℕ, ◌+◌, ◌-◌, ◌%◌, ◌^◌, ◌==◌, false, some, if◌then◌else◌, List, [], ◌∷◌, length,
}
use zombie_finder.Base.Text.{Text, codes, ◌<<◌, decimal, pad_left}
use zombie_finder.Hex.{hex}
use zombie_finder.Outputs.{
  unless_empty, end_line, services_text, seconds_ago, parent_text, error_lines,
}
use zombie_finder.Processes.Ago.{ago}
use zombie_finder.Strings.Times.{TimeCalls, file_time_to_w_string}
use zombie_finder.ZombieInfo.{ZombieProcessThreadInfo}
use zombie_finder.ZombieOwners.{ZombieOwner, ZombieOwningInfo}
use zombie_finder.ZombieOwners.Object.{ZombieOwners}

-- The time of the exit, and how long ago that was.
unfoldable pub exit_text : TimeCalls → ℕ → ZombieProcessThreadInfo → Text
unfolding seconds_ago
exit_text calls now z =
    file_time_to_w_string calls z.exit_time false (some [])
    << codes ": "
    << ago (seconds_ago now z.exit_time)
    << codes " ago"
    << end_line

unfoldable pub handle_lines : TimeCalls → ℕ → ZombieOwningInfo → Text
unfolding exit_text parent_text
handle_lines calls now info =
    let z = info.zombie_info in
    (if z.tid == 0
      then codes "    Handle "
        << hex 8 info.handle_value 16 false false
        << codes "  PID "
        << pad_left b' ' 6 (decimal z.pid)
        << codes "  "
        << z.image_path
        << codes " ; exited "
        << exit_text calls now z
      else codes "    Handle "
        << hex 8 info.handle_value 16 false false
        << codes "  PID:TID "
        << decimal z.pid
        << codes ":"
        << decimal z.tid
        << codes "  "
        << z.image_path
        << codes " ; exited "
        << exit_text calls now z)
    << codes "        Parent: "
    << decimal z.parent_pid
    << codes " "
    << parent_text z.parent_image_path
    << end_line

unfoldable pub all_handle_lines : TimeCalls → ℕ → List ZombieOwningInfo → Text
unfolding handle_lines
all_handle_lines calls now [] = []
all_handle_lines calls now (info ∷ infos) =
    handle_lines calls now info << all_handle_lines calls now infos

unfoldable pub owner_lines : TimeCalls → ℕ → ZombieOwner → Text
unfolding services_text all_handle_lines
owner_lines calls now o =
    o.exe_name
    << codes " ("
    << decimal o.pid
    << codes ") | Full path: "
    << o.process_image_path
    << services_text (codes " | Service(s): ") o.service_list
    << end_line
    << decimal (length o.zombie_owning_info)
    << codes " zombie handle(s):"
    << end_line
    << all_handle_lines calls now o.zombie_owning_info
    << end_line

unfoldable pub all_owner_lines : TimeCalls → ℕ → List ZombieOwner → Text
unfolding owner_lines
all_owner_lines calls now [] = []
all_owner_lines calls now (o ∷ coll) = owner_lines calls now o << all_owner_lines calls now coll

unfoldable pub unexplained_lines : TimeCalls → ℕ → List ZombieProcessThreadInfo → Text
unfolding exit_text parent_text
unexplained_lines calls now [] = []
unexplained_lines calls now (z ∷ zombies) =
    codes "    PID "
    << decimal z.pid
    << codes "  "
    << z.image_path
    << end_line
    << codes "      Exited "
    << exit_text calls now z
    << codes "      Threads: "
    << decimal z.n_threads
    << end_line
    << codes "      Parent: "
    << decimal z.parent_pid
    << codes " "
    << parent_text z.parent_image_path
    << end_line
    << unexplained_lines calls now zombies

-- The difference of the counts is one of unsigned 64-bit numbers.
unfoldable pub output_details : TimeCalls → List ZombieOwner → ZombieOwners → ℕ → Text
unfolding all_owner_lines unexplained_lines error_lines
output_details calls coll z now =
    codes "Zombie processes: "
    << decimal z.n_zombie_processes
    << end_line
    << codes "Zombie threads  : "
    << decimal
        ((z.n_zombie_processes_and_threads + (2 ^ 64 - z.n_zombie_processes % 2 ^ 64)) % 2 ^ 64)
    << end_line
    << end_line
    << all_owner_lines calls now coll
    << unless_empty z.unexplained (
        codes "Zombie processes for which no handles were found:"
        << end_line
        << decimal (length z.unexplained)
        << codes " process(es):"
        << end_line
        << unexplained_lines calls now z.unexplained)
    << unless_empty z.process_enum_errors (error_lines z.process_enum_errors)
