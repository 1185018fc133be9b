-- ===== src/Outputs/Tables.antt =====
-- The two tab-delimited formats as tables.
use zombie_finder.Base.{ℕ, true, false, some, List, [], ◌∷◌, ◌++◌, map, length, replicate, ◌-◌}
use zombie_finder.Base.Text.{Text, codes, decimal, ◌<<◌}
use zombie_finder.Hex.{hex}
use zombie_finder.Outputs.{services_text, seconds_ago, parent_text}
use zombie_finder.Outputs.DetailsCsv.{tid_text, threads_text}
use zombie_finder.Processes.Ago.{ago}
use zombie_finder.Strings.Times.{TimeCalls, file_time_to_w_string}
use zombie_finder.ZombieInfo.{ZombieProcessThreadInfo}
use zombie_finder.ZombieOwners.{ZombieOwner, ZombieOwningInfo}
use zombie_finder.ZombieOwners.Object.{ZombieOwners}

-- The rows of the tables.
abbrev pub summary_fields : ZombieOwner → List Text
summary_fields o =
    o.exe_name
    ∷ decimal o.pid
    ∷ decimal (length o.zombie_owning_info)
    ∷ services_text [] o.service_list
    ∷ []

abbrev pub details_fields : TimeCalls → ℕ → ZombieOwner → ZombieOwningInfo → List Text
details_fields calls now o info =
    let z = info.zombie_info in
    o.exe_name
    ∷ decimal o.pid
    ∷ o.process_image_path
    ∷ services_text [] o.service_list
    ∷ hex 8 info.handle_value 8 false true
    ∷ decimal z.pid
    ∷ tid_text z
    ∷ z.image_path
    ∷ threads_text z
    ∷ file_time_to_w_string calls z.create_time false (some [])
    ∷ file_time_to_w_string calls z.exit_time false (some [])
    ∷ ago (seconds_ago now z.exit_time)
    ∷ decimal z.parent_pid
    ∷ parent_text z.parent_image_path
    ∷ []

abbrev pub unexplained_fields : TimeCalls → ℕ → ZombieProcessThreadInfo → List Text
unexplained_fields calls now z =
    []
    ∷ []
    ∷ []
    ∷ []
    ∷ []
    ∷ decimal z.pid
    ∷ []
    ∷ z.image_path
    ∷ decimal z.n_threads
    ∷ file_time_to_w_string calls z.create_time false (some [])
    ∷ file_time_to_w_string calls z.exit_time false (some [])
    ∷ ago (seconds_ago now z.exit_time)
    ∷ decimal z.parent_pid
    ∷ parent_text z.parent_image_path
    ∷ []

-- A row that starts with these fields and goes on with empty ones.
abbrev pub error_fields : ℕ → List Text → List Text
error_fields n fields = fields ++ replicate (n - length fields) []

abbrev pub summary_heading : List Text
summary_heading = codes "Exe name" ∷ codes "PID" ∷ codes "Count" ∷ codes "Services" ∷ []

abbrev pub details_columns : List Text
details_columns =
    codes "Owning process name"
    ∷ codes "Owning PID"
    ∷ codes "Owning process image path"
    ∷ codes "Services"
    ∷ codes "Handle"
    ∷ codes "Z PID"
    ∷ codes "Z TID"
    ∷ codes "Zombie image path"
    ∷ codes "Threads"
    ∷ codes "Started"
    ∷ codes "Exited"
    ∷ codes "Exited ago"
    ∷ codes "PPID"
    ∷ codes "Parent image path"
    ∷ []

abbrev pub no_process_rows : List ZombieProcessThreadInfo → List (List Text)
no_process_rows [] = []
no_process_rows (z ∷ zombies) =
    (codes "(No process)" ∷ [] ∷ decimal (length (z ∷ zombies)) ∷ [] ∷ []) ∷ []

-- The rows below the heading: one for each owner, one with the number of unexplained zombies if there
-- are any, one for each error.
abbrev pub summary_table : List ZombieOwner → ZombieOwners → List (List Text)
summary_table coll z =
    map summary_fields coll
    ++ (no_process_rows z.unexplained
        ++ map (λ e. error_fields 4 ((codes "ERROR: " << e) ∷ [])) z.process_enum_errors)

abbrev pub owner_table : TimeCalls → ℕ → List ZombieOwner → List (List Text)
owner_table calls now [] = []
owner_table calls now (o ∷ coll) =
    map (details_fields calls now o) o.zombie_owning_info ++ owner_table calls now coll

-- One row for each handle of each owner, each unexplained zombie and each error.
abbrev pub details_table : TimeCalls → List ZombieOwner → ZombieOwners → ℕ → List (List Text)
details_table calls coll z now =
    owner_table calls now coll
    ++ (map (unexplained_fields calls now) z.unexplained
        ++ map (λ e. error_fields 14 (codes "ERROR" ∷ codes "ERROR" ∷ e ∷ []))
            z.process_enum_errors)
