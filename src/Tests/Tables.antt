-- ===== src/Tests/Tables.antt =====
-- Runs of the functions that write the results.
use zombie_finder.Base.{◌≡◌, refl, true, ◌==◌, some, [], ◌∷◌, ◌++◌, length, all}
use zombie_finder.Base.Text.{codes, decimal, pad_left, pad_right, hexadecimal}
use zombie_finder.Outputs.Details.{output_details}
use zombie_finder.Outputs.DetailsCsv.{output_details_csv}
use zombie_finder.Outputs.Reread.{
  plain_results, read_table-output_summary_csv, read_table-output_details_csv,
}
use zombie_finder.Outputs.Rows.{read_table}
use zombie_finder.Outputs.Summary.{output_summary}
use zombie_finder.Outputs.SummaryCsv.{output_summary_csv}
use zombie_finder.Outputs.Tables.{summary_heading, summary_table, details_columns, details_table}
use zombie_finder.Processes.Ago.{ago}
use zombie_finder.Strings.Times.{file_time_to_w_string}
use zombie_finder.Hex.{hex}
use zombie_finder.Tests.Scenario.{never_updated, times, times_plain}
use zombie_finder.ZombieInfo.{ZombieProcessThreadInfo}
use zombie_finder.ZombieOwners.{ZombieOwner}
use zombie_finder.ZombieOwners.Object.{ZombieOwners}

abbrev zombie : ZombieProcessThreadInfo
zombie = record {
  pid = 40;
  tid = 44;
  image_path = codes "a.exe";
  create_time = 10;
  exit_time = 20;
  n_threads = 0;
  parent_pid = 4;
  parent_image_path = [];
}

abbrev owner : ZombieOwner
owner = record {
  pid = 8;
  process_image_path = codes "C:\\c.exe";
  exe_name = codes "c.exe";
  service_list = some (record { service_name = codes "b"; display_name = codes "B" } ∷ []);
  zombie_owning_info = record { handle_value = 16; zombie_info = zombie } ∷ [];
}

abbrev found : ZombieOwners
found = record never_updated {
  unexplained = record zombie { tid = 0 } ∷ [];
  process_enum_errors = codes "Denied." ∷ [];
  n_zombie_processes = 2;
  n_zombie_processes_and_threads = 3;
}

found_plain : plain_results (owner ∷ []) found ≡ true
found_plain = refl

read_table-output_summary_csv_example :
    (read_table (output_summary_csv (owner ∷ []) found)
      ≡ (summary_heading ∷ summary_table (owner ∷ []) found) ++ [] ∷ [])
    × (all (λ row. length row == 4) (summary_table (owner ∷ []) found) ≡ true)
read_table-output_summary_csv_example = read_table-output_summary_csv (owner ∷ []) found found_plain

read_table-output_details_csv_example :
    (read_table (output_details_csv times (owner ∷ []) found 100)
      ≡ (details_columns ∷ details_table times (owner ∷ []) found 100) ++ [] ∷ [])
    × (all (λ row. length row == 14) (details_table times (owner ∷ []) found 100) ≡ true)
read_table-output_details_csv_example =
    read_table-output_details_csv times (owner ∷ []) found 100 times_plain found_plain

summary :
    output_summary (owner ∷ []) found
    ≡ codes "Exe name (PID)  Count     Services\n"
      ++ codes "--------------  -----     --------\n"
      ++ codes "c.exe (8)           1     b \n"
      ++ codes "(No process)        1\n"
      ++ codes "ERROR: Denied.\n"
unfolding output_summary decimal pad_left pad_right
summary = refl

details :
    output_details times (owner ∷ []) found 30000020
    ≡ codes "Zombie processes: 2\nZombie threads  : 1\n\n"
      ++ codes "c.exe (8) | Full path: C:\\c.exe | Service(s): b \n1 zombie handle(s):\n"
      ++ codes "    Handle 0000000000000010  PID:TID 40:44  a.exe ; exited 2024-02-29 23:59:09: "
      ++ codes "3 secs ago\n        Parent: 4 (exited)\n\n"
      ++ codes "Zombie processes for which no handles were found:\n1 process(es):\n"
      ++ codes "    PID 40  a.exe\n      Exited 2024-02-29 23:59:09: 3 secs ago\n"
      ++ codes "      Threads: 0\n      Parent: 4 (exited)\nERROR: Denied.\n"
unfolding output_details decimal pad_left hex hexadecimal ago file_time_to_w_string
details = refl
