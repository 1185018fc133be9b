-- ===== src/Tests/Runs.antt =====
-- Runs of the program.
use zombie_finder.Wmain.Defined.{wmain-ne-undefined}
use zombie_finder.Services.{no_services}
use zombie_finder.FileOutput.{create_file_output, FileStream}
use zombie_finder.Base.{◌≡◌, ◌≢◌, refl, true, false, none, some, List, [], ◌∷◌, Among, ◌++◌, Option}
use zombie_finder.Base.Text.{codes, Text}
use zombie_finder.AllHandles.{QueryAnswer}
use zombie_finder.CommandLine.{Options, default_options, command_line, parsed}
use zombie_finder.ErrorText.{sys_error_message_with_code}
use zombie_finder.SecurityUtils.{enable_privilege}
use zombie_finder.Strings.{wcsicmp, is_path_separator}
use zombie_finder.Tests.Owners.{updated, updated_is}
use zombie_finder.Tests.Scenario.{denied, update_calls, privilege, times, a_time, writable}
use zombie_finder.Wmain.{MainCalls, Run, ended, exit_failure, wmain, undefined}
use zombie_finder.Wmain.Ending.{file_text, wmain-failure}
use zombie_finder.Wmain.Reporting.{IsReady, found_zombies, wmain-prints}
use zombie_finder.Wmain.Printed.{successful, result_stream}
use zombie_finder.ZombieHandles.{acquire_new_handles_to_existing_zombies}
use zombie_finder.ZombieOwners.{ZombieOwner}
use zombie_finder.ZombieOwners.Diagnostics.{update_owners_in, Diagnosed}
use zombie_finder.ZombieOwners.Update.{update_owners, privilege_error}
use zombie_finder.ZombieOwners.Object.{ZombieOwners, load_all}
use zombie_finder.ZombieOwners.Update.Described.{IsReport}

abbrev calls : MainCalls
calls = record {
  wow64 = false;
  utf8_modes = true;
  is_directory = λ path. true;
  file = writable;
  report = record {
    ntdll_found = true;
    functions_found = true;
    processes = [];
    end_status = 0x8000001a;
  };
  now = 1000000000;
  times = times;
  update = update_calls;
  pointer_text = λ object. [];
  diagnostic_time = a_time;
}

abbrev csv : Options
csv = record default_options {
  csv = true;
  out_to_file = true;
  out_file = codes "o.txt";
  diag_directory = codes "D:";
}

abbrev arguments : List Text
arguments = codes "-csv" ∷ codes "-out" ∷ codes "o.txt" ∷ codes "-diag" ∷ codes "D:" ∷ []

csv_given : command_line calls.is_directory arguments ≡ parsed csv
unfolding command_line wcsicmp is_path_separator
csv_given = refl

abbrev stream : Option FileStream
stream = some (record { append = false; generate_header = true })

csv_opens : result_stream calls csv ≡ some stream
unfolding create_file_output
csv_opens = refl

ready : IsReady denied update_calls 3 updated
unfolding enable_privilege acquire_new_handles_to_existing_zombies
ready = record {
  impersonates = refl;
  has_privilege = refl;
  enumerates = refl;
  queries = updated_is;
  has_table = refl;
}

wmain-prints_example :
    (coll : List ZombieOwner) × (z : ZombieOwners) × (dumps : Option Diagnosed) × (q : QueryAnswer)
    × (wmain denied calls (codes "zf.exe") arguments ≡ successful calls csv stream coll z dumps)
    × (load_all z z.owners_sorted ≡ some coll)
    × Among q calls.update.system.rounds
    × IsReport denied calls.update no_services
        (found_zombies denied calls.update csv.exit_age_in_secs)
        q.entries
        z
wmain-prints_example =
    wmain-prints denied calls (codes "zf.exe") arguments csv stream updated refl csv_given refl
      csv_opens ready

-- AdjustTokenPrivileges leaves ERROR_NOT_ALL_ASSIGNED.
abbrev unprivileged : MainCalls
unprivileged = record calls {
  update = record update_calls { privilege = record privilege { adjust_error = 1300 } };
}

abbrev failed : Run
failed = record {
  exit_code = exit_failure;
  output = [];
  errors =
      codes "Error: "
      ++ (privilege_error (sys_error_message_with_code denied 1300 false) ++ codes "\n");
  file = some (record { append = false; generate_header = true }, []);
  diagnosed = none;
}

run_fails :
    wmain denied unprivileged (codes "zf.exe") (codes "-out" ∷ codes "o.txt" ∷ []) ≡ ended failed
unfolding wmain command_line wcsicmp update_owners_in update_owners enable_privilege
    create_file_output
run_fails = refl

wmain-failure_example : (failed.output ≡ []) × (file_text failed.file ≡ []) × (failed.errors ≢ [])
wmain-failure_example =
    wmain-failure denied unprivileged (codes "zf.exe") (codes "-out" ∷ codes "o.txt" ∷ []) failed
      run_fails (λ e. cc)

wmain-ne-undefined_example : wmain denied calls (codes "zf.exe") arguments ≢ undefined
wmain-ne-undefined_example = wmain-ne-undefined denied calls (codes "zf.exe") arguments
