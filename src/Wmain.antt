-- ===== src/Wmain.antt =====
-- `wmain` and `Usage` (ZombieFinder.cpp): what a run prints and how it ends.
pub mod Usage
pub mod Ending
pub mod Diagnosing
pub mod Defined
pub mod Printed
pub mod Reporting
use zombie_finder.Base.{
  ℕ, Bool, true, false, not, ltb, if◌then◌else◌, Option, none, some, List, [], ◌∷◌, length,
}
use zombie_finder.Base.Text.{Text, codes, ◌<<◌}
use zombie_finder.CommandLine.{Options, Parsed, usage, parsed, command_line}
use zombie_finder.ErrorText.{FormatMessage}
use zombie_finder.FileOutput.{FileCalls, FileStream, create_file_output}
use zombie_finder.FullThreadReport.{ReportCalls, full_thread_report}
use zombie_finder.Outputs.{end_line}
use zombie_finder.Outputs.Details.{output_details}
use zombie_finder.Outputs.DetailsCsv.{output_details_csv}
use zombie_finder.Outputs.Summary.{output_summary}
use zombie_finder.Outputs.SummaryCsv.{output_summary_csv}
use zombie_finder.Services.{no_services}
use zombie_finder.Strings.Times.{TimeCalls, SystemTime}
use zombie_finder.Wmain.Usage.{usage_screen}
use zombie_finder.ZombieOwners.{ZombieOwner}
use zombie_finder.ZombieOwners.Diagnostics.{Diagnosed, DumpCalls, update_owners_in}
use zombie_finder.ZombieOwners.Update.{
  UpdateCalls, Surroundings, Outcome, unfinished, undefined_behaviour, done, update_owners,
}
use zombie_finder.ZombieOwners.Object.{ZombieOwners, load_all}

-- The codes 0, -1 and -2.
pub data ExitCode : Type 0 where
  exit_success exit_failure exit_wrong_version : ExitCode

-- What a run has written to the two standard streams, to the output file and for diagnostics, and how
-- it ended.
pub record Run : Type 0 where
  pub exit_code : ExitCode
  pub output : Text
  pub errors : Text
  pub file : Option (FileStream × Text)
  pub diagnosed : Option Diagnosed

-- `no_end` and `undefined` are the outcomes of `ZombieOwners::Update`.
pub data Ended : Type 0 where
  no_end undefined : Ended
  ended : Run → Ended

-- What the system answers.
pub record MainCalls : Type 0 where
  -- `IsWow64Process` succeeds and tells of a 32-bit process.
  pub wow64 : Bool
  -- Both calls of `_setmode` succeed.
  pub utf8_modes : Bool
  pub is_directory : Text → Bool
  pub file : FileCalls
  pub report : ReportCalls
  -- `GetSystemTimeAsFileTime`.
  pub now : ℕ
  pub times : TimeCalls
  pub update : UpdateCalls
  pub pointer_text : ℕ → Text
  -- What `FileTimeToSystemTime` makes of the time for the names of the diagnostic files.
  pub diagnostic_time : SystemTime

-- A `ZombieOwners` that was just made.
abbrev pub new_owners : ZombieOwners
new_owners = record {
  owners = [];
  epoch = 0;
  owners_sorted = [];
  unexplained = [];
  process_enum_errors = [];
  n_zombie_processes_and_threads = 0;
  n_zombie_processes = 0;
  n_total_processes = 0;
}

abbrev pub at_start : Surroundings
at_start = record { services = no_services; handles = []; heap = []; impersonating = false }

-- The end of a run that has written `text` to the stream of the results.
abbrev pub end_run : Option FileStream → ExitCode → Text → Text → Option Diagnosed → Ended
end_run none code text errors dumps =
    ended
      (record { exit_code = code; output = text; errors = errors; file = none; diagnosed = dumps })
end_run (some f) code text errors dumps = ended (record {
  exit_code = code;
  output = [];
  errors = errors;
  file = some (f, text);
  diagnosed = dumps;
})

-- Which of the four functions writes the results.
unfoldable pub results : Options → TimeCalls → List ZombieOwner → ZombieOwners → ℕ → Text
results o times coll z now =
    if not o.details
    then if not o.csv then output_summary coll z else output_summary_csv coll z
    else if not o.csv
    then output_details times coll z now
    else output_details_csv times coll z now

-- What follows `zombieOwners.Update`.
unfoldable pub write_results :
    MainCalls → Options → Option FileStream → Text → Outcome × Option Diagnosed → Ended
unfolding results
write_results c o stream errors (unfinished, dumps) = no_end
write_results c o stream errors (undefined_behaviour, dumps) = undefined
write_results c o stream errors (done r, dumps) =
    if r.success
    then elim (load_all r.object r.object.owners_sorted) [
      | none ↦ undefined
      | some coll ↦ end_run stream exit_success (results o c.times coll r.object c.now) errors dumps
    ]
    else end_run stream exit_failure [] (errors << codes "Error: " << r.error_info << end_line)
        dumps

abbrev pub dump_calls : MainCalls → DumpCalls
dump_calls c = record {
  file = c.file;
  times = c.times;
  pointer_text = c.pointer_text;
  now = c.diagnostic_time;
}

unfoldable pub report_zombies :
    FormatMessage → MainCalls → Options → Option FileStream → Text → Ended
unfolding write_results update_owners_in
report_zombies format_message c o stream errors = write_results c o stream errors (
    update_owners_in format_message c.update (dump_calls c) o.exit_age_in_secs o.diag_directory
      new_owners at_start)

unfoldable pub report_threads : FormatMessage → MainCalls → Option FileStream → Text → Ended
report_threads format_message c stream errors =
    let (success, s) = full_thread_report format_message c.report [] in
    end_run stream (if success then exit_success else exit_failure) s.output (errors << s.errors)
      none

unfoldable pub run_options : FormatMessage → MainCalls → Options → Option FileStream → Text → Ended
unfolding report_zombies report_threads
run_options format_message c o stream errors =
    if o.threads_report
    then report_threads format_message c stream errors
    else report_zombies format_message c o stream errors

-- `Usage`, behind what has been written to the error stream.
unfoldable pub exit_usage : Text → Text → Option Text → Ended
exit_usage argv0 errors error =
    let line : Text = elim error [ none ↦ [] | some e ↦ e << end_line ] in
    ended (record {
      exit_code = exit_failure;
      output = [];
      errors = errors << line << usage_screen argv0;
      file = none;
      diagnosed = none;
    })

-- What follows the command line: the output file, then the report.
unfoldable pub run_parsed : FormatMessage → MainCalls → Text → Text → Parsed → Ended
unfolding run_options exit_usage
run_parsed format_message c argv0 errors (usage e) = exit_usage argv0 errors e
run_parsed format_message c argv0 errors (parsed o) =
    if o.out_to_file
    then elim (create_file_output c.file o.out_file false) [
      | none ↦
          exit_usage argv0 (errors << codes "Cannot open output file " << o.out_file << end_line)
            none
      | some f ↦ run_options format_message c o (some f) errors
    ]
    else run_options format_message c o none errors

-- The error that does not end the program.
abbrev pub mode_error : MainCalls → Text
mode_error c =
    if c.utf8_modes then [] else codes "Unable to set stdout and/or stderr modes to UTF8.\n"

unfoldable pub wmain : FormatMessage → MainCalls → Text → List Text → Ended
unfolding run_parsed
wmain format_message c argv0 args =
    if c.wow64
    then ended (record {
      exit_code = exit_wrong_version;
      output = [];
      errors =
          codes "Wrong version. You need to run the 64-bit version of this program." << end_line;
      file = none;
      diagnosed = none;
    })
    else run_parsed format_message c argv0 (mode_error c) (command_line c.is_directory args)
