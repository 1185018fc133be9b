-- ===== src/Wmain/Ending.antt =====
-- The runs of the program that fail.
use zombie_finder.Base.{
  ◌≡◌, ◌≢◌, refl, subst, true, false, ◌++◌, Option, none, some, List, [], ◌∷◌, Bool-cases,
  Option-cases, inl, inr, ◌⊎◌,
}
use zombie_finder.Base.Text.{Text, codes, ◌<<◌}
use zombie_finder.CommandLine.{Options, Parsed, usage, parsed, command_line}
use zombie_finder.ErrorText.{FormatMessage}
use zombie_finder.FileOutput.{FileStream, create_file_output}
use zombie_finder.FullThreadReport.{full_thread_report, ReportCalls}
use zombie_finder.Outputs.{end_line}
use zombie_finder.Wmain.{
  ExitCode, exit_success, exit_failure, Run, Ended, no_end, undefined, ended, MainCalls, end_run,
  results, write_results, report_zombies, report_threads, run_options, exit_usage, run_parsed,
  mode_error, wmain, new_owners, at_start, dump_calls,
}
use zombie_finder.Wmain.Usage.{usage_screen}
use zombie_finder.ZombieOwners.Diagnostics.{Diagnosed, update_owners_in}
use zombie_finder.ZombieOwners.Update.{Outcome, unfinished, undefined_behaviour, done}
use zombie_finder.ZombieOwners.Object.{load_all}

-- What stands in the output file.
abbrev pub file_text : Option (FileStream × Text) → Text
file_text none = []
file_text (some (f, t)) = t

-- A run that fails prints no results, but an error text.
abbrev IsQuiet : Run → Type 0
IsQuiet r = r.exit_code ≢ exit_success → (r.output ≡ []) × (file_text r.file ≡ []) × (r.errors ≢ [])

abbrev EndsQuiet : Ended → Type 0
EndsQuiet no_end = Unit
EndsQuiet undefined = Unit
EndsQuiet (ended r) = IsQuiet r

append-ne-nil : (s t : Text) → t ≢ [] → s ++ t ≢ []
append-ne-nil [] t h e = h e
append-ne-nil (c ∷ s) t h e = cc

end_run-success :
    (stream : Option FileStream) (text errors : Text) (dumps : Option Diagnosed)
    → EndsQuiet (end_run stream exit_success text errors dumps)
end_run-success none text errors dumps = λ h. absurd (h refl)
end_run-success (some f) text errors dumps = λ h. absurd (h refl)

end_run-failure :
    (stream : Option FileStream) (code : ExitCode) (errors : Text) (dumps : Option Diagnosed)
    → errors ≢ []
    → EndsQuiet (end_run stream code [] errors dumps)
end_run-failure none code errors dumps ne = λ h. (refl, refl, ne)
end_run-failure (some f) code errors dumps ne = λ h. (refl, refl, ne)

error_line : (errors info : Text) → (errors << codes "Error: " << info << end_line) ≢ []
error_line errors info = append-ne-nil errors (codes "Error: " << info << end_line) (λ e. cc)

-- A report on the threads that fails has printed an error only.
thread_report_fails :
    (format_message : FormatMessage) (c : ReportCalls)
    → (full_thread_report format_message c []).0 ≡ false
    → ((full_thread_report format_message c []).1.output ≡ [])
      × ((full_thread_report format_message c []).1.errors ≢ [])
unfolding full_thread_report
thread_report_fails format_message c h = elim (Bool-cases c.ntdll_found) [
  | inr e ↦ rw e (refl, λ z. cc)
  | inl e ↦ elim (Bool-cases c.functions_found) [
    | inr e2 ↦ rw (e, e2) (refl, λ z. cc)
    | inl e2 ↦ cc
  ]
]

module _ (format_message : FormatMessage) (c : MainCalls) (o : Options) where
  write_results-EndsQuiet :
      (stream : Option FileStream) (errors : Text) (outcome : Outcome) (dumps : Option Diagnosed)
      → EndsQuiet (write_results c o stream errors (outcome, dumps))
  unfolding write_results
  write_results-EndsQuiet stream errors unfinished dumps = tt
  write_results-EndsQuiet stream errors undefined_behaviour dumps = tt
  write_results-EndsQuiet stream errors (done r) dumps = elim (Bool-cases r.success) [
    | inr e ↦ rw e (
        end_run-failure stream exit_failure (errors << codes "Error: " << r.error_info << end_line)
          dumps (error_line errors r.error_info))
    | inl e ↦ elim (Option-cases (load_all r.object r.object.owners_sorted)) [
      | inl e2 ↦ rw (e, e2) tt
      | inr (coll, e2) ↦
          rw (e, e2) (end_run-success stream (results o c.times coll r.object c.now) errors dumps)
    ]
  ]

  report_zombies-EndsQuiet :
      (stream : Option FileStream) (errors : Text)
      → EndsQuiet (report_zombies format_message c o stream errors)
  unfolding report_zombies
  report_zombies-EndsQuiet stream errors =
      let updated =
        update_owners_in format_message c.update (dump_calls c) o.exit_age_in_secs o.diag_directory
          new_owners at_start in
      write_results-EndsQuiet stream errors updated.0 updated.1

  report_threads-EndsQuiet :
      (stream : Option FileStream) (errors : Text)
      → EndsQuiet (report_threads format_message c stream errors)
  unfolding report_threads
  report_threads-EndsQuiet stream errors =
      let s = (full_thread_report format_message c.report []).1 in
      elim (Bool-cases (full_thread_report format_message c.report []).0) [
        | inl e ↦ rw e (end_run-success stream s.output (errors << s.errors) none)
        | inr e ↦
            let (quiet, ne) = thread_report_fails format_message c.report e in
            rw (e, quiet)
              (end_run-failure stream exit_failure (errors << s.errors) none
                (append-ne-nil errors s.errors ne))
      ]

  run_options-EndsQuiet :
      (stream : Option FileStream) (errors : Text)
      → EndsQuiet (run_options format_message c o stream errors)
  unfolding run_options
  run_options-EndsQuiet stream errors = elim (Bool-cases o.threads_report) [
    | inl e ↦ rw e (report_threads-EndsQuiet stream errors)
    | inr e ↦ rw e (report_zombies-EndsQuiet stream errors)
  ]

exit_usage-EndsQuiet :
    (argv0 errors : Text) (error : Option Text) → EndsQuiet (exit_usage argv0 errors error)
unfolding exit_usage usage_screen
exit_usage-EndsQuiet argv0 errors none =
    λ h. (refl, refl, append-ne-nil errors (usage_screen argv0) (λ e. cc))
exit_usage-EndsQuiet argv0 errors (some t) = λ h. (
  refl,
  refl,
  append-ne-nil errors ((t << end_line) << usage_screen argv0)
      (append-ne-nil (t << end_line) (usage_screen argv0) (λ e. cc)),
)

run_parsed-EndsQuiet :
    (format_message : FormatMessage) (c : MainCalls) (argv0 errors : Text) (p : Parsed)
    → EndsQuiet (run_parsed format_message c argv0 errors p)
unfolding run_parsed
run_parsed-EndsQuiet format_message c argv0 errors (usage e) = exit_usage-EndsQuiet argv0 errors e
run_parsed-EndsQuiet format_message c argv0 errors (parsed o) = elim (Bool-cases o.out_to_file) [
  | inr e ↦ rw e (run_options-EndsQuiet format_message c o none errors)
  | inl e ↦ elim (Option-cases (create_file_output c.file o.out_file false)) [
    | inl e2 ↦
        rw (e, e2)
          (exit_usage-EndsQuiet argv0
            (errors << codes "Cannot open output file " << o.out_file << end_line) none)
    | inr (f, e2) ↦ rw (e, e2) (run_options-EndsQuiet format_message c o (some f) errors)
  ]
]

-- A run of the program that ends with an exit code other than 0 has printed no results, neither to
-- the standard output nor to the output file, but an error text.
pub wmain-failure :
    (format_message : FormatMessage) (c : MainCalls) (argv0 : Text) (args : List Text) (r : Run)
    → wmain format_message c argv0 args ≡ ended r
    → r.exit_code ≢ exit_success
    → (r.output ≡ []) × (file_text r.file ≡ []) × (r.errors ≢ [])
unfolding wmain
wmain-failure format_message c argv0 args r is =
    let quiet : IsQuiet r = subst EndsQuiet is (ends (Bool-cases c.wow64)) in quiet
  where
    ends : (c.wow64 ≡ true) ⊎ (c.wow64 ≡ false) → EndsQuiet (wmain format_message c argv0 args)
    ends (inl e) = rw e (λ h. (refl, refl, λ z. cc))
    ends (inr e) = rw e (
        run_parsed-EndsQuiet format_message c argv0 (mode_error c)
          (command_line c.is_directory args))
