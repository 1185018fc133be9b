-- ===== src/Wmain/Printed.antt =====
-- What a run that succeeds (`wmain`, ZombieFinder.cpp) is to print, and where.
use zombie_finder.Outputs.DetailsCsv.{output_details_csv}
use zombie_finder.Outputs.Details.{output_details}
use zombie_finder.Outputs.SummaryCsv.{output_summary_csv}
use zombie_finder.Outputs.Summary.{output_summary}
use zombie_finder.Strings.Times.{TimeCalls}
use zombie_finder.FileOutput.{FileStream, create_file_output}
use zombie_finder.Base.{
  ℕ, ◌≡◌, refl, true, false, none, some, List, [], Bool-cases, inl, inr, if◌then◌else◌, Option,
  Bool,
}
use zombie_finder.Base.Text.{Text}
use zombie_finder.CommandLine.{Options}
use zombie_finder.Wmain.{MainCalls, exit_success, results, mode_error, end_run, Ended, ended}
use zombie_finder.ZombieOwners.{ZombieOwner}
use zombie_finder.ZombieOwners.Diagnostics.{Diagnosed}
use zombie_finder.ZombieOwners.Object.{ZombieOwners}

-- The stream of the results: the output file if one is asked for and can be opened.
abbrev pub result_stream : MainCalls → Options → Option (Option FileStream)
result_stream c o =
    if o.out_to_file
    then elim (create_file_output c.file o.out_file false) [ none ↦ none | some f ↦ some (some f) ]
    else some none

-- The four formats, by whether the options ask for the details and for tabs.
abbrev pub printed_results :
    (details csv : Bool) → TimeCalls → List ZombieOwner → ZombieOwners → ℕ → Text
printed_results false false times coll z now = output_summary coll z
printed_results false true times coll z now = output_summary_csv coll z
printed_results true false times coll z now = output_details times coll z now
printed_results true true times coll z now = output_details_csv times coll z now

pub results-printed_results :
    (o : Options) (times : TimeCalls) (coll : List ZombieOwner) (z : ZombieOwners) (now : ℕ)
    → results o times coll z now ≡ printed_results o.details o.csv times coll z now
unfolding results
results-printed_results o times coll z now = elim (Bool-cases o.details) [
  | inl d ↦ elim (Bool-cases o.csv) [ inl e ↦ rw (d, e) refl | inr e ↦ rw (d, e) refl ]
  | inr d ↦ elim (Bool-cases o.csv) [ inl e ↦ rw (d, e) refl | inr e ↦ rw (d, e) refl ]
]

-- The end of a run that has written the results to a stream, and perhaps diagnostics.
abbrev pub successful :
    MainCalls
    → Options
    → Option FileStream
    → List ZombieOwner
    → ZombieOwners
    → Option Diagnosed
    → Ended
successful c o stream coll z dumps =
    let text = printed_results o.details o.csv c.times coll z c.now in
    ended (record {
      exit_code = exit_success;
      output = elim stream [ none ↦ text | some f ↦ [] ];
      errors = mode_error c;
      file = elim stream [ none ↦ none | some f ↦ some (f, text) ];
      diagnosed = dumps;
    })

pub end_run-successful :
    (c : MainCalls) (o : Options) (stream : Option FileStream) (coll : List ZombieOwner)
    (z : ZombieOwners) (dumps : Option Diagnosed)
    → end_run stream exit_success
        (printed_results o.details o.csv c.times coll z c.now)
        (mode_error c)
        dumps
      ≡ successful c o stream coll z dumps
end_run-successful c o none coll z dumps = refl
end_run-successful c o (some f) coll z dumps = refl
