-- ===== src/Wmain/Defined.antt =====
-- The reads of a run of the program (`wmain`, ZombieFinder.cpp).
use zombie_finder.FullThreadReport.{full_thread_report}
use zombie_finder.Outputs.{end_line}
use zombie_finder.Base.{
  ℕ, ◌≡◌, ◌≢◌, refl, sym, ◌∙◌, ap, true, false, not, Option, none, some, List, [], inl, inr,
  Bool-cases, Option-cases, if_keeps, if◌then◌else◌, subst, ltb, length,
}
use zombie_finder.Base.Text.{Text, codes, ◌<<◌}
use zombie_finder.AllHandles.{Updated, update, no_handle_table}
use zombie_finder.CommandLine.{Options, Parsed, usage, parsed, command_line}
use zombie_finder.ErrorText.{FormatMessage}
use zombie_finder.FileOutput.{FileStream, create_file_output}
use zombie_finder.SecurityUtils.{enable_privilege}
use zombie_finder.Wmain.{
  MainCalls, Ended, no_end, undefined, ended, end_run, wmain, run_parsed, run_options,
  report_zombies, report_threads, write_results, exit_usage, mode_error, new_owners, at_start,
  dump_calls, ExitCode, exit_success, exit_failure, results,
}
use zombie_finder.Wmain.Diagnosing.{dump_diagnostics-done}
use zombie_finder.ZombieHandles.{acquire_new_handles_to_existing_zombies, no_handles}
use zombie_finder.ZombieOwners.{ZombieOwner}
use zombie_finder.ZombieOwners.Diagnostics.{
  Diagnosed, DumpCalls, dump_diagnostics, diagnose_outcome, update_owners_in,
}
use zombie_finder.ZombieOwners.Update.{
  UpdateCalls, Surroundings, Outcome, done, unfinished, undefined_behaviour, update_impl,
  update_owners, revert_to_self, with_table,
}
use zombie_finder.ZombieOwners.Object.{ZombieOwners, load_all}
use zombie_finder.ZombieOwners.Update.Report.{table-Holds}
use zombie_finder.ZombieOwners.Update.Success.{update_impl-IsReport}

-- The outcome is defined, and where it is a success, the query for the table was one and the sorted
-- pointers do not dangle.
abbrev Defined : Option Updated → Outcome → Type 0
Defined table unfinished = Unit
Defined table undefined_behaviour = ⊥
Defined table (done r) =
    r.success ≡ true
    → (u : Updated) × (coll : List ZombieOwner) × (table ≡ some u)
      × (u.success ≡ true)
      × (load_all r.object r.object.owners_sorted ≡ some coll)

abbrev IsDefined : Ended → Type 0
IsDefined no_end = Unit
IsDefined undefined = ⊥
IsDefined (ended r) = Unit

no_success : {A : Type 0} → false ≡ true → A
no_success e = cc

revert-Defined :
    (table : Option Updated) (outcome : Outcome)
    → Defined table outcome
    → Defined table (revert_to_self outcome)
unfolding revert_to_self
revert-Defined table unfinished h = tt
revert-Defined table undefined_behaviour h = h
revert-Defined table (done r) h = h

module _ (format_message : FormatMessage) (c : UpdateCalls) (age : ℕ) where
  update_impl-Defined :
      (z : ZombieOwners) (world : Surroundings)
      → z.owners_sorted ≡ []
      → Defined
          (update format_message c.system no_handle_table world.heap)
          (update_impl format_message c age z world)
  unfolding update_impl
  update_impl-Defined z world none_yet =
      let table = update format_message c.system no_handle_table world.heap in
      let a =
        acquire_new_handles_to_existing_zombies format_message c.enumeration age no_handles
          world.handles in
      elim (Bool-cases a.success) [
        | inr e ↦ rw (e, update_impl) no_success
        | inl e ↦ elim (Option-cases table) [
          | inl n ↦ rw (e, n, update_impl) tt
          | inr (u, n) ↦ elim (Bool-cases u.success) [
            | inr failed ↦ rw (e, n, failed, update_impl, with_table) no_success
            | inl ok ↦
                let (r, q, is, success, among, right) =
                  update_impl-IsReport format_message c age z world u none_yet e n ok in
                subst (Defined table) (sym is)
                  (λ s. (u, right.sorted_view.view, n, ok, right.sorted_view.loads))
          ]
        ]
      ]

  update_owners-Defined :
      (z : ZombieOwners) (world : Surroundings)
      → z.owners_sorted ≡ []
      → Defined
          (update format_message c.system no_handle_table world.heap)
          (update_owners format_message c age z world)
  unfolding update_owners
  update_owners-Defined z world none_yet =
      let table = update format_message c.system no_handle_table world.heap in
      let p = enable_privilege format_message c.privilege [] world.handles in
      let privileged = record world { handles = p.2; impersonating = true } in
      if_keeps (Defined table) (not c.impersonated) no_success (
        if_keeps (Defined table) (not p.0) no_success (
          revert-Defined table (update_impl format_message c age z privileged)
            (update_impl-Defined z privileged none_yet)))

  diagnose_outcome-Defined :
      (d : DumpCalls) (directory : Text) (world : Surroundings) (outcome : Outcome)
      → let table = update format_message c.system no_handle_table world.heap in
        Defined table outcome
        → Defined table (diagnose_outcome format_message c d age directory world outcome).0
  unfolding diagnose_outcome
  diagnose_outcome-Defined d directory world unfinished h = tt
  diagnose_outcome-Defined d directory world undefined_behaviour h = h
  diagnose_outcome-Defined d directory world (done r) h =
      let trace = (enable_privilege format_message c.privilege [] world.handles).2 in
      let table = update format_message c.system no_handle_table world.heap in
      let a =
        acquire_new_handles_to_existing_zombies format_message c.enumeration age no_handles trace in
      elim (Bool-cases r.success) [
        | inr e ↦ rw e no_success
        | inl ok ↦
            let (u, coll, updated, filled, loads) = h ok in
            let (q, among, holds) = table-Holds format_message c world.heap u updated filled in
            let (r', dumps, is, success, object) =
              dump_diagnostics-done c d a.handles directory r u q.entries holds in
            let diagnosed = λ (t : Option Updated). dump_diagnostics c d a.handles directory r t in
            subst (λ (p : Outcome × Option Diagnosed). Defined table p.0)
              (sym (
                ap (λ b. if b then diagnosed table else (done r, none)) ok
                ∙ ap diagnosed updated
                ∙ is))
              (λ s. (
                u,
                coll,
                updated,
                filled,
                subst (λ z. load_all z z.owners_sorted ≡ some coll) (sym object) loads,
              ))
      ]

  update_owners_in-Defined :
      (d : DumpCalls) (directory : Text) (z : ZombieOwners) (world : Surroundings)
      → z.owners_sorted ≡ []
      → Defined
          (update format_message c.system no_handle_table world.heap)
          (update_owners_in format_message c d age directory z world).0
  unfolding update_owners_in
  update_owners_in-Defined d directory z world none_yet =
      let table = update format_message c.system no_handle_table world.heap in
      let outcome = update_owners format_message c age z world in
      let defined = update_owners-Defined z world none_yet in
      if_keeps (λ (p : Outcome × Option Diagnosed). Defined table p.0) (ltb 0 (length directory))
        (diagnose_outcome-Defined d directory world outcome defined) defined

end_run-IsDefined :
    (stream : Option FileStream) (code : ExitCode) (text errors : Text) (dumps : Option Diagnosed)
    → IsDefined (end_run stream code text errors dumps)
end_run-IsDefined none code text errors dumps = tt
end_run-IsDefined (some f) code text errors dumps = tt

write_results-IsDefined :
    (c : MainCalls) (o : Options) (stream : Option FileStream) (errors : Text)
    (table : Option Updated) (outcome : Outcome) (dumps : Option Diagnosed)
    → Defined table outcome
    → IsDefined (write_results c o stream errors (outcome, dumps))
unfolding write_results
write_results-IsDefined c o stream errors table unfinished dumps h = tt
write_results-IsDefined c o stream errors table undefined_behaviour dumps h = h
write_results-IsDefined c o stream errors table (done r) dumps h = elim (Bool-cases r.success) [
  | inr e ↦ rw e (
      end_run-IsDefined stream exit_failure []
        (errors << codes "Error: " << r.error_info << end_line) dumps)
  | inl ok ↦
      let (u, coll, updated, filled, loads) = h ok in
      rw (ok, loads)
        (end_run-IsDefined stream exit_success (results o c.times coll r.object c.now) errors dumps)
]

module _ (format_message : FormatMessage) (c : MainCalls) where
  run_options-IsDefined :
      (o : Options) (stream : Option FileStream) (errors : Text)
      → IsDefined (run_options format_message c o stream errors)
  unfolding run_options report_threads report_zombies
  run_options-IsDefined o stream errors =
      let (success, s) = full_thread_report format_message c.report [] in
      let (outcome, dumps) =
        update_owners_in format_message c.update (dump_calls c) o.exit_age_in_secs o.diag_directory
          new_owners at_start in
      if_keeps IsDefined o.threads_report
        (end_run-IsDefined stream (if success then exit_success else exit_failure) s.output
          (errors << s.errors) none)
        (write_results-IsDefined c o stream errors
          (update format_message c.update.system no_handle_table []) outcome dumps
          (update_owners_in-Defined format_message c.update o.exit_age_in_secs (dump_calls c)
            o.diag_directory new_owners at_start refl))

  run_parsed-IsDefined :
      (argv0 errors : Text) (p : Parsed) → IsDefined (run_parsed format_message c argv0 errors p)
  unfolding run_parsed exit_usage
  run_parsed-IsDefined argv0 errors (usage e) = tt
  run_parsed-IsDefined argv0 errors (parsed o) =
      if_keeps IsDefined o.out_to_file
        (elim (Option-cases (create_file_output c.file o.out_file false)) [
          | inl e ↦ rw e tt
          | inr (f, e) ↦ rw e (run_options-IsDefined o (some f) errors)
        ])
        (run_options-IsDefined o none errors)

-- Whatever the system answers and whatever the arguments are, no run of the program ends in
-- undefined behaviour: it reads no entry of the handle table that was never written, and it follows
-- no pointer to an owner that is no longer there.
pub wmain-ne-undefined :
    (format_message : FormatMessage) (c : MainCalls) (argv0 : Text) (args : List Text)
    → wmain format_message c argv0 args ≢ undefined
unfolding wmain
wmain-ne-undefined format_message c argv0 args is = subst IsDefined is (
    if_keeps IsDefined c.wow64 tt (
      run_parsed-IsDefined format_message c argv0 (mode_error c)
        (command_line c.is_directory args)))
