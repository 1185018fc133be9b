-- ===== src/Wmain/Reporting.antt =====
-- The runs of the program that print results.
use zombie_finder.Services.{no_services}
use zombie_finder.ZombieOwners.Update.Report.{table-Holds}
use zombie_finder.Wmain.Diagnosing.{update_owners_in-done}
use zombie_finder.FileOutput.{FileStream, create_file_output}
use zombie_finder.Base.{
  ℕ, ◌≡◌, refl, ◌∙◌, true, false, none, some, List, [], Among, ap, Bool-cases, Option-cases, inl,
  inr, Option, subst, sym,
}
use zombie_finder.Base.Text.{Text}
use zombie_finder.AllHandles.{Updated, QueryAnswer, update, no_handle_table}
use zombie_finder.CommandLine.{Options, parsed, command_line}
use zombie_finder.ErrorText.{FormatMessage}
use zombie_finder.Handles.{Trace}
use zombie_finder.SecurityUtils.{enable_privilege}
use zombie_finder.Wmain.Printed.{
  result_stream, printed_results, results-printed_results, successful, end_run-successful,
}
use zombie_finder.Wmain.{
  MainCalls, exit_success, wmain, run_parsed, run_options, report_zombies, write_results,
  mode_error, new_owners, at_start, end_run, dump_calls,
}
use zombie_finder.ZombieHandles.{Acquired, acquire_new_handles_to_existing_zombies, no_handles}
use zombie_finder.ZombieOwners.{ZombieOwner}
use zombie_finder.ZombieOwners.Diagnostics.{update_owners_in, Diagnosed}
use zombie_finder.ZombieOwners.Update.{
  UpdateCalls, UpdateResult, update_owners, update_impl, done, revert_to_self,
}
use zombie_finder.ZombieOwners.Object.{ZombieOwners, load_all}
use zombie_finder.ZombieOwners.Update.Described.{IsReport}
use zombie_finder.ZombieOwners.Update.Success.{update_impl-IsReport}

-- The traces when the zombies are looked for, and what is found then.
abbrev pub privileged_trace : FormatMessage → UpdateCalls → Trace
privileged_trace format_message c = (enable_privilege format_message c.privilege [] []).2

abbrev pub found_zombies : FormatMessage → UpdateCalls → ℕ → Acquired
found_zombies format_message c age =
    acquire_new_handles_to_existing_zombies format_message c.enumeration age no_handles
      (privileged_trace format_message c)

-- What a call of `Update` needs to succeed: the thread's token with the privilege, the enumeration of
-- the processes, and the query for the handle table.
pub record IsReady (format_message : FormatMessage) (c : UpdateCalls) (age : ℕ) (u : Updated)
    : Type 0 where
  pub impersonates : c.impersonated ≡ true
  pub has_privilege : (enable_privilege format_message c.privilege [] []).0 ≡ true
  pub enumerates : (found_zombies format_message c age).success ≡ true
  pub queries : update format_message c.system no_handle_table [] ≡ some u
  pub has_table : u.success ≡ true

update_owners-done :
    (format_message : FormatMessage) (c : UpdateCalls) (age : ℕ) (u : Updated)
    → IsReady format_message c age u
    → (r : UpdateResult) × (q : QueryAnswer) × (update_owners format_message c age new_owners
          at_start
        ≡ done r)
      × (r.success ≡ true)
      × Among q c.system.rounds
      × IsReport format_message c no_services
          (found_zombies format_message c age)
          q.entries
          r.object
unfolding update_owners revert_to_self
update_owners-done format_message c age u h =
    let privileged = record at_start {
      handles = privileged_trace format_message c;
      impersonating = true;
    } in
    let works : update_owners format_message c age new_owners at_start
        ≡ revert_to_self (update_impl format_message c age new_owners privileged) =
      rw (h.impersonates, h.has_privilege) refl in
    let (r, q, is, ok, among, right) =
      update_impl-IsReport format_message c age new_owners privileged u refl h.enumerates h.queries
        h.has_table in
    (
      record r { surroundings = record r.surroundings { impersonating = false } },
      q,
      works ∙ ap revert_to_self is,
      ok,
      among,
      right,
    )

module _ (format_message : FormatMessage) (c : MainCalls) (o : Options) (errors : Text) where
  prints :
      (stream : Option FileStream) (r : UpdateResult) (dumps : Option Diagnosed)
      (coll : List ZombieOwner)
      → r.success ≡ true
      → load_all r.object r.object.owners_sorted ≡ some coll
      → write_results c o stream errors (done r, dumps)
        ≡ end_run stream exit_success
            (printed_results o.details o.csv c.times coll r.object c.now)
            errors
            dumps
  unfolding write_results
  prints stream r dumps coll ok loads =
      rw (ok, loads, results-printed_results o c.times coll r.object c.now) refl

  reports :
      (stream : Option FileStream)
      → o.threads_report ≡ false
      → run_options format_message c o stream errors
        ≡ write_results c o stream errors (
            update_owners_in format_message c.update
              (dump_calls c)
              o.exit_age_in_secs
              o.diag_directory
              new_owners
              at_start)
  unfolding run_options report_zombies
  reports stream zombies = rw zombies refl

  opens :
      (argv0 : Text) (stream : Option FileStream)
      → result_stream c o ≡ some stream
      → run_parsed format_message c argv0 errors (parsed o)
        ≡ run_options format_message c o stream errors
  unfolding run_parsed
  opens argv0 stream h = elim (Bool-cases o.out_to_file) [
    | inr e ↦ rw e (ap (λ s. run_options format_message c o s errors) (injected (rw e at h)))
    | inl e ↦ elim (Option-cases (create_file_output c.file o.out_file false)) [
      | inl e2 ↦ absurd (missing (rw (e, e2) at h))
      | inr (f, e2) ↦
          rw (e, e2)
            (ap (λ s. run_options format_message c o s errors) (injected (rw (e, e2) at h)))
    ]
  ]
    where
      injected : {s t : Option FileStream} → some s ≡ some t → s ≡ t
      injected e = cc

      missing : {s : Option FileStream} → none ≡ some s → ⊥
      missing e = cc

-- A run of the 64-bit program with options that ask for the zombies, with diagnostics or without, whose
-- output file, if any, can be opened, on a system that lets `Update` take the privilege, enumerate the
-- processes and query the handle table, ends with the exit code 0 and has printed, to the output file
-- or else the standard output and in the format of the options, the owners that the sorted pointers
-- of an object lead to. For what the enumeration found and the entries of one of the answers to the
-- query, that object has an owner for each process with a handle to one of the zombies' kernel objects
-- that is not the program's own, and for no other, with these handles in the order of the table, the
-- image path or error text that Windows gives for its process ID, and its services; it has them in
-- the order of the comparator, lists as unexplained the zombies to whose process ID no such handle
-- leads, and holds the errors and the counts of the enumeration.
pub wmain-prints :
    (format_message : FormatMessage) (c : MainCalls) (argv0 : Text) (args : List Text) (o : Options)
    (stream : Option FileStream) (u : Updated)
    → c.wow64 ≡ false
    → command_line c.is_directory args ≡ parsed o
    → o.threads_report ≡ false
    → result_stream c o ≡ some stream
    → IsReady format_message c.update o.exit_age_in_secs u
    → (coll : List ZombieOwner) × (z : ZombieOwners) × (dumps : Option Diagnosed)
      × (q : QueryAnswer) × (wmain format_message c argv0 args ≡ successful c o stream coll z dumps)
      × (load_all z z.owners_sorted ≡ some coll)
      × Among q c.update.system.rounds
      × IsReport format_message c.update no_services
          (found_zombies format_message c.update o.exit_age_in_secs)
          q.entries
          z
unfolding wmain
wmain-prints format_message c argv0 args o stream u is64 options zombies opened ready =
    let (r, q, is, ok, among, right) =
      update_owners-done format_message c.update o.exit_age_in_secs u ready in
    let (filled, _, holds) =
      table-Holds format_message c.update [] u ready.queries ready.has_table in
    let (r', dumps, goes, ok', same) =
      update_owners_in-done format_message c.update (dump_calls c) o.exit_age_in_secs
        o.diag_directory new_owners at_start r u filled.entries is ok ready.queries holds in
    let right' =
      subst
        (IsReport format_message c.update no_services
          (found_zombies format_message c.update o.exit_age_in_secs) q.entries)
        (sym same) right in
    let shown = right'.sorted_view in
    let starts : wmain format_message c argv0 args
        ≡ run_parsed format_message c argv0 (mode_error c) (parsed o) =
      rw (is64, options) refl in
    (
      shown.view,
      r'.object,
      dumps,
      q,
      starts
          ∙ opens format_message c o (mode_error c) argv0 stream opened
          ∙ reports format_message c o (mode_error c) stream zombies
          ∙ ap (write_results c o stream (mode_error c)) goes
          ∙ prints format_message c o (mode_error c) stream r' dumps shown.view ok' shown.loads
          ∙ end_run-successful c o stream shown.view r'.object dumps,
      shown.loads,
      among,
      right',
    )
