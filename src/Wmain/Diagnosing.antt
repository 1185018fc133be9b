-- ===== src/Wmain/Diagnosing.antt =====
-- The calls of `Update` with a directory for diagnostics.
use zombie_finder.SecurityUtils.{enable_privilege}
use zombie_finder.Services.{ServiceLookup}
use zombie_finder.Services.Dump.{dump_pid_to_service_lookup_info}
use zombie_finder.ZombieHandles.Dump.{dump_zombie_handles}
use zombie_finder.Base.{
  ℕ, Bool, ◌≡◌, refl, ap, ◌∙◌, true, false, ltb, Option, none, some, List, [], length, Bool-cases,
  Option-cases, inl, inr, if◌then◌else◌,
}
use zombie_finder.Base.Text.{Text, codes, ◌<<◌}
use zombie_finder.AllHandles.{HandleEntry, AllHandles, value, Updated, update, no_handle_table}
use zombie_finder.AllHandles.Dump.{dump_all_handles, all_handles_heading}
use zombie_finder.AllHandles.Iteration.{Holds}
use zombie_finder.AllHandles.Listed.{all_handles_text-lines, entry_lines}
use zombie_finder.ErrorText.{FormatMessage}
use zombie_finder.FileOutput.{FileCalls, Dumped, create_file_output, write_dump}
use zombie_finder.ZombieHandles.{ZombieHandles, acquire_new_handles_to_existing_zombies, no_handles}
use zombie_finder.ZombieOwners.Diagnostics.{
  Diagnosed, DumpCalls, diagnose, dump_diagnostics, diagnose_outcome, update_owners_in,
  diagnostic_file,
}
use zombie_finder.ZombieOwners.Update.{UpdateCalls, UpdateResult, done, Surroundings, update_owners}
use zombie_finder.ZombieOwners.Object.{ZombieOwners}

-- The dump of a table that the query has filled reads no other memory.
dump_all_handles-value :
    (calls : FileCalls) (pointer_text : ℕ → Text) (a : AllHandles) (out_file : Text) (append : Bool)
    (error_info : Text) (entries : List HandleEntry)
    → Holds a entries
    → (x : Dumped) × (dump_all_handles calls pointer_text a out_file append error_info ≡ value x)
unfolding dump_all_handles
dump_all_handles-value calls pointer_text a out_file append error_info entries h =
    let written =
      write_dump calls (codes "AllHandlesSystemwide::Dump") out_file append error_info in
    elim (Option-cases (create_file_output calls out_file append)) [
      | inl e ↦ (written [], rw (e, dump_all_handles) refl)
      | inr (f, e) ↦ (
        written (all_handles_heading << entry_lines pointer_text entries),
        rw (e, all_handles_text-lines pointer_text a entries h, dump_all_handles) refl,
      )
    ]

diagnose-value :
    (c : UpdateCalls) (d : DumpCalls) (zombies : ZombieHandles) (table : AllHandles)
    (services : ServiceLookup) (directory error_info : Text) (entries : List HandleEntry)
    → Holds table entries
    → (g : Diagnosed) × (diagnose d.file d.times d.pointer_text c.service c.current_pid d.now
          zombies table services directory error_info
        ≡ value g)
unfolding diagnose
diagnose-value c d zombies table services directory error_info entries h =
    let file : Text → Text = diagnostic_file d.times d.now directory in
    let first =
      dump_zombie_handles d.file d.times c.current_pid zombies (file (codes "ZombieHandles")) false
        error_info in
    let (second, e) =
      dump_all_handles-value d.file d.pointer_text table (file (codes "AllHandles")) false
        first.error_info entries h in
    let third =
      dump_pid_to_service_lookup_info d.file c.service services (file (codes "Services")) false
        second.error_info in
    (
      record { zombies = first; handles = second; services = third.0; service_lookup = third.1 },
      rw (e, diagnose) refl,
    )

-- The dumps change the error text and the lookup of the services alone.
pub dump_diagnostics-done :
    (c : UpdateCalls) (d : DumpCalls) (zombies : ZombieHandles) (directory : Text)
    (r : UpdateResult) (u : Updated) (entries : List HandleEntry)
    → Holds u.object entries
    → (r' : UpdateResult) × (dumps : Option Diagnosed) × (dump_diagnostics c d zombies directory r
          (some u)
        ≡ (done r', dumps))
      × (r'.success ≡ r.success)
      × (r'.object ≡ r.object)
unfolding dump_diagnostics
dump_diagnostics-done c d zombies directory r u entries h =
    let (g, e) =
      diagnose-value c d zombies u.object r.surroundings.services directory r.error_info entries
        h in
    (
      record r {
        error_info = g.services.error_info;
        surroundings = record r.surroundings { services = g.service_lookup };
      },
      some g,
      rw (e, dump_diagnostics) refl,
      refl,
      refl,
    )

-- A call that succeeds without a directory succeeds with one, and finds the same.
pub update_owners_in-done :
    (format_message : FormatMessage) (c : UpdateCalls) (d : DumpCalls) (age : ℕ) (directory : Text)
    (z : ZombieOwners) (world : Surroundings) (r : UpdateResult) (u : Updated)
    (entries : List HandleEntry)
    → update_owners format_message c age z world ≡ done r
    → r.success ≡ true
    → update format_message c.system no_handle_table world.heap ≡ some u
    → Holds u.object entries
    → (r' : UpdateResult) × (dumps : Option Diagnosed) × (update_owners_in format_message c d age
          directory z world
        ≡ (done r', dumps))
      × (r'.success ≡ true)
      × (r'.object ≡ r.object)
unfolding update_owners_in diagnose_outcome
update_owners_in-done format_message c d age directory z world r u entries is ok updated h =
    let trace = (enable_privilege format_message c.privilege [] world.handles).2 in
    let a =
      acquire_new_handles_to_existing_zombies format_message c.enumeration age no_handles trace in
    let (r', dumps, e, success, object) =
      dump_diagnostics-done c d a.handles directory r u entries h in
    elim (Bool-cases (ltb 0 (length directory))) [
      | inl some_directory ↦ (
        r',
        dumps,
        rw (some_directory, is, updated)
            (ap
                (λ b.
                  if b then dump_diagnostics c d a.handles directory r (some u) else (done r, none))
                ok
              ∙ e),
        success ∙ ok,
        object,
      )
      | inr no_directory ↦ (r, none, rw (no_directory, is) refl, ok, refl)
    ]
