-- ===== src/ZombieOwners/Diagnostics.antt =====
-- The diagnostic dumps of `Update_Impl` (ZombieOwners.cpp).
use zombie_finder.Base.{ℕ, true, false, Option, none, some, [], length, ltb, if◌then◌else◌}
use zombie_finder.AllHandles.{Updated, update, no_handle_table}
use zombie_finder.ErrorText.{FormatMessage}
use zombie_finder.SecurityUtils.{enable_privilege}
use zombie_finder.ZombieOwners.Update.{
  UpdateCalls, UpdateResult, Outcome, unfinished, undefined_behaviour, done, Surroundings,
  update_owners,
}
use zombie_finder.ZombieOwners.Object.{ZombieOwners}
use zombie_finder.Base.Text.{Text, codes, ◌<<◌}
use zombie_finder.AllHandles.{AllHandles, Read, uninitialized, value}
use zombie_finder.AllHandles.Dump.{dump_all_handles}
use zombie_finder.FileOutput.{FileCalls, Dumped}
use zombie_finder.Services.{ServiceCalls, ServiceLookup}
use zombie_finder.Services.Dump.{dump_pid_to_service_lookup_info}
use zombie_finder.Strings.Times.{SystemTime, TimeCalls, swprintf, time_text}
use zombie_finder.ZombieHandles.{ZombieHandles, acquire_new_handles_to_existing_zombies, no_handles}
use zombie_finder.ZombieHandles.Dump.{dump_zombie_handles}

-- What the three dumps leave, and the lookup of the services; the error text of the last one is what
-- `sErrorInfo` holds in the end.
pub record Diagnosed : Type 0 where
  pub zombies : Dumped
  pub handles : Dumped
  pub services : Dumped
  pub service_lookup : ServiceLookup

-- The name of one of the files.
unfoldable pub diagnostic_file : TimeCalls → SystemTime → Text → Text → Text
unfolding swprintf time_text
diagnostic_file times now directory name =
    directory
    << codes "\\ZombieFinder_"
    << swprintf times 32 (time_text now false true)
    << codes "_"
    << name
    << codes ".txt"

-- `now` is the time that `FileTimeToSystemTime` makes of `GetSystemTimeAsFileTime`.
unfoldable pub diagnose :
    FileCalls
    → TimeCalls
    → (ℕ → Text)
    → ServiceCalls
    → ℕ
    → SystemTime
    → ZombieHandles
    → AllHandles
    → ServiceLookup
    → Text
    → Text
    → Read Diagnosed
unfolding diagnostic_file dump_zombie_handles dump_all_handles dump_pid_to_service_lookup_info
diagnose calls times pointer_text c this_pid now z table s directory error_info =
    let file : Text → Text = diagnostic_file times now directory in
    let zombies =
      dump_zombie_handles calls times this_pid z (file (codes "ZombieHandles")) false error_info in
    elim (dump_all_handles calls pointer_text table (file (codes "AllHandles")) false
      zombies.error_info) [
        | uninitialized ↦ uninitialized
        | value handles ↦
            let (services, lookup) =
              dump_pid_to_service_lookup_info calls c s (file (codes "Services")) false
                handles.error_info in
            value (record {
              zombies = zombies;
              handles = handles;
              services = services;
              service_lookup = lookup;
            })
      ]

-- What the system answers to the dumps.
pub record DumpCalls : Type 0 where
  pub file : FileCalls
  pub times : TimeCalls
  pub pointer_text : ℕ → Text
  pub now : SystemTime

-- The end of a successful `Update_Impl` with a directory for diagnostics. The handles to the zombies and
-- the handle table are the locals that the queries have filled; the dumps leave them alone.
unfoldable pub dump_diagnostics :
    UpdateCalls
    → DumpCalls
    → ZombieHandles
    → Text
    → UpdateResult
    → Option Updated
    → Outcome × Option Diagnosed
unfolding diagnose
dump_diagnostics c d zombies directory r none = (unfinished, none)
dump_diagnostics c d zombies directory r (some u) =
    elim (diagnose d.file d.times d.pointer_text c.service c.current_pid d.now zombies u.object
      r.surroundings.services directory r.error_info) [
        | uninitialized ↦ (undefined_behaviour, none)
        | value g ↦ (
          done (record r {
            error_info = g.services.error_info;
            surroundings = record r.surroundings { services = g.service_lookup };
          }),
          some g,
        )
      ]

-- `Update_Impl` behind its first return, for a directory that is not empty.
unfoldable pub diagnose_outcome :
    FormatMessage
    → UpdateCalls
    → DumpCalls
    → ℕ
    → Text
    → Surroundings
    → Outcome
    → Outcome × Option Diagnosed
unfolding dump_diagnostics
diagnose_outcome format_message c d age directory world unfinished = (unfinished, none)
diagnose_outcome format_message c d age directory world undefined_behaviour =
    (undefined_behaviour, none)
diagnose_outcome format_message c d age directory world (done r) =
    let (_, _, trace) = enable_privilege format_message c.privilege [] world.handles in
    let a =
      acquire_new_handles_to_existing_zombies format_message c.enumeration age no_handles trace in
    if r.success
    then dump_diagnostics c d a.handles directory r
        (update format_message c.system no_handle_table world.heap)
    else (done r, none)

-- `Update` with its directory for diagnostics.
unfoldable pub update_owners_in :
    FormatMessage
    → UpdateCalls
    → DumpCalls
    → ℕ
    → Text
    → ZombieOwners
    → Surroundings
    → Outcome × Option Diagnosed
unfolding diagnose_outcome update_owners
update_owners_in format_message c d age directory z world =
    let outcome = update_owners format_message c age z world in
    if ltb 0 (length directory)
    then diagnose_outcome format_message c d age directory world outcome
    else (outcome, none)
