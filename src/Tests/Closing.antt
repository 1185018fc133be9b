-- ===== src/Tests/Closing.antt =====
-- A call of `Update` for which the query for the handle table fails.
use zombie_finder.Base.{◌≡◌, refl, false, [], arith, none}
use zombie_finder.Base.Map.{count_key, put}
use zombie_finder.HeapMem.{dealloc}
use zombie_finder.Base.Text.{codes}
use zombie_finder.AllHandles.{update, no_handle_table}
use zombie_finder.Handles.{Fresh, Accounted, live, occurrences, Trace}
use zombie_finder.ZombieHandles.{
  Acquired, acquire_new_handles_to_existing_zombies, no_handles, release_acquired_handles,
}
use zombie_finder.ZombieInfo.{ZombieProcessThreadInfo}
use zombie_finder.ZombieOwners.Update.{
  UpdateCalls, UpdateResult, done, update_impl, destroy, counted, revert_to_self,
}
use zombie_finder.ZombieOwners.Object.{reset}
use zombie_finder.ZombieOwners.Closed.{update_owners_in-Accounted}
use zombie_finder.ZombieOwners.Diagnostics.{DumpCalls, update_owners_in}
use zombie_finder.SecurityUtils.{enable_privilege}
use zombie_finder.Tests.Scenario.{
  denied, enumeration, system, update_calls, never_updated, world, writable, times, a_time,
}

abbrev calls : UpdateCalls
calls = record update_calls { system = record system { function_found = false } }

abbrev privileged : Trace
privileged = (enable_privilege denied calls.privilege [] []).2

abbrev acquired : Acquired
acquired = acquire_new_handles_to_existing_zombies denied enumeration 3 no_handles privileged

abbrev dump_calls : DumpCalls
dump_calls = record { file = writable; times = times; pointer_text = λ object. []; now = a_time }

abbrev failed : UpdateResult
failed = record {
  success = false;
  object = counted acquired (reset never_updated);
  error_info = codes "Couldn't get function NtQuerySystemInformation";
  surroundings =
      destroy denied calls no_handle_table acquired.handles
        (record world { handles = acquired.trace });
}

update_failed :
    update_owners_in denied calls dump_calls 3 (codes "D:") never_updated world
    ≡ (done failed, none)
unfolding update_owners_in update update_impl acquire_new_handles_to_existing_zombies dealloc
    enable_privilege revert_to_self destroy
update_failed = refl

nothing_open : Accounted world.handles [] no_handles.lookup
unfolding live count_key occurrences
nothing_open = record { closes = tt; holds = λ h. refl }

failed_trace-Fresh : Fresh failed.surroundings.handles
unfolding destroy release_acquired_handles acquire_new_handles_to_existing_zombies enable_privilege
    live put
failed_trace-Fresh = (
  λ e. omega (arith, e),
  refl,
  (
    λ e. omega (arith, e),
    refl,
    (
      λ e. omega (arith, e),
      refl,
      (
        λ e. omega (arith, e),
        refl,
        (
          λ e. omega (arith, e),
          refl,
          (λ e. omega (arith, e), refl, (λ e. omega (arith, e), refl, tt)),
        ),
      ),
    ),
  ),
)

update_owners_in-Accounted_example :
    Accounted {V = ZombieProcessThreadInfo} failed.surroundings.handles [] []
update_owners_in-Accounted_example =
    update_owners_in-Accounted denied calls dump_calls 3 (codes "D:") never_updated world failed
      none nothing_open update_failed failed_trace-Fresh
