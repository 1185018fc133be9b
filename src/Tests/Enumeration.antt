-- ===== src/Tests/Enumeration.antt =====
-- Runs of the enumeration.
use zombie_finder.Base.{
  ◌≡◌, ◌≢◌, ◌<◌, ◌≤◌, refl, true, [], length, filter, arith, if◌then◌else◌, ◌==◌, ◌%◌, ◌^◌, ◌+◌,
  none, ◌↔◌, ◌⊎◌, ◌*◌, ℕ,
}
use zombie_finder.Base.Map.{find, count_key}
use zombie_finder.Handles.{live, Fresh, Accounted, occurrences}
use zombie_finder.ZombieHandles.{
  is_old_enough, acquire_new_handles_to_existing_zombies, no_handles, Acquired,
}
use zombie_finder.ZombieHandles.Safety.{acquire_accounts_for_handles}
use zombie_finder.ZombieHandles.Found.{is_zombie, all_entries}
use zombie_finder.ZombieHandles.Rounds.{acquired-lookup}
use zombie_finder.ZombieHandles.Counts.{
  acquired-pid_lookup, acquired-counts, last_with_pid, failed_query,
}
use zombie_finder.ZombieHandles.Age.{is_old_enough_lem}
use zombie_finder.Tests.Scenario.{denied, enumeration}

abbrev acquired : Acquired
acquired = acquire_new_handles_to_existing_zombies denied enumeration 3 no_handles []

nothing_open : Accounted [] [] no_handles.lookup
unfolding live count_key occurrences
nothing_open = record { closes = tt; holds = λ h. omega arith }

acquired_ok : acquired.success ≡ true
unfolding acquire_new_handles_to_existing_zombies
acquired_ok = refl

acquired_trace-Fresh : Fresh acquired.trace
unfolding acquire_new_handles_to_existing_zombies live
acquired_trace-Fresh = (
  λ e. omega (arith, e),
  refl,
  (
    λ e. omega (arith, e),
    refl,
    (
      λ e. omega (arith, e),
      refl,
      (
        λ e. omega (arith, e),
        refl,
        (λ e. omega (arith, e), refl, (λ e. omega (arith, e), refl, tt)),
      ),
    ),
  ),
)

acquire_accounts_for_handles_example : Accounted acquired.trace [] acquired.handles.lookup
acquire_accounts_for_handles_example =
    acquire_accounts_for_handles denied enumeration 3 no_handles [] nothing_open
      acquired_trace-Fresh

acquired-lookup_example :
    acquired.handles.lookup
    ≡ all_entries (filter (is_zombie 3 enumeration.now) enumeration.processes)
acquired-lookup_example =
    acquired-lookup denied enumeration 3 no_handles [] nothing_open acquired_ok acquired_trace-Fresh

acquired-pid_lookup_example :
    find 40 acquired.pid_lookup
    ≡ last_with_pid 40 (filter (is_zombie 3 enumeration.now) enumeration.processes) none
acquired-pid_lookup_example = acquired-pid_lookup denied enumeration 3 no_handles [] 40 acquired_ok

acquired-counts_example :
    (acquired.handles.n_total_processes ≡ length enumeration.processes % 2 ^ 64)
    × (acquired.handles.n_zombie_processes
        ≡ length (filter (is_zombie 3 enumeration.now) enumeration.processes) % 2 ^ 64)
    × (length acquired.errors
        ≡ length (filter failed_query enumeration.processes)
          + (if enumeration.end_status == 0x8000001a then 0 else 1))
acquired-counts_example = acquired-counts denied enumeration 3 no_handles [] acquired_ok

is_old_enough_lem_example : (is_old_enough 3 1000000000 20 ≡ true) ↔ (
    (◌≢◌ {A = ℕ} 20 0)
    × ((◌≡◌ {A = ℕ} 3 0) ⊎ ((20 < 1000000000) × (20 + 3 * 10000000 ≤ 1000000000))))
is_old_enough_lem_example = is_old_enough_lem 3 1000000000 20
