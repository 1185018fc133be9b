-- ===== src/Tests/Owners.antt =====
-- Runs of the attribution, of the sort, and of `Update_Impl`.
use zombie_finder.ZombieOwners.Update.Unique.{update_impl-same_report}
use mathlib.Core.List.{Permᴰ}
use zombie_finder.Base.{ℕ, ◌≡◌, refl, true, none, some, [], ◌∷◌, arith, Among, if◌then◌else◌, ◌↔◌}
use zombie_finder.Base.Map.{Map, find}
use zombie_finder.Base.Text.{codes}
use zombie_finder.AllHandles.{Updated, QueryAnswer, update, no_handle_table, round}
use zombie_finder.AllHandles.Iteration.{run_over}
use zombie_finder.Handles.{opened, closed}
use zombie_finder.HeapMem.{alloc, dealloc}
use zombie_finder.ZombieHandles.{Acquired, acquire_new_handles_to_existing_zombies, no_handles}
use zombie_finder.ZombieInfo.{ZombieProcessThreadInfo}
use zombie_finder.ZombieOwners.{ZombieOwner, Attribution, attribute, no_owner}
use zombie_finder.ZombieOwners.Owned.{handles_of, is_explained, pid_lookup-attribute}
use zombie_finder.ZombieOwners.Entries.{described, expected}
use zombie_finder.ZombieOwners.Exact.{find-attribute}
use zombie_finder.ZombieOwners.Sorting.{sort_owners, IsSorted, sort_owners_iff}
use zombie_finder.ZombieOwners.Update.{UpdateResult, update_impl, done, undefined_behaviour}
use zombie_finder.ZombieOwners.Object.{ZombieOwners, OwnerPointer, load_all}
use zombie_finder.ZombieOwners.Update.Described.{IsReport}
use zombie_finder.ZombieOwners.Update.Success.{update_impl-IsReport}
use zombie_finder.ZombieOwners.Update.Again.{update_impl-dangling}
use zombie_finder.Services.{no_services}
use zombie_finder.Tests.Scenario.{
  denied, enumeration, system, table_entries, update_calls, never_updated, world, owner_calls,
  service_calls,
}

abbrev zombie : ℕ → ZombieProcessThreadInfo
zombie pid = record {
  pid = pid;
  tid = 0;
  image_path = codes "a.exe";
  create_time = 10;
  exit_time = 20;
  n_threads = 0;
  parent_pid = 4;
  parent_image_path = [];
}

abbrev lookup : Map ZombieProcessThreadInfo
lookup = (100, zombie 40) ∷ (108, zombie 50) ∷ []

abbrev objects : Map ZombieProcessThreadInfo
objects = (900, zombie 40) ∷ (902, zombie 50) ∷ []

abbrev pids : Map ZombieProcessThreadInfo
pids = (40, zombie 40) ∷ (50, zombie 50) ∷ []

abbrev start : Attribution
start = record { owners = []; pid_lookup = pids; services = no_services; trace = [] }

abbrev finished : Attribution
finished =
    run_over (attribute lookup 77 objects denied owner_calls service_calls) start table_entries

pid_lookup-attribute_example :
    find 40 finished.pid_lookup
    ≡ (if is_explained lookup 77 objects 40 table_entries then none else find 40 start.pid_lookup)
pid_lookup-attribute_example =
    pid_lookup-attribute lookup 77 objects denied owner_calls service_calls start table_entries 40

find-attribute_example :
    find 8 finished.owners
    ≡ expected
        (described denied owner_calls service_calls no_services 8)
        (handles_of lookup 77 objects 8 table_entries)
find-attribute_example =
    find-attribute lookup objects 77 denied owner_calls service_calls start table_entries 8 refl

abbrev owner : ℕ → ZombieOwner
owner pid = record no_owner {
  pid = pid;
  exe_name = codes "c.exe";
  zombie_owning_info = record { handle_value = 16; zombie_info = zombie 40 } ∷ [];
}

sort_owners_iff_example :
    (Permᴰ (owner 9 ∷ owner 8 ∷ []) (owner 8 ∷ owner 9 ∷ []) × IsSorted (owner 8 ∷ owner 9 ∷ []))
    ↔ (owner 8 ∷ owner 9 ∷ [] ≡ sort_owners (owner 9 ∷ owner 8 ∷ []))
sort_owners_iff_example =
    sort_owners_iff (owner 9 ∷ owner 8 ∷ []) (owner 8 ∷ owner 9 ∷ [])
      (((λ e. omega (arith, e)), tt), (tt, tt))

abbrev acquired : Acquired
acquired = acquire_new_handles_to_existing_zombies denied enumeration 3 no_handles []

acquired_ok : acquired.success ≡ true
unfolding acquire_new_handles_to_existing_zombies
acquired_ok = refl

abbrev pub updated : Updated
updated = record {
  success = true;
  object = record { mem = record { mem = 8000; size = 2500 }; contents = some table_entries };
  error_info = [];
  trace = opened 8000 ∷ closed 7000 ∷ opened 7000 ∷ [];
}

pub updated_is : update denied system no_handle_table [] ≡ some updated
unfolding update round dealloc alloc
updated_is = refl

update_impl-IsReport_example :
    (r : UpdateResult) × (q : QueryAnswer) × (update_impl denied update_calls 3 never_updated world
      ≡ done r)
    × (r.success ≡ true)
    × Among q system.rounds
    × IsReport denied update_calls no_services acquired q.entries r.object
update_impl-IsReport_example =
    update_impl-IsReport denied update_calls 3 never_updated world updated refl acquired_ok
      updated_is refl

abbrev pointer : ℕ → OwnerPointer
pointer pid = record { epoch = 1; pid = pid }

-- What the first call leaves.
abbrev updated_once : ZombieOwners
updated_once = record never_updated {
  owners = (8, owner 8) ∷ (9, owner 9) ∷ [];
  epoch = 1;
  owners_sorted = pointer 8 ∷ pointer 9 ∷ [];
}

update_impl-dangling_example :
    update_impl denied update_calls 3 updated_once world ≡ undefined_behaviour
update_impl-dangling_example =
    update_impl-dangling denied update_calls 3 updated_once world updated (pointer 8) (pointer 9) []
      refl (omega arith) acquired_ok updated_is refl

-- An object that still holds an owner.
abbrev holds_owner : ZombieOwners
holds_owner = record never_updated {
  owners = (8, no_owner) ∷ [];
  epoch = 7;
  n_total_processes = 12;
}

update_impl-same_report_example :
    (r r' : UpdateResult) × (update_impl denied update_calls 3 never_updated world ≡ done r)
    × (update_impl denied update_calls 3 holds_owner world ≡ done r')
    × (r.success ≡ true)
    × (r'.success ≡ true)
    × (load_all r.object r.object.owners_sorted ≡ load_all r'.object r'.object.owners_sorted)
    × Permᴰ r.object.unexplained r'.object.unexplained
update_impl-same_report_example =
    update_impl-same_report denied update_calls 3 never_updated holds_owner world updated refl refl
      acquired_ok updated_is refl
