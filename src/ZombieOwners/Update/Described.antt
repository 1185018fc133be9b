-- ===== src/ZombieOwners/Update/Described.antt =====
-- What `Update_Impl` (ZombieOwners.cpp) is to make of the answers to the two queries.
use mathlib.Core.List.{Permᴰ}
use zombie_finder.Base.{ℕ, ◌≡◌, none, some, List, map, if◌then◌else◌, length}
use zombie_finder.Base.Map.{Map, find, Distinct}
use zombie_finder.AllHandles.{HandleEntry}
use zombie_finder.ErrorText.{FormatMessage}
use zombie_finder.ZombieHandles.{Acquired}
use zombie_finder.ZombieInfo.{ZombieProcessThreadInfo}
use zombie_finder.ZombieOwners.{ZombieOwner}
use zombie_finder.ZombieOwners.Owned.{last_own, handles_of, is_explained}
use zombie_finder.ZombieOwners.Entries.{described, expected}
use zombie_finder.Services.{ServiceLookup}
use zombie_finder.ZombieOwners.Sorting.{IsSorted}
use zombie_finder.ZombieOwners.Update.{UpdateCalls}
use zombie_finder.ZombieOwners.Object.{ZombieOwners, load_all}

-- The sorted collection leads to the elements of the map, each once, in an order in which no owner
-- stands behind one that the comparator puts after it.
pub record IsSortedView (z : ZombieOwners) : Type 0 where
  pub view : List ZombieOwner
  pub loads : load_all z z.owners_sorted ≡ some view
  pub elements : Permᴰ (map (λ e. e.1) z.owners) view
  pub in_order : IsSorted view

-- The errors and counts of the enumeration, as the object holds them.
abbrev pub IsCounted : Acquired → ZombieOwners → Type 0
IsCounted a z =
    (z.process_enum_errors ≡ a.errors)
    × (z.n_zombie_processes_and_threads ≡ length a.handles.lookup)
    × (z.n_zombie_processes ≡ a.handles.n_zombie_processes)
    × (z.n_total_processes ≡ a.handles.n_total_processes)

-- What the object holds, by the handle table and what `AcquireNewHandlesToExistingZombies` found, for
-- the answers of Windows and a service lookup as it was before.
pub record IsReport (format_message : FormatMessage) (c : UpdateCalls) (services : ServiceLookup)
    (a : Acquired) (entries : List HandleEntry) (z : ZombieOwners) : Type 0 where
  -- The kernel objects that the new handles lead to.
  pub objects : Map ZombieProcessThreadInfo
  pub objects_are :
      (object : ℕ)
      → find object objects ≡ last_own a.handles.lookup c.current_pid object entries none
  -- Each process is charged with its handles to them, and described by the answers of Windows.
  pub owners_are :
      (pid : ℕ)
      → find pid z.owners
        ≡ expected
            (described format_message c.process c.service services pid)
            (handles_of a.handles.lookup c.current_pid objects pid entries)
  pub each_once : Distinct z.owners
  pub sorted_view : IsSortedView z
  -- The zombies to which no such handle leads.
  pub remaining : Map ZombieProcessThreadInfo
  pub unexplained_are : z.unexplained ≡ map (λ e. e.1) remaining
  pub remaining_are :
      (pid : ℕ)
      → find pid remaining ≡ (
          if is_explained a.handles.lookup c.current_pid objects pid entries
          then none
          else find pid a.pid_lookup)
  pub remaining_once : Distinct remaining
  pub counted : IsCounted a z
