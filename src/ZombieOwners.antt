-- ===== src/ZombieOwners.antt =====
-- ZombieOwners.h and ZombieOwners.cpp: the processes that hold handles to zombies. The pointers of
-- `m_ownersSorted` lead to elements of `m_owners`; `epoch` counts how often that map was cleared, and
-- a pointer of an earlier epoch dangles. The dumps of diagnostics stand in Diagnostics.
pub mod Diagnostics
pub mod Closed
pub mod Owned
pub mod ImagePath
pub mod Entries
pub mod Exact
pub mod Object
pub mod Update
pub mod Comparator
pub mod Sorting
use zombie_finder.Base.{
  ℕ, suc, ◌++◌, Bool, true, false, not, ◌||◌, Option, none, some, List, [], ◌∷◌, map, ltb, ◌==◌,
  if◌then◌else◌, is_some, length,
}
use zombie_finder.Base.Map.{Map, find, put, erase}
use zombie_finder.Base.Text.{Text}
use zombie_finder.AllHandles.{HandleEntry}
use zombie_finder.ErrorText.{FormatMessage}
use zombie_finder.Handles.{Trace}
use zombie_finder.Processes.{ProcessCalls, get_image_path_from_pid}
use zombie_finder.Services.{ServiceCalls, ServiceList, ServiceLookup, lookup_services_by_pid}
use zombie_finder.Strings.{wcsicmp, less, equal, greater, get_file_name_from_file_path}
use zombie_finder.ZombieInfo.{ZombieProcessThreadInfo}

pub record ZombieOwningInfo : Type 0 where
  pub handle_value : ℕ
  pub zombie_info : ZombieProcessThreadInfo

pub record ZombieOwner : Type 0 where
  pub pid : ℕ
  pub process_image_path : Text
  pub exe_name : Text
  pub service_list : Option ServiceList
  pub zombie_owning_info : List ZombieOwningInfo

-- The value that `m_owners[pid]` makes for a missing key.
abbrev pub no_owner : ZombieOwner
no_owner = record {
  pid = 0;
  process_image_path = [];
  exe_name = [];
  service_list = none;
  zombie_owning_info = [];
}

-- The value of `m_owners[pid]`.
abbrev pub owner_at : ℕ → Map ZombieOwner → ZombieOwner
owner_at pid owners = elim (find pid owners) [ none ↦ no_owner | some o ↦ o ]

-- Whether the first owner comes before the second.
unfoldable pub zombie_owner_comparator : ZombieOwner → ZombieOwner → Bool
zombie_owner_comparator a b =
    let n = length a.zombie_owning_info in
    let m = length b.zombie_owning_info in
    if n == m
    then elim (wcsicmp a.exe_name b.exe_name) [
      | equal ↦ ltb a.pid b.pid
      | less ↦ true
      | greater ↦ false
    ]
    else ltb m n

-- The variables of the second loop over the handles.
pub record Attribution : Type 0 where
  pub owners : Map ZombieOwner
  pub pid_lookup : Map ZombieProcessThreadInfo
  pub services : ServiceLookup
  pub trace : Trace

module _ (lookup : Map ZombieProcessThreadInfo) (current_pid : ℕ) where
  -- The first loop: the object that a handle of the lookup in this process leads to is a zombie.
  unfoldable pub map_object :
      Map ZombieProcessThreadInfo → HandleEntry → Map ZombieProcessThreadInfo
  map_object objects e =
      if e.unique_process_id == current_pid
      then elim (find e.handle_value lookup) [
        | none ↦ objects
        | some info ↦ put e.object info objects
      ]
      else objects

  module _ (objects : Map ZombieProcessThreadInfo) where
    -- What a handle leads to, unless it is one that this object opened itself.
    unfoldable pub zombie_of : HandleEntry → Option ZombieProcessThreadInfo
    zombie_of e = elim (find e.object objects) [
      | none ↦ none
      | some info ↦
          if not (e.unique_process_id == current_pid) || not (is_some (find e.handle_value lookup))
          then some info
          else none
    ]

    module _ (format_message : FormatMessage) (calls : ℕ → ProcessCalls)
        (service_calls : ServiceCalls) where
      -- The entry of a process that is met for the first time.
      unfoldable pub new_owner : ℕ → Attribution → ZombieOwner
      new_owner pid st =
          let (_, path, _) = get_image_path_from_pid format_message (calls pid) pid st.trace in
          let (_, list, _) = lookup_services_by_pid service_calls st.services pid in
          record {
            pid = pid;
            process_image_path = path;
            exe_name = get_file_name_from_file_path path;
            service_list = list;
            zombie_owning_info = [];
          }

      unfoldable pub create_owner : ℕ → Attribution → Attribution
      create_owner pid st = record st {
        owners = put pid (new_owner pid st) st.owners;
        services = (lookup_services_by_pid service_calls st.services pid).2;
        trace = (get_image_path_from_pid format_message (calls pid) pid st.trace).2;
      }

      -- `m_owners[pid].zombieOwningInfo.push_back(owningInfo)`, and the zombie is explained.
      unfoldable pub add_handle : ℕ → ZombieOwningInfo → Attribution → Attribution
      add_handle pid owning_info st =
          let owner = owner_at pid st.owners in
          record st {
            owners =
                put pid
                  (record owner {
                    zombie_owning_info = owner.zombie_owning_info ++ owning_info ∷ [];
                  })
                  st.owners;
            pid_lookup = erase owning_info.zombie_info.pid st.pid_lookup;
          }

      -- "Have we added this PID to the set yet?"
      unfoldable pub ensure_owner : ℕ → Attribution → Attribution
      ensure_owner pid st = if is_some (find pid st.owners) then st else create_owner pid st

      unfoldable pub attribute_to :
          Attribution → HandleEntry → Option ZombieProcessThreadInfo → Attribution
      attribute_to st e none = st
      attribute_to st e (some info) =
          add_handle e.unique_process_id
            (record { handle_value = e.handle_value; zombie_info = info })
            (ensure_owner e.unique_process_id st)

      -- The body of the second loop.
      unfoldable pub attribute : Attribution → HandleEntry → Attribution
      unfolding attribute_to
      attribute st e = attribute_to st e (zombie_of e)
