-- ===== src/ZombieOwners/Update.antt =====
-- `ZombieOwners::Update` and `Update_Impl` (ZombieOwners.cpp), for an empty `sDiagDirectory`. The
-- handles and the heap blocks have a trace each.
pub mod Described
pub mod Report
pub mod Again
pub mod Success
pub mod Unique
pub mod Closing
pub mod Privilege
use zombie_finder.Base.{
  ℕ, suc, ◌++◌, Bool, true, false, not, Option, none, some, List, [], ◌∷◌, map, leb, ◌==◌,
  if◌then◌else◌, length, ◌>>=◌,
}
use zombie_finder.Base.Map.{Map, find}
use zombie_finder.Base.Text.{Text, codes}
use zombie_finder.AllHandles.{
  AllHandles, SystemAnswer, Updated, update, no_handle_table, number_of_handles, for_each_handle,
  uninitialized, value,
}
use zombie_finder.ErrorText.{FormatMessage, sys_error_message_with_code}
use zombie_finder.Handles.{Trace}
use zombie_finder.HeapMem.{HeapCalls, dealloc}
use zombie_finder.Processes.{ProcessCalls}
use zombie_finder.SecurityUtils.{PrivilegeCalls, enable_privilege}
use zombie_finder.Services.{ServiceCalls, ServiceLookup}
use zombie_finder.ZombieHandles.{
  ZombieHandles, Acquired, no_handles, acquire_new_handles_to_existing_zombies,
  release_acquired_handles,
}
use zombie_finder.ZombieInfo.{ZombieProcessThreadInfo}
use zombie_finder.Enumeration.{Enumeration}
use zombie_finder.ZombieOwners.{ZombieOwner, Attribution, map_object, attribute}
use zombie_finder.ZombieOwners.Object.{
  OwnerPointer, ZombieOwners, load, load_all, pointer_to, element_pointer, sort_pointers, reset,
}
use zombie_finder.ZombieOwners.Sorting.{sort_owners}

-- What the system answers to one call of `Update`.
pub record UpdateCalls : Type 0 where
  pub impersonated : Bool
  pub impersonate_error : ℕ
  pub privilege : PrivilegeCalls
  pub enumeration : Enumeration
  pub system : SystemAnswer
  pub current_pid : ℕ
  pub process : ℕ → ProcessCalls
  pub service : ServiceCalls
  -- The destructor of the handle table.
  pub dealloc_calls : HeapCalls

-- What outlives the call besides the object: the static service lookup, the traces, and whether the
-- thread still impersonates.
pub record Surroundings : Type 0 where
  pub services : ServiceLookup
  pub handles : Trace
  pub heap : Trace
  pub impersonating : Bool

pub record UpdateResult : Type 0 where
  pub success : Bool
  pub object : ZombieOwners
  pub error_info : Text
  pub surroundings : Surroundings

-- `unfinished`: the rounds of answers of the query for the handle table are too few.
pub data Outcome : Type 0 where
  unfinished undefined_behaviour : Outcome
  done : UpdateResult → Outcome

-- The two loops over the handle table, the second one over `m_owners`.
unfoldable pub attribute_handles :
    FormatMessage
    → UpdateCalls
    → Acquired
    → Map ZombieOwner
    → ServiceLookup
    → AllHandles
    → ℕ
    → Attribution
attribute_handles format_message c a owners services table n =
    let lookup = a.handles.lookup in
    let objects = for_each_handle table (map_object lookup c.current_pid) n 0 [] in
    for_each_handle table
      (attribute lookup c.current_pid objects format_message c.process c.service) n 0
      (record { owners = owners; pid_lookup = a.pid_lookup; services = services; trace = a.trace })

-- The destructors of the two locals: the handle table's block, then the handles to the zombies.
unfoldable pub destroy :
    FormatMessage → UpdateCalls → AllHandles → ZombieHandles → Surroundings → Surroundings
destroy format_message c table z world = record world {
  heap = (dealloc format_message c.dealloc_calls table.mem world.heap).trace;
  handles = (release_acquired_handles z world.handles).1;
}

-- What follows the loops: the sorted collection, the zombies that no handle explains, and the
-- destructors.
unfoldable pub finish :
    FormatMessage
    → UpdateCalls
    → Acquired
    → ZombieOwners
    → AllHandles
    → Surroundings
    → Attribution
    → Outcome
finish format_message c a z table world st =
    let filled = record z { owners = st.owners } in
    let pointers = z.owners_sorted ++ map (element_pointer z.epoch) st.owners in
    let after = record world { services = st.services; handles = st.trace } in
    elim (sort_pointers filled pointers) [
      | none ↦ undefined_behaviour
      | some sorted ↦ done (record {
        success = true;
        object = record filled {
          owners_sorted = sorted;
          unexplained = map (λ e. e.1) st.pid_lookup;
        };
        error_info = [];
        surroundings = destroy format_message c table a.handles after;
      })
    ]

unfoldable pub report :
    FormatMessage → UpdateCalls → Acquired → ZombieOwners → AllHandles → ℕ → Surroundings → Outcome
report format_message c a z table n world =
    finish format_message c a z table world
      (attribute_handles format_message c a z.owners world.services table n)

-- `allHandlesSystemwide.Update` and what follows it.
unfoldable pub with_table :
    FormatMessage → UpdateCalls → Acquired → ZombieOwners → Surroundings → Updated → Outcome
with_table format_message c a z world u =
    let world' = record world { heap = u.trace; handles = a.trace } in
    if not u.success
    then done (record {
      success = false;
      object = z;
      error_info = u.error_info;
      surroundings = destroy format_message c u.object a.handles world';
    })
    else elim (number_of_handles u.object) [
      | uninitialized ↦ undefined_behaviour
      | value n ↦ report format_message c a z u.object n world'
    ]

-- The object after the counts of zombies are set.
abbrev pub counted : Acquired → ZombieOwners → ZombieOwners
counted a z = record z {
  process_enum_errors = a.errors;
  n_zombie_processes_and_threads = length a.handles.lookup;
  n_zombie_processes = a.handles.n_zombie_processes;
  n_total_processes = a.handles.n_total_processes;
}

unfoldable pub update_impl : FormatMessage → UpdateCalls → ℕ → ZombieOwners → Surroundings → Outcome
unfolding with_table reset
update_impl format_message c age z world =
    let a =
      acquire_new_handles_to_existing_zombies format_message c.enumeration age no_handles
        world.handles in
    if not a.success
    then done (record {
      success = false;
      object = record (reset z) { process_enum_errors = a.errors };
      error_info = a.error_info;
      surroundings = record world { handles = (release_acquired_handles a.handles a.trace).1 };
    })
    else elim (update format_message c.system no_handle_table world.heap) [
      | none ↦ unfinished
      | some u ↦ with_table format_message c a (counted a (reset z)) world u
    ]

-- `RevertToSelf`, behind the work.
unfoldable pub revert_to_self : Outcome → Outcome
revert_to_self unfinished = unfinished
revert_to_self undefined_behaviour = undefined_behaviour
revert_to_self (done r) =
    done (record r { surroundings = record r.surroundings { impersonating = false } })

abbrev pub privilege_error : Text → Text
privilege_error priv_error =
    codes "Cannot enable Debug Programs privilege. "
    ++ codes "This program must be executed with administrative privileges.\n"
    ++ priv_error

unfoldable pub update_owners :
    FormatMessage → UpdateCalls → ℕ → ZombieOwners → Surroundings → Outcome
update_owners format_message c age z world =
    if not c.impersonated
    then done (record {
      success = false;
      object = z;
      error_info =
          codes "ImpersonateSelf failed: "
          ++ sys_error_message_with_code format_message c.impersonate_error false;
      surroundings = world;
    })
    else let (enabled, priv_error, handles) =
        enable_privilege format_message c.privilege [] world.handles in
      let world' = record world { handles = handles; impersonating = true } in
      if not enabled
      then done (record {
        success = false;
        object = z;
        error_info = privilege_error priv_error;
        surroundings = world';
      })
      else revert_to_self (update_impl format_message c age z world')
