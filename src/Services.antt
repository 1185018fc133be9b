-- ===== src/Services.antt =====
-- ServiceLookupByPID.cpp: the services that each process hosts. The two static variables are a
-- state; what the service control manager answers is the argument `ServiceCalls`.
pub mod Dump
pub mod Lookup
pub mod Requests
use zombie_finder.Handles.{Trace, opened, closed}
use zombie_finder.Base.Ordered.{put_in_order}
use zombie_finder.Base.{
  ℕ, ◌++◌, Bool, true, false, not, Option, none, some, List, [], ◌∷◌, ◌==◌, if◌then◌else◌, is_some,
  ◌+◌, ◌/◌, ◌%◌, ◌^◌,
}
use zombie_finder.Base.Map.{Map, find}
use zombie_finder.Base.Text.{Text, c_str}

pub record ServiceNames : Type 0 where
  pub service_name : Text
  pub display_name : Text

abbrev pub ServiceList : Type 0
ServiceList = List ServiceNames

-- One record of the enumeration: the process that hosts the service, and its names.
pub record ServiceStatus : Type 0 where
  pub process_id : ℕ
  pub display_name : Text
  pub service_name : Text

pub record ServiceCalls : Type 0 where
  -- `OpenSCManagerW`: a handle, or 0 for NULL.
  pub manager : ℕ
  -- `GetLastError` and `cbBytesNeeded` behind the first call of `EnumServicesStatusExW`.
  pub first_error : ℕ
  pub bytes_needed : ℕ
  -- The second call, with the size of the buffer: the records, if it succeeds.
  pub second_call : ℕ → Option (List ServiceStatus)

abbrev pub error_more_data : ℕ
error_more_data = 234

-- The static variables `ServiceLookupByPID` and `bInitialized`, and the trace of the handles to the
-- service control manager, which are no kernel handles.
pub record ServiceLookup : Type 0 where
  pub lookup : Map ServiceList
  pub initialized : Bool
  pub managers : Trace

abbrev pub no_services : ServiceLookup
no_services = record { lookup = []; initialized = false; managers = [] }

-- One round of the loop over the records: a new list for a new process, or one name more.
unfoldable pub add_service : Map ServiceList → ServiceStatus → Map ServiceList
add_service m svc =
    let names : ServiceNames = record {
      service_name = c_str svc.service_name;
      display_name = c_str svc.display_name;
    } in
    elim (find svc.process_id m) [
      | none ↦ put_in_order svc.process_id (names ∷ []) m
      | some list ↦ put_in_order svc.process_id (list ++ names ∷ []) m
    ]

unfoldable pub add_services : Map ServiceList → List ServiceStatus → Map ServiceList
unfolding add_service
add_services m [] = m
add_services m (svc ∷ rest) = add_services (add_service m svc) rest

-- 50% more than the first call asks for, in a DWORD.
abbrev pub services_buffer_size : ℕ → ℕ
services_buffer_size bytes_needed = (bytes_needed + bytes_needed / 2) % 2 ^ 32

-- From the first call of `EnumServicesStatusExW` to the cleanup.
unfoldable pub enumerate_services : ServiceCalls → Map ServiceList → Map ServiceList
unfolding add_services
enumerate_services calls m =
    if not (calls.first_error == error_more_data)
    then m
    else elim (calls.second_call (services_buffer_size calls.bytes_needed)) [
      | none ↦ m
      | some services ↦ add_services m services
    ]

unfoldable pub initialize_service_lookup : ServiceCalls → ServiceLookup → ServiceLookup
unfolding enumerate_services
initialize_service_lookup calls s =
    if s.initialized
    then s
    else if calls.manager == 0
    then record s { initialized = true }
    else record {
      lookup = enumerate_services calls s.lookup;
      initialized = true;
      managers = closed calls.manager ∷ opened calls.manager ∷ s.managers;
    }

-- The result, the list that the pointer leads to, and the static variables.
unfoldable pub lookup_services_by_pid :
    ServiceCalls → ServiceLookup → ℕ → Bool × Option ServiceList × ServiceLookup
unfolding initialize_service_lookup
lookup_services_by_pid calls s pid =
    let s' = initialize_service_lookup calls s in
    let list = find pid s'.lookup in (is_some list, list, s')
