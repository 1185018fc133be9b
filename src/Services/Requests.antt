-- ===== src/Services/Requests.antt =====
-- The static variables of ServiceLookupByPID.cpp over any sequence of calls.
use zombie_finder.Base.{
  ℕ, ◌≡◌, refl, Bool, none, some, List, [], ◌∷◌, inl, inr, ◌==◌, Bool-cases, Option-cases, Option,
  subst, arith,
}
use zombie_finder.Base.Map.{Map, find}
use zombie_finder.Base.Ordered.{IsAscending, put-IsAscending}
use zombie_finder.Base.Text.{Text}
use zombie_finder.FileOutput.{FileCalls, create_file_output}
use zombie_finder.Handles.{Fresh, Accounted, Safe, NoTable, open-Safe, close-Safe, nothing-Safe}
use zombie_finder.Services.{
  ServiceList, ServiceStatus, ServiceCalls, ServiceLookup, no_services, add_service, add_services,
  enumerate_services, services_buffer_size, initialize_service_lookup, lookup_services_by_pid,
}
use zombie_finder.Services.Dump.{dump_pid_to_service_lookup_info}

-- A call of `LookupServicesByPID`, or of `DumpPIDtoServiceLookupInfo` with a file that is overwritten
-- or appended to.
pub data Request : Type 0 where
  look_up : ℕ → Request
  dump : Text → Bool → Request

-- The static variables after a call.
unfoldable pub serve : FileCalls → ServiceLookup → ServiceCalls → Request → ServiceLookup
unfolding lookup_services_by_pid dump_pid_to_service_lookup_info
serve files s calls (look_up pid) = (lookup_services_by_pid calls s pid).2
serve files s calls (dump out_file append) =
    (dump_pid_to_service_lookup_info files calls s out_file append []).1

unfoldable pub serve_all : FileCalls → ServiceLookup → List (ServiceCalls × Request) → ServiceLookup
unfolding serve
serve_all files s [] = s
serve_all files s ((calls, request) ∷ rest) = serve_all files (serve files s calls request) rest

add_services-IsAscending :
    (m : Map ServiceList) (svcs : List ServiceStatus)
    → IsAscending m
    → IsAscending (add_services m svcs)
unfolding add_services add_service
add_services-IsAscending m [] h = h
add_services-IsAscending m (svc ∷ rest) h =
    add_services-IsAscending (add_service m svc) rest (added (find svc.process_id m) refl)
  where
    added :
        (found : Option ServiceList)
        → find svc.process_id m ≡ found
        → IsAscending (add_service m svc)
    added none e = rw (e, add_service) (put-IsAscending svc.process_id _ m h)
    added (some list) e = rw (e, add_service) (put-IsAscending svc.process_id _ m h)

enumerate_services-IsAscending :
    (calls : ServiceCalls) (m : Map ServiceList)
    → IsAscending m
    → IsAscending (enumerate_services calls m)
unfolding enumerate_services
enumerate_services-IsAscending calls m h = elim (Bool-cases (calls.first_error == 234)) [
  | inr e ↦ rw (e, enumerate_services) h
  | inl e ↦ elim (Option-cases (calls.second_call (services_buffer_size calls.bytes_needed))) [
    | inl n ↦ rw (e, n, enumerate_services) h
    | inr (svcs, n) ↦ rw (e, n, enumerate_services) (add_services-IsAscending m svcs h)
  ]
]

-- The lookup is in order, and every handle to the service control manager is closed.
pub record IsTidy (s : ServiceLookup) : Type 0 where
  pub ascending : IsAscending s.lookup
  pub closes : Safe s.managers [] NoTable

initialize-IsTidy :
    (calls : ServiceCalls) (s : ServiceLookup)
    → IsTidy s
    → IsTidy (initialize_service_lookup calls s)
unfolding initialize_service_lookup
initialize-IsTidy calls s h = elim (Bool-cases s.initialized) [
  | inl e ↦ let same : s ≡ initialize_service_lookup calls s = ground arith in subst IsTidy same h
  | inr e ↦ elim (Bool-cases (calls.manager == 0)) [
    | inl n ↦
        rw (e, n, initialize_service_lookup) (record { ascending = h.ascending; closes = h.closes })
    | inr n ↦
        rw (e, n, initialize_service_lookup)
          (record {
            ascending = enumerate_services-IsAscending calls s.lookup h.ascending;
            closes = close-Safe calls.manager (open-Safe calls.manager h.closes);
          })
  ]
]

serve-IsTidy :
    (files : FileCalls) (s : ServiceLookup) (calls : ServiceCalls) (request : Request)
    → IsTidy s
    → IsTidy (serve files s calls request)
unfolding serve lookup_services_by_pid dump_pid_to_service_lookup_info
serve-IsTidy files s calls (look_up pid) h = initialize-IsTidy calls s h
serve-IsTidy files s calls (dump out_file append) h =
    elim (Option-cases (create_file_output files out_file append)) [
      | inl e ↦ rw (e, serve, dump_pid_to_service_lookup_info) h
      | inr (f, e) ↦ rw (e, serve, dump_pid_to_service_lookup_info) (initialize-IsTidy calls s h)
    ]

serve_all-IsTidy :
    (files : FileCalls) (s : ServiceLookup) (requests : List (ServiceCalls × Request))
    → IsTidy s
    → IsTidy (serve_all files s requests)
unfolding serve_all
serve_all-IsTidy files s [] h = h
serve_all-IsTidy files s ((calls, request) ∷ rest) h =
    serve_all-IsTidy files (serve files s calls request) rest (serve-IsTidy files s calls request h)

-- After any sequence of lookups and dumps, whatever the service control manager and the file system
-- answer to each of them, as long as each new handle is not null and differs from those that are
-- open: the map of the services is in the ascending order of the process IDs, which is the order of
-- the dumps; no handle to the service control manager was closed that was not open, and none is left
-- open.
pub serve_all-tidy :
    (files : FileCalls) (requests : List (ServiceCalls × Request))
    → let s = serve_all files no_services requests in
      Fresh s.managers → IsAscending s.lookup × Accounted s.managers [] NoTable
serve_all-tidy files requests fresh =
    let tidy =
      serve_all-IsTidy files no_services requests
        (record { ascending = tt; closes = nothing-Safe }) in
    (tidy.ascending, tidy.closes fresh)
