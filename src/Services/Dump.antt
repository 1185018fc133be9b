-- ===== src/Services/Dump.antt =====
-- `DumpPIDtoServiceLookupInfo` (ServiceLookupByPID.cpp).
use zombie_finder.Base.{ℕ, ◌+◌, Bool, ltb, if◌then◌else◌, none, some, [], ◌∷◌, length}
use zombie_finder.Base.Map.{Map}
use zombie_finder.Base.Text.{Text, codes, ◌<<◌, decimal, pad_right}
use zombie_finder.FileOutput.{FileCalls, Dumped, write_dump, create_file_output}
use zombie_finder.Services.{ServiceCalls, ServiceLookup, ServiceList, initialize_service_lookup}

-- The two loops that look for the longest name.
unfoldable pub longest_service : ServiceList → ℕ → ℕ
longest_service [] width = width
longest_service (s ∷ services) width =
    longest_service services
      (if ltb width (length s.service_name) then length s.service_name else width)

unfoldable pub longest_in_lookup : Map ServiceList → ℕ → ℕ
unfolding longest_service
longest_in_lookup [] width = width
longest_in_lookup ((pid, services) ∷ lookup) width =
    longest_in_lookup lookup (longest_service services width)

unfoldable pub dump_services : ℕ → ServiceList → Text
dump_services width [] = []
dump_services width (s ∷ services) =
    codes "             "
    << pad_right b' ' width s.service_name
    << codes "  "
    << s.display_name
    << codes "\n"
    << dump_services width services

unfoldable pub dump_lookup : ℕ → Map ServiceList → Text
unfolding dump_services
dump_lookup width [] = []
dump_lookup width ((pid, services) ∷ lookup) =
    codes "PID: "
    << decimal pid
    << codes "\n"
    << dump_services width services
    << codes "\n"
    << dump_lookup width lookup

-- The lookup is set up only if the file could be opened.
unfoldable pub dump_pid_to_service_lookup_info :
    FileCalls → ServiceCalls → ServiceLookup → Text → Bool → Text → Dumped × ServiceLookup
unfolding longest_in_lookup dump_lookup write_dump
dump_pid_to_service_lookup_info calls c s out_file append error_info =
    let ready = initialize_service_lookup c s in
    let text = dump_lookup (longest_in_lookup ready.lookup 0 + 3) ready.lookup in
    let dumped =
      write_dump calls (codes "DumpPIDtoServiceLookupInfo") out_file append error_info text in
    elim (create_file_output calls out_file append) [
      | none ↦ (dumped, s)
      | some f ↦ (dumped, ready)
    ]
