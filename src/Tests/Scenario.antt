-- ===== src/Tests/Scenario.antt =====
-- The answers of a system with two zombies, one of them with a thread, and two processes that hold
-- handles to the first of them.
use zombie_finder.NtInternal.{ProcessExtendedBasicInformation}
use zombie_finder.Outputs.Rows.{plain}
use zombie_finder.FileOutput.{FileCalls}
use zombie_finder.Strings.Times.{SystemTime, TimeCalls}
use zombie_finder.Base.{
  ℕ, true, false, none, some, List, [], ◌∷◌, take, zero, suc, ◌≡◌, refl, arith,
}
use zombie_finder.Base.Text.{codes, Text}
use zombie_finder.AllHandles.{HandleEntry, QueryAnswer, SystemAnswer}
use zombie_finder.ErrorText.{FormatMessage}
use zombie_finder.HeapMem.{HeapCalls}
use zombie_finder.Processes.{ProcessCalls}
use zombie_finder.SecurityUtils.{PrivilegeCalls}
use zombie_finder.Services.{ServiceCalls, no_services}
use zombie_finder.Enumeration.{ProcessAnswer, ThreadAnswer, Enumeration}
use zombie_finder.ZombieOwners.Update.{UpdateCalls, Surroundings}
use zombie_finder.ZombieOwners.Object.{ZombieOwners}

abbrev pub denied : FormatMessage
denied nt_status code = some (codes "Denied.\r\n")

abbrev pub no_parent : ProcessCalls
no_parent = record {
  open_process = λ access pid. 0;
  creation_time = λ handle. none;
  full_image_name = λ handle size. none;
  last_error = 87;
}

-- What a process is told to be, by its flags: bit 2 stands for IsProcessDeleting.
abbrev pub information : ℕ → ℕ → ProcessExtendedBasicInformation
information pid flags = record {
  size = 56;
  basic_info = record {
    exit_status = 0;
    peb_base_address = 0;
    affinity_mask = 3;
    base_priority = 8;
    unique_process_id = pid;
    inherited_from_unique_process_id = 4;
  };
  flags = flags;
}

abbrev pub zombie_process : ℕ → ℕ → List ThreadAnswer → ProcessAnswer
zombie_process handle pid threads = record {
  handle = handle;
  basic_status = 0;
  information = information pid 5;
  create_time = 10;
  exit_time = 20;
  parent_calls = no_parent;
  image_status = 0;
  image_name = codes "\\Device\\a.exe";
  open_process = λ process_id. 500;
  threads = λ process. threads;
}

abbrev pub live_process : ProcessAnswer
live_process = record (zombie_process 120 60 []) { information = information 60 3; exit_time = 0 }

abbrev pub enumeration : Enumeration
enumeration = record {
  ntdll_found = true;
  functions_found = true;
  now = 1000000000;
  processes =
      zombie_process 100 40 (record { handle = 104; thread_id = 44 } ∷ [])
      ∷ live_process
      ∷ zombie_process 108 50 []
      ∷ [];
  end_status = 0x8000001a;
}

abbrev pub heap_calls : ℕ → HeapCalls
heap_calls block = record {
  heap_to_free = 1;
  heap_to_alloc = 1;
  free = λ heap old. true;
  alloc = λ heap size. block;
  last_error = 0;
}

abbrev pub entry : ℕ → ℕ → ℕ → HandleEntry
entry object pid handle = record {
  object = object;
  unique_process_id = pid;
  handle_value = handle;
  granted_access = 0;
  creator_back_trace_index = 0;
  object_type_index = 7;
  handle_attributes = 0;
}

-- Process 77 is this one.
abbrev pub table_entries : List HandleEntry
table_entries =
    entry 900 8 12
    ∷ entry 900 77 100
    ∷ entry 901 77 104
    ∷ entry 902 77 108
    ∷ entry 901 9 16
    ∷ entry 900 9 20
    ∷ entry 999 8 24
    ∷ []

abbrev pub too_small : QueryAnswer
too_small = record {
  clear_calls = heap_calls 0;
  alloc_calls = heap_calls 7000;
  status = λ size. 0xc0000004;
  return_length = λ size. 2000;
  entries = [];
}

abbrev pub fits : QueryAnswer
fits = record too_small {
  alloc_calls = heap_calls 8000;
  status = λ size. 0;
  entries = table_entries;
}

abbrev pub system : SystemAnswer
system = record {
  ntdll_found = true;
  function_found = true;
  first_clear_calls = heap_calls 0;
  first_status = 0xc0000004;
  first_return_length = 1000;
  rounds = too_small ∷ fits ∷ [];
}

abbrev pub service_calls : ServiceCalls
service_calls = record {
  manager = 700;
  first_error = 234;
  bytes_needed = 100;
  second_call = λ size. some (
      record { process_id = 8; display_name = codes "B"; service_name = codes "b" }
      ∷ record { process_id = 4; display_name = codes "A"; service_name = codes "a" }
      ∷ []);
}

abbrev pub owner_calls : ℕ → ProcessCalls
owner_calls pid = record no_parent {
  open_process = λ access id. 600;
  full_image_name = λ handle size. some (codes "C:\\App\\c.exe");
}

abbrev pub privilege : PrivilegeCalls
privilege = record {
  token_opened = true;
  token = 64;
  open_error = 0;
  privilege_found = true;
  lookup_error = 0;
  adjusted = true;
  adjust_error = 0;
}

abbrev pub update_calls : UpdateCalls
update_calls = record {
  impersonated = true;
  impersonate_error = 0;
  privilege = privilege;
  enumeration = enumeration;
  system = system;
  current_pid = 77;
  process = owner_calls;
  service = service_calls;
  dealloc_calls = heap_calls 0;
}

abbrev pub never_updated : ZombieOwners
never_updated = record {
  owners = [];
  epoch = 0;
  owners_sorted = [];
  unexplained = [];
  process_enum_errors = [];
  n_zombie_processes_and_threads = 0;
  n_zombie_processes = 0;
  n_total_processes = 0;
}

abbrev pub world : Surroundings
world = record { services = no_services; handles = []; heap = []; impersonating = false }

abbrev pub a_time : SystemTime
a_time = record {
  year = 2024;
  month = 2;
  day = 29;
  hour = 23;
  minute = 59;
  second = 9;
  milliseconds = 7;
}

abbrev pub times : TimeCalls
times = record { to_system_time = λ ft. a_time; overflow = λ size t. take size t }

-- Every file holds two characters and can be opened.
abbrev pub writable : FileCalls
writable = record { attributes = λ name. some (0, 2); last_error = 0; opens = λ name append. true }

plain-take : (n : ℕ) (t : Text) → plain t ≡ true → plain (take n t) ≡ true
plain-take zero t h = refl
plain-take (suc n) [] h = refl
plain-take (suc n) (c ∷ t) h = ground (arith, plain-take n t)

pub times_plain : (size : ℕ) (t : Text) → plain t ≡ true → plain (times.overflow size t) ≡ true
times_plain size t h = plain-take size t h
