-- ===== src/ZombieHandles.antt =====
-- The class of ZombieHandles.h and ZombieHandles.cpp: handles to the processes that have exited and to
-- their threads, with what is known of them.
pub mod Keys
pub mod Dump
pub mod Reread
pub mod Safety
pub mod Found
pub mod Age
pub mod Rounds
pub mod Counts
use zombie_finder.Enumeration.{ThreadAnswer, ProcessAnswer, Enumeration}
use zombie_finder.ZombieInfo.{ZombieProcessThreadInfo}
use zombie_finder.NtInternal.{is_process_deleting}
use zombie_finder.Base.{
  ℕ, ◌+◌, ◌-◌, ◌/◌, ◌%◌, ◌^◌, ◌++◌, Bool, true, false, not, ◌&&◌, ◌||◌, Option, none, some, List,
  [], ◌∷◌, ltb, leb, ◌==◌, if◌then◌else◌,
}
use zombie_finder.Base.Map.{Map, put}
use zombie_finder.Base.Text.{Text, codes, c_str, decimal}
use zombie_finder.ErrorText.{FormatMessage, sys_error_message, sys_error_message_with_code}
use zombie_finder.Handles.{Trace, opened, closed}
use zombie_finder.Hex.{hex}
use zombie_finder.Processes.{ProcessCalls, to_dword, get_parent_process_image_path_if_still_running}

pub record ZombieHandles : Type 0 where
  pub lookup : Map ZombieProcessThreadInfo
  pub n_zombie_processes : ℕ
  pub n_total_processes : ℕ

abbrev pub no_handles : ZombieHandles
no_handles = record { lookup = []; n_zombie_processes = 0; n_total_processes = 0 }

abbrev pub status_success : ℕ
status_success = 0

abbrev pub status_no_more_entries : ℕ
status_no_more_entries = 0x8000001a

-- `++` on a `size_t` of the 64-bit build, and on a `ULONG`.
abbrev pub next_size : ℕ → ℕ
next_size n = (n + 1) % 2 ^ 64

abbrev pub next_ulong : ℕ → ℕ
next_ulong n = (n + 1) % 2 ^ 32

-- The process has exited, and long enough ago. A FILETIME counts 10,000,000 to the second.
unfoldable pub is_old_enough : ℕ → ℕ → ℕ → Bool
is_old_enough age now exit_time =
    not (exit_time == 0)
    && ((age == 0) || (ltb exit_time now && leb age ((now - exit_time) / 10000000)))

-- The variables of the loop.
pub record Loop : Type 0 where
  pub handles : ZombieHandles
  pub pid_lookup : Map ZombieProcessThreadInfo
  pub errors : List Text
  pub prev_process : ℕ
  pub close_prev_process : Bool
  pub trace : Trace

-- The loop over the threads of a zombie: each handle is stored with the thread's identity.
unfoldable pub add_threads :
    ZombieProcessThreadInfo
    → List ThreadAnswer
    → ℕ
    → Map ZombieProcessThreadInfo
    → Trace
    → ℕ × Map ZombieProcessThreadInfo × Trace
add_threads info [] n lookup t = (n, lookup, t)
add_threads info (a ∷ rest) n lookup t =
    add_threads info rest (next_ulong n) (put a.handle (record info { tid = a.thread_id }) lookup)
      (opened a.handle ∷ t)

-- The handle with `PROCESS_QUERY_INFORMATION` serves the thread loop and is closed behind it.
unfoldable pub open_threads :
    ProcessAnswer
    → ZombieProcessThreadInfo
    → Map ZombieProcessThreadInfo
    → Trace
    → ℕ × Map ZombieProcessThreadInfo × Trace
unfolding add_threads
open_threads a info lookup t =
    let process = a.open_process (to_dword info.pid) in
    if process == 0
    then (0, lookup, t)
    else let (n, lookup', t') =
        add_threads info (a.threads process) 0 lookup (opened process ∷ t) in
      (n, lookup', closed process ∷ t')

-- What the code knows of a zombie before it looks for its threads.
unfoldable pub zombie_info : ProcessAnswer → Text → ZombieProcessThreadInfo
zombie_info a parent_image_path = record {
  pid = a.information.basic_info.unique_process_id;
  tid = 0;
  image_path = if a.image_status == status_success then c_str a.image_name else [];
  create_time = a.create_time;
  exit_time = a.exit_time;
  n_threads = 0;
  parent_pid = a.information.basic_info.inherited_from_unique_process_id;
  parent_image_path = parent_image_path;
}

-- "It's a zombie".
unfoldable pub add_zombie : ProcessAnswer → Loop → Loop
unfolding open_threads zombie_info get_parent_process_image_path_if_still_running
add_zombie a l =
    let (_, parent_image_path, t) =
      get_parent_process_image_path_if_still_running a.parent_calls
        a.information.basic_info.inherited_from_unique_process_id a.create_time l.trace in
    let info = zombie_info a parent_image_path in
    let (n_threads, lookup, t') = open_threads a info l.handles.lookup t in
    let process_info = record info { n_threads = n_threads } in
    record l {
      handles = record {
        lookup = put a.handle process_info lookup;
        n_zombie_processes = next_size l.handles.n_zombie_processes;
        n_total_processes = l.handles.n_total_processes;
      };
      pid_lookup = put info.pid process_info l.pid_lookup;
      close_prev_process = false;
      trace = t';
    }

unfoldable pub basic_information_error : FormatMessage → ProcessAnswer → ℕ → Text
basic_information_error format_message a n_total_processes =
    codes "NtQueryInformationProcess failed during enumeration "
    ++ decimal n_total_processes
    ++ codes ": "
    ++ sys_error_message_with_code format_message a.basic_status true

-- What one round does with the process, once the handle of the round before is closed.
unfoldable pub inspect : FormatMessage → ℕ → ℕ → ProcessAnswer → Loop → Loop
unfolding is_old_enough add_zombie basic_information_error is_process_deleting
inspect format_message age now a l =
    if not (a.basic_status == status_success)
    then record l {
      errors =
          l.errors ++ basic_information_error format_message a l.handles.n_total_processes ∷ [];
    }
    else if is_process_deleting a.information && is_old_enough age now a.exit_time
    then add_zombie a l
    else l

-- `CloseHandle(hPrevProcess)`, if that handle is set and was not stored.
unfoldable pub close_prev : Bool → ℕ → Trace → Trace
close_prev close_prev_process prev_process t =
    if close_prev_process && not (prev_process == 0) then closed prev_process ∷ t else t

-- One round of the loop.
unfoldable pub visit : FormatMessage → ℕ → ℕ → Loop → ProcessAnswer → Loop
unfolding inspect close_prev
visit format_message age now l a =
    let started = record l {
      handles = record (l.handles) { n_total_processes = next_size l.handles.n_total_processes };
      close_prev_process = true;
      trace = close_prev l.close_prev_process l.prev_process (opened a.handle ∷ l.trace);
    } in
    record (inspect format_message age now a started) { prev_process = a.handle }

unfoldable pub visit_all : FormatMessage → ℕ → ℕ → Loop → List ProcessAnswer → Loop
unfolding visit
visit_all format_message age now l [] = l
visit_all format_message age now l (a ∷ rest) =
    visit_all format_message age now (visit format_message age now l a) rest

-- `CloseHandle` for each key, in the order of the iteration.
unfoldable pub close_all : Map ZombieProcessThreadInfo → Trace → Trace
close_all [] t = t
close_all ((h, _) ∷ m) t = close_all m (closed h ∷ t)

unfoldable pub release_acquired_handles : ZombieHandles → Trace → ZombieHandles × Trace
unfolding close_all
release_acquired_handles z t = (record z { lookup = [] }, close_all z.lookup t)

-- What a call gives back: the result, the object, the two output collections, the error text.
pub record Acquired : Type 0 where
  pub success : Bool
  pub handles : ZombieHandles
  pub pid_lookup : Map ZombieProcessThreadInfo
  pub errors : List Text
  pub error_info : Text
  pub trace : Trace

unfoldable pub enumeration_error : FormatMessage → ℕ → ℕ → Text
enumeration_error format_message end_status n_total_processes =
    codes "Process enumeration failed: NtGetNextProcess returned "
    ++ hex 4 end_status 8 true true
    ++ codes " after "
    ++ decimal n_total_processes
    ++ codes " iterations: "
    ++ sys_error_message format_message end_status true

-- The variables before the loop.
abbrev pub loop_start : ZombieHandles → Trace → Loop
loop_start z t = record {
  handles = z;
  pid_lookup = [];
  errors = [];
  prev_process = 0;
  close_prev_process = false;
  trace = t;
}

-- The loop over all processes, the last close, and the report of an unexpected end.
unfoldable pub enumerate : FormatMessage → Enumeration → ℕ → ZombieHandles → Trace → Acquired
unfolding visit_all close_prev
enumerate format_message e age z t =
    let l = visit_all format_message age e.now (loop_start z t) e.processes in
    record {
      success = true;
      handles = l.handles;
      pid_lookup = l.pid_lookup;
      errors =
          if e.end_status == status_no_more_entries
          then l.errors
          else l.errors
            ++ enumeration_error format_message e.end_status l.handles.n_total_processes ∷ [];
      error_info = [];
      trace = close_prev l.close_prev_process l.prev_process l.trace;
    }

-- What a call gives back that stops before the enumeration.
unfoldable pub refused : ZombieHandles → Text → Trace → Acquired
refused z error_info t = record {
  success = false;
  handles = z;
  pid_lookup = [];
  errors = [];
  error_info = error_info;
  trace = t;
}

unfoldable pub acquire_new_handles_to_existing_zombies :
    FormatMessage → Enumeration → ℕ → ZombieHandles → Trace → Acquired
unfolding release_acquired_handles enumerate refused
acquire_new_handles_to_existing_zombies format_message e age z t =
    let (released, t') = release_acquired_handles z t in
    let empty = record released { n_zombie_processes = 0; n_total_processes = 0 } in
    if not e.ntdll_found
    then refused empty (codes "Couldn't get module ntdll.dll") t'
    else if not e.functions_found
    then refused empty (codes "ERROR: Unable to load functions from ntdll.dll") t'
    else enumerate format_message e age empty t'
