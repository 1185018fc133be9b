-- ===== src/FullThreadReport.antt =====
-- FullThreadReport.cpp: all processes with the numbers of their threads that run and that have exited.
-- What goes to `pStream` and to std::wcerr is collected as text.
pub mod Safety
pub mod Counts
use zombie_finder.NtInternal.{ProcessExtendedBasicInformation}
use zombie_finder.Base.{
  ℕ, suc, ◌++◌, Bool, true, false, not, Option, none, some, List, [], ◌∷◌, ◌==◌, if◌then◌else◌,
}
use zombie_finder.Base.Text.{Text, codes, decimal, c_str}
use zombie_finder.ErrorText.{FormatMessage, sys_error_message, sys_error_message_with_code}
use zombie_finder.Handles.{Trace, opened, closed}
use zombie_finder.Hex.{hex}
use zombie_finder.Processes.{to_dword}
use zombie_finder.ZombieHandles.{next_size}

-- A thread that `NtGetNextThread` reaches: its new handle, and what WaitForSingleObject returns for it.
pub record ThreadWait : Type 0 where
  pub handle : ℕ
  pub wait : ℕ

-- What the system answers about one process. The path is `none` where the buffer is a null pointer;
-- the handle count is 0 where its query fails.
pub record ProcessState : Type 0 where
  pub handle : ℕ
  pub basic_status : ℕ
  pub information : ProcessExtendedBasicInformation
  pub image_status : ℕ
  pub image_name : Option Text
  pub handle_count : ℕ
  pub wait : ℕ
  pub open_process : ℕ → ℕ
  pub threads : ℕ → List ThreadWait

pub record ReportCalls : Type 0 where
  pub ntdll_found : Bool
  pub functions_found : Bool
  pub processes : List ProcessState
  pub end_status : ℕ

-- WAIT_OBJECT_0 and WAIT_TIMEOUT; `none` where the function fails.
unfoldable pub has_exited : ℕ → Option Bool
has_exited wait = if wait == 0 then some true else if wait == 258 then some false else none

pub record ThreadCounts : Type 0 where
  pub n_active_threads : ℕ
  pub n_exited_threads : ℕ
  pub n_total_threads : ℕ

abbrev pub no_threads : ThreadCounts
no_threads = record { n_active_threads = 0; n_exited_threads = 0; n_total_threads = 0 }

unfoldable pub count_thread : Option Bool → ThreadCounts → ThreadCounts
count_thread none c = record c { n_total_threads = next_size c.n_total_threads }
count_thread (some true) c = record c {
  n_total_threads = next_size c.n_total_threads;
  n_exited_threads = next_size c.n_exited_threads;
}
count_thread (some false) c = record c {
  n_total_threads = next_size c.n_total_threads;
  n_active_threads = next_size c.n_active_threads;
}

-- `if (nullptr != h) CloseHandle(h);`
unfoldable pub close_handle : ℕ → Trace → Trace
close_handle h t = if h == 0 then t else closed h ∷ t

-- The loop over the threads: the counts, the last handle, and the trace.
unfoldable pub count_threads : List ThreadWait → ℕ → ThreadCounts → Trace → ThreadCounts × ℕ × Trace
unfolding count_thread has_exited
count_threads [] prev_thread c t = (c, prev_thread, t)
count_threads (a ∷ rest) prev_thread c t =
    count_threads rest a.handle (count_thread (has_exited a.wait) c)
      (close_handle prev_thread (opened a.handle ∷ t))

-- The handle of the process with the access for its threads, and the counts if there is one.
unfoldable pub inspect_threads : ProcessState → Trace → Option ThreadCounts × Trace
unfolding count_threads
inspect_threads a t =
    let process = a.open_process (to_dword a.information.basic_info.unique_process_id) in
    if process == 0
    then (none, t)
    else let (c, last, t') = count_threads (a.threads process) 0 no_threads (opened process ∷ t) in
      (some c, closed process ∷ close_handle last t')

abbrev tab : Text
tab = 9 ∷ []

abbrev count_columns : Option ThreadCounts → Text
count_columns none = codes "-" ++ tab ++ codes "-" ++ tab ++ codes "-"
count_columns (some c) =
    decimal c.n_active_threads
    ++ tab
    ++ decimal c.n_exited_threads
    ++ tab
    ++ decimal c.n_total_threads

unfoldable pub exe_image_path : FormatMessage → ProcessState → Text
exe_image_path format_message a =
    if a.image_status == 0
    then elim a.image_name [ none ↦ [] | some path ↦ c_str path ]
    else sys_error_message_with_code format_message a.image_status true

-- One row of the report.
unfoldable pub process_row : FormatMessage → ProcessState → Option ThreadCounts → Text
unfolding exe_image_path has_exited
process_row format_message a counts =
    let exited : Bool = elim (has_exited a.wait) [ none ↦ false | some b ↦ b ] in
    decimal a.information.basic_info.unique_process_id
    ++ tab
    ++ exe_image_path format_message a
    ++ tab
    ++ (if exited then codes "Yes" else codes "No")
    ++ tab
    ++ count_columns counts
    ++ tab
    ++ decimal a.handle_count
    ++ codes "\n"

-- The variables of the loop, and what has been written.
pub record ReportState : Type 0 where
  pub output : Text
  pub errors : Text
  pub prev_process : ℕ
  pub n_total_processes : ℕ
  pub trace : Trace

-- The error text of a failed query.
unfoldable pub query_error : FormatMessage → ℕ → ℕ → Text
query_error format_message status n_total_processes =
    codes "NtQueryInformationProcess returned "
    ++ hex 4 status 8 true true
    ++ codes " during enumeration "
    ++ decimal n_total_processes
    ++ codes "\n"
    ++ sys_error_message format_message status true
    ++ codes "\n"

-- The body of the loop over the processes.
unfoldable pub report_process : FormatMessage → ReportState → ProcessState → ReportState
unfolding inspect_threads process_row query_error close_handle
report_process format_message s a =
    let t = close_handle s.prev_process (opened a.handle ∷ s.trace) in
    let n = next_size s.n_total_processes in
    let (counts, t') = inspect_threads a t in
    if not (a.basic_status == 0)
    then record s {
      errors = s.errors ++ query_error format_message a.basic_status n;
      prev_process = a.handle;
      n_total_processes = n;
      trace = t;
    }
    else record s {
      output = s.output ++ process_row format_message a counts;
      prev_process = a.handle;
      n_total_processes = n;
      trace = t';
    }

unfoldable pub report_processes : FormatMessage → ReportState → List ProcessState → ReportState
unfolding report_process
report_processes format_message s [] = s
report_processes format_message s (a ∷ rest) =
    report_processes format_message (report_process format_message s a) rest

abbrev heading : Text
heading =
    codes "PID\tExe image path\tExited\tActive threads\tZombie threads\tTotal threads\t"
    ++ codes "Handle count\n"

unfoldable pub end_error : FormatMessage → ℕ → ℕ → Text
end_error format_message end_status n_total_processes =
    if end_status == 0x8000001a
    then []
    else codes "Process enumeration failed: NtGetNextProcess returned "
      ++ hex 4 end_status 8 true true
      ++ codes " after "
      ++ decimal n_total_processes
      ++ codes " iterations\n"
      ++ sys_error_message format_message end_status true
      ++ codes "\n"

abbrev pub report_start : Trace → ReportState
report_start t = record {
  output = heading;
  errors = [];
  prev_process = 0;
  n_total_processes = 0;
  trace = t;
}

-- The result, and what has been written.
unfoldable pub full_thread_report : FormatMessage → ReportCalls → Trace → Bool × ReportState
unfolding report_processes close_handle end_error
full_thread_report format_message c t =
    let start = report_start t in
    let s = report_processes format_message start c.processes in
    if not c.ntdll_found
    then (false, record start { output = []; errors = codes "Couldn't get module ntdll.dll\n" })
    else if not c.functions_found
    then (
      false,
      record start {
        output = [];
        errors = codes "ERROR: Unable to load functions from ntdll.dll\n";
      },
    )
    else (
      true,
      record s {
        errors = s.errors ++ end_error format_message c.end_status s.n_total_processes;
        trace = close_handle s.prev_process s.trace;
      },
    )
