-- ===== src/ZombieOwners/ImagePath.antt =====
-- The image path of an owner (`GetImagePathFromPID`, UtilityFunctions.cpp).
use zombie_finder.Base.Text.{c_str, Text}
use zombie_finder.Handles.{Trace}
use zombie_finder.Base.{ℕ, ◌≡◌, false, Option, none, some, arith, ◌==◌, ◌%◌, ◌^◌, if◌then◌else◌}
use zombie_finder.ErrorText.{FormatMessage, sys_error_message_with_code}
use zombie_finder.Processes.{ProcessCalls, get_image_path_from_pid, query_limited_information}

-- The path that Windows gives for a process ID, if it lets the process be opened and queried.
abbrev told_path : ProcessCalls → ℕ → Option Text
told_path calls pid =
    let process = calls.open_process query_limited_information (pid % 2 ^ 32) in
    if process == 0 then none else calls.full_image_name process 520

-- That path, up to its first NUL, or the text of the last error.
abbrev pub path_or_error : FormatMessage → ProcessCalls → ℕ → Text
path_or_error format_message calls pid = elim (told_path calls pid) [
  | none ↦ sys_error_message_with_code format_message calls.last_error false
  | some path ↦ c_str path
]

pub get_image_path_from_pid-path_or_error :
    (format_message : FormatMessage) (calls : ProcessCalls) (pid : ℕ) (t : Trace)
    → (get_image_path_from_pid format_message calls pid t).1
      ≡ path_or_error format_message calls pid
unfolding get_image_path_from_pid
get_image_path_from_pid-path_or_error format_message calls pid t = ground arith
