-- ===== src/Processes.antt =====
-- UtilityFunctions.cpp: the image path of a process and of a parent that still runs. The calls of
-- Windows are not part of the program: `ProcessCalls` holds what they answer during one call of
-- these functions, as functions of the arguments that the code passes.
pub mod Ago
use zombie_finder.Base.{
  ℕ, ◌%◌, ◌^◌, Bool, true, false, Option, none, some, List, [], ◌∷◌, ltb, ◌==◌, if◌then◌else◌,
}
use zombie_finder.Base.Text.{Text, c_str}
use zombie_finder.ErrorText.{FormatMessage, sys_error_message_with_code}
use zombie_finder.Handles.{Trace, opened, closed}

-- The access that `OpenProcess` is asked for.
pub data Access : Type 0 where
  query_limited_information query_information : Access

pub record ProcessCalls : Type 0 where
  -- `OpenProcess`: a handle, or 0 for NULL.
  pub open_process : Access → ℕ → ℕ
  -- `GetProcessTimes`: the creation time, if the call succeeds.
  pub creation_time : ℕ → Option ℕ
  -- `QueryFullProcessImageNameW` with the size of the buffer: the path, if the call succeeds.
  pub full_image_name : ℕ → ℕ → Option Text
  -- `GetLastError` where the code asks for it.
  pub last_error : ℕ

-- `DWORD(pid)`.
abbrev pub to_dword : ℕ → ℕ
to_dword pid = pid % 2 ^ 32

-- The buffers hold MAX_PATH * 2 characters; MAX_PATH is 260.
abbrev pub path_buffer_size : ℕ
path_buffer_size = 520

unfoldable pub get_image_path_from_pid :
    FormatMessage → ProcessCalls → ℕ → Trace → Bool × Text × Trace
get_image_path_from_pid format_message calls pid t =
    let process = calls.open_process query_limited_information (to_dword pid) in
    if process == 0
    then (false, sys_error_message_with_code format_message calls.last_error false, t)
    else elim (calls.full_image_name process path_buffer_size) [
      | some path ↦ (true, c_str path, closed process ∷ opened process ∷ t)
      | none ↦ (
        false,
        sys_error_message_with_code format_message calls.last_error false,
        closed process ∷ opened process ∷ t,
      )
    ]

-- The part under `ulStartTime < ulChildStartTime`: the result and the path.
unfoldable pub parent_path : ProcessCalls → ℕ → ℕ → Bool × Text
parent_path calls child_start_time process = elim (calls.creation_time process) [
  | none ↦ (false, [])
  | some start_time ↦
      if ltb start_time child_start_time
      then elim (calls.full_image_name process path_buffer_size) [
        | none ↦ (true, [])
        | some path ↦ (true, c_str path)
      ]
      else (false, [])
]

unfoldable pub get_parent_process_image_path_if_still_running :
    ProcessCalls → ℕ → ℕ → Trace → Bool × Text × Trace
unfolding parent_path
get_parent_process_image_path_if_still_running calls ppid child_start_time t =
    let process = calls.open_process query_limited_information (to_dword ppid) in
    if process == 0
    then (false, [], t)
    else let (found, path) = parent_path calls child_start_time process in
      (found, path, closed process ∷ opened process ∷ t)
