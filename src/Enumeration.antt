-- ===== src/Enumeration.antt =====
-- What the system answers while `AcquireNewHandlesToExistingZombies` (ZombieHandles.cpp) runs. The
-- enumeration by `NtGetNextProcess` is the list of what the system answers about each process that it
-- reaches, and the status that ends it. A null `Buffer` of an image name is not among these answers.
use zombie_finder.Base.{ℕ, Bool, List}
use zombie_finder.Base.Text.{Text}
use zombie_finder.NtInternal.{ProcessExtendedBasicInformation}
use zombie_finder.Processes.{ProcessCalls}

-- A thread that `NtGetNextThread` reaches: the new handle, and what `GetThreadId` says of it.
pub record ThreadAnswer : Type 0 where
  pub handle : ℕ
  pub thread_id : ℕ

-- What the system answers about one process of the enumeration.
pub record ProcessAnswer : Type 0 where
  -- The handle that `NtGetNextProcess` opens.
  pub handle : ℕ
  -- `NtQueryInformationProcess` with `ProcessBasicInformation`: its status, and what it fills in.
  pub basic_status : ℕ
  pub information : ProcessExtendedBasicInformation
  -- `GetProcessTimes`; both are 0 where the call fails, as the structure is zeroed before it.
  pub create_time : ℕ
  pub exit_time : ℕ
  -- The calls that look for the parent.
  pub parent_calls : ProcessCalls
  -- `NtQueryInformationProcess` with `ProcessImageFileName`.
  pub image_status : ℕ
  pub image_name : Text
  -- `OpenProcess` with `PROCESS_QUERY_INFORMATION`, and the threads that its handle leads to.
  pub open_process : ℕ → ℕ
  pub threads : ℕ → List ThreadAnswer

-- What the system answers to one call of `AcquireNewHandlesToExistingZombies`.
pub record Enumeration : Type 0 where
  pub ntdll_found : Bool
  pub functions_found : Bool
  pub now : ℕ
  pub processes : List ProcessAnswer
  -- The status of the call of `NtGetNextProcess` that finds no process any more.
  pub end_status : ℕ
