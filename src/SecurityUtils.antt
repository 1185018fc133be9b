-- ===== src/SecurityUtils.antt =====
-- SecurityUtils.cpp: a privilege of the token that the current thread impersonates with. The trace
-- holds the token handles that `OpenThreadToken` gave and `CloseHandle` took.
use zombie_finder.Base.{ℕ, Bool, true, false, not, ◌||◌, ◌∷◌, ◌==◌, if◌then◌else◌, arith, ◌≡◌, ◌&&◌}
use zombie_finder.Base.Text.{Text}
use zombie_finder.ErrorText.{FormatMessage, sys_error_message_with_code}
use zombie_finder.Handles.{Trace, opened, closed, live}

pub record PrivilegeCalls : Type 0 where
  -- `OpenThreadToken`, its handle, and `GetLastError` behind a failure of it.
  pub token_opened : Bool
  pub token : ℕ
  pub open_error : ℕ
  -- `LookupPrivilegeValueW` and `AdjustTokenPrivileges`, with `GetLastError` behind each of them. The
  -- latter may set ERROR_NOT_ALL_ASSIGNED and still succeed.
  pub privilege_found : Bool
  pub lookup_error : ℕ
  pub adjusted : Bool
  pub adjust_error : ℕ

-- The result, the error text, and the trace.
unfoldable pub enable_privilege :
    FormatMessage → PrivilegeCalls → Text → Trace → Bool × Text × Trace
enable_privilege format_message c error_info t =
    if not c.token_opened
    then (false, sys_error_message_with_code format_message c.open_error false, t)
    else let ret = if c.privilege_found then c.adjusted else false in
      let last_error = if c.privilege_found then c.adjust_error else c.lookup_error in
      let t' = closed c.token ∷ opened c.token ∷ t in
      if not ret || not (last_error == 0)
      then (false, sys_error_message_with_code format_message last_error false, t')
      else (true, error_info, t')

-- `EnablePrivilege` succeeds if and only if each call succeeds and `AdjustTokenPrivileges` leaves no
-- error, not even that some privilege was not assigned; and it leaves open exactly the handles that
-- were open, if the token's handle is new.
pub enable_privilege_lem :
    (format_message : FormatMessage) (c : PrivilegeCalls) (error_info : Text) (t : Trace) (h : ℕ)
    → live c.token t ≡ 0
    → let (success, _, t') = enable_privilege format_message c error_info t in
      (success ≡ (c.token_opened && c.privilege_found && c.adjusted && (c.adjust_error == 0)))
      × (live h t' ≡ live h t)
unfolding enable_privilege live
enable_privilege_lem format_message c error_info t h new = (ground arith, ground arith)
