-- ===== src/Tests/Session.antt =====
-- Runs of `ZombieOwners::Update` without the privilege, and of the service lookup.
use zombie_finder.FileOutput.{create_file_output}
use zombie_finder.Base.Map.{find}
use zombie_finder.Base.Ordered.{IsAscending, put_in_order}
use zombie_finder.Base.Text.{codes}
use zombie_finder.Services.Requests.{Request, look_up, dump, serve_all, serve_all-tidy}
use zombie_finder.Base.{
  ◌≡◌, refl, true, false, not, ◌&&◌, [], ◌∷◌, none, is_some, List, subst, sym, arith,
}
use zombie_finder.ErrorText.{sys_error_message_with_code}
use zombie_finder.Handles.{opened, closed, live, Accounted, Fresh, NoTable}
use zombie_finder.SecurityUtils.{enable_privilege}
use zombie_finder.Services.{lookup_services_by_pid, no_services, ServiceCalls}
use zombie_finder.Services.Lookup.{lookup_services_by_pid_lem, with_more, services_of, enumerated}
use zombie_finder.ZombieOwners.Update.{
  UpdateCalls, UpdateResult, update_owners, done, privilege_error,
}
use zombie_finder.ZombieOwners.Update.Privilege.{update_owners-impersonating}
use zombie_finder.Tests.Scenario.{
  denied, privilege, update_calls, never_updated, world, service_calls, writable,
}

-- AdjustTokenPrivileges leaves ERROR_NOT_ALL_ASSIGNED.
abbrev unprivileged : UpdateCalls
unprivileged = record update_calls { privilege = record privilege { adjust_error = 1300 } }

abbrev refused : UpdateResult
refused = record {
  success = false;
  object = never_updated;
  error_info = privilege_error (sys_error_message_with_code denied 1300 false);
  surroundings = record world { handles = closed 64 ∷ opened 64 ∷ []; impersonating = true };
}

update_refused : update_owners denied unprivileged 3 never_updated world ≡ done refused
unfolding update_owners enable_privilege
update_refused = refl

update_owners-impersonating_example :
    let (enabled, _, _) = enable_privilege denied unprivileged.privilege [] world.handles in
    refused.surroundings.impersonating ≡ (unprivileged.impersonated && not enabled)
update_owners-impersonating_example =
    update_owners-impersonating denied unprivileged 3 never_updated world refused refl
      update_refused

lookup_services_by_pid_lem_example :
    let (found, list, s) = lookup_services_by_pid service_calls no_services 8 in
    (list ≡ with_more none (services_of 8 (enumerated service_calls)))
    × (found ≡ is_some list)
    × (lookup_services_by_pid service_calls s 8 ≡ (found, list, s))
lookup_services_by_pid_lem_example = lookup_services_by_pid_lem service_calls service_calls 8

abbrev requests : List (ServiceCalls × Request)
requests =
    (service_calls, look_up 8)
    ∷ (service_calls, dump (codes "D:\\s.txt") false)
    ∷ (service_calls, look_up 4)
    ∷ []

served : serve_all writable no_services requests ≡ record {
  lookup =
      (4, record { service_name = codes "a"; display_name = codes "A" } ∷ [])
      ∷ (8, record { service_name = codes "b"; display_name = codes "B" } ∷ [])
      ∷ [];
  initialized = true;
  managers = closed 700 ∷ opened 700 ∷ [];
}
unfolding serve_all find put_in_order create_file_output
served = refl

serve_all-tidy_example :
    let s = serve_all writable no_services requests in
    IsAscending s.lookup × Accounted s.managers [] NoTable
unfolding live
serve_all-tidy_example =
    serve_all-tidy writable requests
      (subst (λ s. Fresh s.managers) (sym served) (λ e. omega (arith, e), refl, tt))
