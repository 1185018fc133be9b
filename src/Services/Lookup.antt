-- ===== src/Services/Lookup.antt =====
-- What the service lookup tells of a process.
use zombie_finder.Base.Ordered.{find-put_in_order}
use zombie_finder.Base.{
  ℕ, ◌≡◌, refl, ap, sym, ◌∙◌, Option, none, some, List, [], ◌∷◌, ◌++◌, inl, inr, arith, ◌==◌,
  if◌then◌else◌, is_some, Option-cases, append_assoc, append-nil,
}
use zombie_finder.Base.Map.{Map, find}
use zombie_finder.Base.Text.{c_str}
use zombie_finder.Services.{
  ServiceNames, ServiceList, ServiceStatus, ServiceCalls, no_services, add_service, add_services,
  initialize_service_lookup, lookup_services_by_pid, services_buffer_size, enumerate_services,
}

abbrev names_of : ServiceStatus → ServiceNames
names_of svc = record {
  service_name = c_str svc.service_name;
  display_name = c_str svc.display_name;
}

-- The services of a process, in the order of the enumeration.
abbrev pub services_of : ℕ → List ServiceStatus → ServiceList
services_of pid [] = []
services_of pid (svc ∷ rest) =
    (if svc.process_id == pid then names_of svc ∷ [] else []) ++ services_of pid rest

-- A list of services with more of them behind it; a process without services has no list.
abbrev pub with_more : Option ServiceList → ServiceList → Option ServiceList
with_more none [] = none
with_more none (x ∷ xs) = some (x ∷ xs)
with_more (some l) xs = some (l ++ xs)

with_more-nil : (l : Option ServiceList) → with_more l [] ≡ l
with_more-nil none = refl
with_more-nil (some l) = ap some (append-nil l)

with_more-append :
    (l : Option ServiceList) (xs ys : ServiceList)
    → with_more (with_more l xs) ys ≡ with_more l (xs ++ ys)
with_more-append none [] ys = refl
with_more-append none (x ∷ xs) ys = refl
with_more-append (some l) xs ys = ap some (append_assoc l xs ys)

find-add_service :
    (pid : ℕ) (svc : ServiceStatus) (m : Map ServiceList)
    → find pid (add_service m svc)
      ≡ with_more (find pid m) (if svc.process_id == pid then names_of svc ∷ [] else [])
unfolding add_service
find-add_service pid svc m = elim (Option-cases (find svc.process_id m)) [
  | inl n ↦
      rw (n, add_service)
        (ground (
          arith,
          find-put_in_order svc.process_id pid (names_of svc ∷ []) m,
          with_more-nil (find pid m),
          n,
        ))
  | inr (l, n) ↦
      rw (n, add_service)
        (ground (
          arith,
          find-put_in_order svc.process_id pid (l ++ names_of svc ∷ []) m,
          with_more-nil (find pid m),
          n,
        ))
]

find-add_services :
    (pid : ℕ) (svcs : List ServiceStatus) (m : Map ServiceList)
    → find pid (add_services m svcs) ≡ with_more (find pid m) (services_of pid svcs)
unfolding add_services
find-add_services pid [] m = sym (with_more-nil (find pid m))
find-add_services pid (svc ∷ rest) m =
    find-add_services pid rest (add_service m svc)
    ∙ ap (λ l. with_more l (services_of pid rest)) (find-add_service pid svc m)
    ∙ with_more-append (find pid m) _ (services_of pid rest)

-- The records that the service control manager gives; none, if one of the calls fails.
abbrev pub enumerated : ServiceCalls → List ServiceStatus
enumerated c =
    if c.manager == 0
    then []
    else if c.first_error == 234
    then elim (c.second_call (services_buffer_size c.bytes_needed)) [ none ↦ [] | some svcs ↦ svcs ]
    else []

find-initialized :
    (calls : ServiceCalls) (pid : ℕ)
    → find pid (initialize_service_lookup calls no_services).lookup
      ≡ with_more none (services_of pid (enumerated calls))
unfolding initialize_service_lookup enumerate_services find
find-initialized calls pid =
    elim (Option-cases (calls.second_call (services_buffer_size calls.bytes_needed))) [
      | inl e ↦ rw e (ground arith)
      | inr (svcs, e) ↦ rw e (ground (arith, find-add_services pid svcs []))
    ]

-- The first lookup gives a process exactly its services, in the order of the enumeration, and none if
-- it has none or the enumeration fails; and whatever the service control manager would answer later,
-- each further lookup of the process gives the same and changes nothing.
pub lookup_services_by_pid_lem :
    (calls later : ServiceCalls) (pid : ℕ)
    → let (found, list, s) = lookup_services_by_pid calls no_services pid in
      (list ≡ with_more none (services_of pid (enumerated calls)))
      × (found ≡ is_some list)
      × (lookup_services_by_pid later s pid ≡ (found, list, s))
unfolding lookup_services_by_pid initialize_service_lookup find
lookup_services_by_pid_lem calls later pid = (find-initialized calls pid, refl, ground arith)
