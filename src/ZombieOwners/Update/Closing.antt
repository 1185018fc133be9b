-- ===== src/ZombieOwners/Update/Closing.antt =====
-- The handles that `Update_Impl` (ZombieOwners.cpp) leaves open.
use zombie_finder.Base.{
  ℕ, zero, suc, Option, none, some, [], inl, inr, Bool-cases, Option-cases, ◌==◌, is_some, ◌++◌,
  map,
}
use zombie_finder.Base.Map.{Map, find}
use zombie_finder.AllHandles.{
  AllHandles, HandleEntry, Read, uninitialized, value, Updated, update, no_handle_table,
  number_of_handles, for_each_handle, visit_info, handle_info,
}
use zombie_finder.ErrorText.{FormatMessage}
use zombie_finder.Handles.{Trace, Safe, open-Safe, close-Safe}
use zombie_finder.Processes.{
  ProcessCalls, query_limited_information, to_dword, path_buffer_size, get_image_path_from_pid,
}
use zombie_finder.Services.{ServiceCalls}
use zombie_finder.ZombieHandles.{
  Acquired, acquire_new_handles_to_existing_zombies, no_handles, release_acquired_handles,
}
use zombie_finder.ZombieInfo.{ZombieProcessThreadInfo}
use zombie_finder.ZombieHandles.Safety.{close_all-Safe, acquire-Safe}
use zombie_finder.ZombieOwners.{
  Attribution, zombie_of, create_owner, ensure_owner, add_handle, attribute_to, attribute,
  ZombieOwner,
}
use zombie_finder.ZombieOwners.Update.{
  UpdateCalls, Surroundings, Outcome, done, unfinished, undefined_behaviour, attribute_handles,
  destroy, finish, report, with_table, update_impl, counted,
}
use zombie_finder.ZombieOwners.Object.{ZombieOwners, sort_pointers, reset, element_pointer}

for_each-keeps :
    {S : Type 0} (P : S → Type 0) (a : AllHandles) (body : S → HandleEntry → S) (n ix : ℕ) (s : S)
    → ((q : S) (e : HandleEntry) → P q → P (body q e))
    → P s
    → P (for_each_handle a body n ix s)
unfolding for_each_handle
for_each-keeps P a body zero ix s keeps p = p
for_each-keeps P a body (suc n) ix s keeps p =
    for_each-keeps P a body n (suc ix) (visit_info body s (handle_info a ix)) keeps
      (visit (handle_info a ix))
  where
    visit : (i : Read (Option HandleEntry)) → P (visit_info body s i)
    visit uninitialized = p
    visit (value none) = p
    visit (value (some e)) = keeps s e p

module _ {m : Map ZombieProcessThreadInfo} where
  image_path-Safe :
      (format_message : FormatMessage) (calls : ProcessCalls) (pid : ℕ) (t : Trace)
      → Safe t [] m
      → Safe (get_image_path_from_pid format_message calls pid t).2 [] m
  unfolding get_image_path_from_pid
  image_path-Safe format_message calls pid t s =
      let process = calls.open_process query_limited_information (to_dword pid) in
      let closes = close-Safe process (open-Safe process s) in
      elim (Bool-cases (process == 0)) [
        | inl e ↦ rw (e, get_image_path_from_pid) s
        | inr e ↦ elim (Option-cases (calls.full_image_name process path_buffer_size)) [
          | inl n ↦ rw (e, n, get_image_path_from_pid) closes
          | inr (path, n) ↦ rw (e, n, get_image_path_from_pid) closes
        ]
      ]

  module _ (lookup : Map ZombieProcessThreadInfo) (current_pid : ℕ)
      (objects : Map ZombieProcessThreadInfo) (format_message : FormatMessage)
      (calls : ℕ → ProcessCalls) (service_calls : ServiceCalls) where
    ensure-Safe :
        (pid : ℕ) (st : Attribution)
        → Safe st.trace [] m
        → Safe
            (ensure_owner lookup current_pid objects format_message calls service_calls pid
              st).trace
            []
            m
    unfolding ensure_owner create_owner
    ensure-Safe pid st s = elim (Bool-cases (is_some (find pid st.owners))) [
      | inl e ↦ rw (e, ensure_owner) s
      | inr e ↦ rw (e, ensure_owner) (image_path-Safe format_message (calls pid) pid st.trace s)
    ]

    attribute_to-Safe :
        (st : Attribution) (e : HandleEntry) (z : Option ZombieProcessThreadInfo)
        → Safe st.trace [] m
        → Safe
            (attribute_to lookup current_pid objects format_message calls service_calls st e
              z).trace
            []
            m
    unfolding attribute_to add_handle
    attribute_to-Safe st e none s = s
    attribute_to-Safe st e (some info) s = ensure-Safe e.unique_process_id st s

    attribute-Safe :
        (st : Attribution) (e : HandleEntry)
        → Safe st.trace [] m
        → Safe
            (attribute lookup current_pid objects format_message calls service_calls st e).trace
            []
            m
    unfolding attribute
    attribute-Safe st e s = attribute_to-Safe st e (zombie_of lookup current_pid objects e) s

-- The handles that the call leaves open are none.
abbrev pub ClosesAll : Outcome → Type 0
ClosesAll unfinished = Unit
ClosesAll undefined_behaviour = Unit
ClosesAll (done r) = Safe {V = ZombieProcessThreadInfo} r.surroundings.handles [] []

module _ (format_message : FormatMessage) (c : UpdateCalls) (a : Acquired) where
  AcquiredSafely : Type 0
  AcquiredSafely = Safe a.trace [] a.handles.lookup

  attribute_handles-Safe :
      (owners : Map ZombieOwner) (world : Surroundings) (table : AllHandles) (n : ℕ)
      → AcquiredSafely
      → Safe
          (attribute_handles format_message c a owners world.services table n).trace
          []
          a.handles.lookup
  unfolding attribute_handles AcquiredSafely
  attribute_handles-Safe owners world table n s =
      for_each-keeps (λ st. Safe st.trace [] a.handles.lookup) table
        (attribute a.handles.lookup c.current_pid _ format_message c.process c.service) n 0
        (record {
          owners = owners;
          pid_lookup = a.pid_lookup;
          services = world.services;
          trace = a.trace;
        })
        (attribute-Safe a.handles.lookup c.current_pid _ format_message c.process c.service) s

  destroy-Safe :
      (table : AllHandles) (world : Surroundings)
      → Safe world.handles [] a.handles.lookup
      → Safe {V = ZombieProcessThreadInfo}
          (destroy format_message c table a.handles world).handles
          []
          []
  unfolding destroy release_acquired_handles
  destroy-Safe table world s = close_all-Safe a.handles.lookup world.handles s

  report-ClosesAll :
      (z : ZombieOwners) (table : AllHandles) (n : ℕ) (world : Surroundings)
      → AcquiredSafely
      → ClosesAll (report format_message c a z table n world)
  unfolding report finish
  report-ClosesAll z table n world s =
      let st = attribute_handles format_message c a z.owners world.services table n in
      let filled = record z { owners = st.owners } in
      let pointers = z.owners_sorted ++ map (element_pointer z.epoch) st.owners in
      elim (Option-cases (sort_pointers filled pointers)) [
        | inl e ↦ rw (e, report, finish) tt
        | inr (sorted, e) ↦
            rw (e, report, finish)
              (destroy-Safe table (record world { services = st.services; handles = st.trace })
                (attribute_handles-Safe z.owners world table n s))
      ]

  read-ClosesAll :
      (z : ZombieOwners) (table : AllHandles) (world : Surroundings) (n : Read ℕ)
      → AcquiredSafely
      → ClosesAll (elim n [
        | uninitialized ↦ undefined_behaviour
        | value k ↦ report format_message c a z table k world
      ])
  read-ClosesAll z table world uninitialized s = tt
  read-ClosesAll z table world (value k) s = report-ClosesAll z table k world s

  with_table-ClosesAll :
      (z : ZombieOwners) (world : Surroundings) (u : Updated)
      → AcquiredSafely
      → ClosesAll (with_table format_message c a z world u)
  unfolding with_table AcquiredSafely
  with_table-ClosesAll z world u s =
      let world' = record world { heap = u.trace; handles = a.trace } in
      elim (Bool-cases u.success) [
        | inl e ↦
            rw (e, with_table) (read-ClosesAll z u.object world' (number_of_handles u.object) s)
        | inr e ↦ rw (e, with_table) (destroy-Safe u.object world' s)
      ]

pub update_impl-ClosesAll :
    (format_message : FormatMessage) (c : UpdateCalls) (age : ℕ) (z : ZombieOwners)
    (world : Surroundings)
    → Safe world.handles [] no_handles.lookup
    → ClosesAll (update_impl format_message c age z world)
unfolding update_impl AcquiredSafely release_acquired_handles
update_impl-ClosesAll format_message c age z world before =
    let a =
      acquire_new_handles_to_existing_zombies format_message c.enumeration age no_handles
        world.handles in
    let safe : Safe a.trace [] a.handles.lookup =
      acquire-Safe format_message c.enumeration age no_handles world.handles before in
    elim (Bool-cases a.success) [
      | inr e ↦ rw (e, update_impl) (close_all-Safe a.handles.lookup a.trace safe)
      | inl e ↦ elim (Option-cases (update format_message c.system no_handle_table world.heap)) [
        | inl n ↦ rw (e, n, update_impl) tt
        | inr (u, n) ↦
            rw (e, n, update_impl)
              (with_table-ClosesAll format_message c a (counted a (reset z)) world u safe)
      ]
    ]
