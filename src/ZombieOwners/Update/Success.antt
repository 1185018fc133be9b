-- ===== src/ZombieOwners/Update/Success.antt =====
-- The result of `Update_Impl` (ZombieOwners.cpp) where both queries succeed.
use zombie_finder.Base.{
  ℕ, ◌≡◌, refl, ap, sym, ◌∙◌, true, some, List, [], ◌++◌, map, length, subst, Among,
}
use zombie_finder.Base.Map.{Map, find, Distinct}
use zombie_finder.AllHandles.{
  HandleEntry, AllHandles, for_each_handle, update, no_handle_table, QueryAnswer, Updated,
}
use zombie_finder.AllHandles.Iteration.{run_over, Holds, for_each_handle-run_over}
use zombie_finder.ErrorText.{FormatMessage}
use zombie_finder.ZombieHandles.{Acquired, acquire_new_handles_to_existing_zombies, no_handles}
use zombie_finder.ZombieOwners.{ZombieOwner, Attribution, map_object, attribute}
use zombie_finder.ZombieOwners.Owned.{handles_of, pid_lookup-attribute}
use zombie_finder.ZombieOwners.Entries.{described}
use zombie_finder.ZombieOwners.Exact.{find-attribute, expected-pid}
use zombie_finder.ZombieHandles.Keys.{acquired-Distinct}
use zombie_finder.ZombieOwners.Sorting.{sort_owners, sort_owners_lem}
use zombie_finder.ZombieOwners.Update.Described.{IsSortedView, IsCounted, IsReport}
use zombie_finder.ZombieOwners.Update.{
  UpdateCalls, update_impl, counted, Surroundings, UpdateResult, done, attribute_handles, finish,
  report,
}
use zombie_finder.ZombieOwners.Object.{
  ZombieOwners, reset, load_all, sort_pointers, element_pointer,
}
use zombie_finder.ZombieOwners.Update.Report.{
  load_all-pointers, sort_pointers-pointers, sorted-AreIn, collected, find-objects,
  attribute-Distinct, attribute-once, update_impl-report,
}

abbrev values : Map ZombieOwner → List ZombieOwner
values m = map (λ e. e.1) m

finish-done :
    (format_message : FormatMessage) (c : UpdateCalls) (a : Acquired) (z : ZombieOwners)
    (table : AllHandles) (world : Surroundings) (st : Attribution)
    → z.owners_sorted ≡ []
    → Distinct st.owners
    → ((pid : ℕ) (o : ZombieOwner) → find pid st.owners ≡ some o → o.pid ≡ pid)
    → IsCounted a z
    → (r : UpdateResult) × (finish format_message c a z table world st ≡ done r)
      × (r.success ≡ true)
      × IsSortedView r.object
      × (r.object.owners ≡ st.owners)
      × (r.object.unexplained ≡ map (λ e. e.1) st.pid_lookup)
      × IsCounted a r.object
unfolding finish sort_owners load_all
finish-done format_message c a z table world st none_yet d h counts =
    let filled = record z { owners = st.owners } in
    let (are_in, pointers) = collected z.epoch st.owners st.owners (λ k o e. (e, h k o e)) d in
    let sorts =
      ap (λ l. sort_pointers filled (l ++ map (element_pointer z.epoch) st.owners)) none_yet
      ∙ ap (sort_pointers filled) pointers
      ∙ sort_pointers-pointers filled (values st.owners) are_in in
    let (same, in_order) = sort_owners_lem (values st.owners) in
    rw (sorts, finish)
      (
        _,
        refl,
        refl,
        record {
          view = sort_owners (values st.owners);
          loads =
              load_all-pointers filled (sort_owners (values st.owners))
                (sorted-AreIn st.owners (values st.owners) are_in);
          elements = same;
          in_order = in_order;
        },
        refl,
        refl,
        counts,
      )

report-IsReport :
    (format_message : FormatMessage) (c : UpdateCalls) (a : Acquired) (z : ZombieOwners)
    (table : AllHandles) (entries : List HandleEntry) (world : Surroundings)
    → z.owners ≡ []
    → z.owners_sorted ≡ []
    → Distinct a.pid_lookup
    → IsCounted a z
    → Holds table entries
    → (r : UpdateResult) × (report format_message c a z table (length entries) world ≡ done r)
      × (r.success ≡ true)
      × IsReport format_message c world.services a entries r.object
unfolding report attribute_handles find
report-IsReport format_message c a z table entries world no_owners none_yet once counts holds =
    let lookup = a.handles.lookup in
    let start : Attribution = record {
      owners = z.owners;
      pid_lookup = a.pid_lookup;
      services = world.services;
      trace = a.trace;
    } in
    let objects = run_over (map_object lookup c.current_pid) [] entries in
    let body = attribute lookup c.current_pid objects format_message c.process c.service in
    let st = run_over body start entries in
    let loops : attribute_handles format_message c a z.owners world.services table (length entries)
        ≡ st =
      ap
        (λ o.
          for_each_handle table
            (attribute lookup c.current_pid o format_message c.process c.service) (length entries) 0
            start)
        (for_each_handle-run_over table (map_object lookup c.current_pid) entries [] holds).1
      ∙ (for_each_handle-run_over table body entries start holds).1 in
    let exact = λ (pid : ℕ).
      find-attribute lookup objects c.current_pid format_message c.process c.service start entries
        pid no_owners in
    let distinct =
      attribute-Distinct lookup c.current_pid objects format_message c.process c.service start
        entries (subst Distinct (sym no_owners) tt) in
    let (r, is, ok, view, owners, unexplained, counts') =
      finish-done format_message c a z table world st none_yet distinct
        (λ pid o e.
          expected-pid (described format_message c.process c.service world.services pid)
            (handles_of lookup c.current_pid objects pid entries) o (sym (exact pid) ∙ e))
        counts in
    (
      r,
      ap (finish format_message c a z table world) loops ∙ is,
      ok,
      record {
        objects = objects;
        objects_are = find-objects lookup c.current_pid [] entries;
        owners_are = λ pid. ap (find pid) owners ∙ exact pid;
        each_once = subst Distinct (sym owners) distinct;
        sorted_view = view;
        remaining = st.pid_lookup;
        unexplained_are = unexplained;
        remaining_are =
            pid_lookup-attribute lookup c.current_pid objects format_message c.process c.service
              start entries;
        remaining_once =
            attribute-once lookup c.current_pid objects format_message c.process c.service start
              entries once;
        counted = counts';
      },
    )

no_owners : (z : ZombieOwners) → (reset z).owners ≡ []
unfolding reset
no_owners z = refl

cleared : (z : ZombieOwners) → z.owners_sorted ≡ [] → (reset z).owners_sorted ≡ []
unfolding reset
cleared z e = e

reset-IsCounted : (a : Acquired) (z : ZombieOwners) → IsCounted a (counted a (reset z))
reset-IsCounted a z = (refl, refl, refl, refl)

-- What a call for which the enumeration and the query succeed makes of the table that the query leaves.
pub update_impl-held-IsReport :
    (format_message : FormatMessage) (c : UpdateCalls) (age : ℕ) (z : ZombieOwners)
    (world : Surroundings) (u : Updated)
    → let a =
        acquire_new_handles_to_existing_zombies format_message c.enumeration age no_handles
          world.handles in
      z.owners_sorted ≡ []
      → a.success ≡ true
      → update format_message c.system no_handle_table world.heap ≡ some u
      → u.success ≡ true
      → (r : UpdateResult) × (q : QueryAnswer) × (update_impl format_message c age z world ≡ done r)
        × (r.success ≡ true)
        × Among q c.system.rounds
        × Holds u.object q.entries
        × IsReport format_message c world.services a q.entries r.object
update_impl-held-IsReport format_message c age z world u none_yet acquired updated ok =
    let a =
      acquire_new_handles_to_existing_zombies format_message c.enumeration age no_handles
        world.handles in
    let (q, among, holds, goes) =
      update_impl-report format_message c age z world u acquired updated ok in
    let (r, is, success, right) =
      report-IsReport format_message c a (counted a (reset z)) u.object q.entries
        (record world { heap = u.trace; handles = a.trace }) (no_owners z) (cleared z none_yet)
        (acquired-Distinct format_message c.enumeration age no_handles world.handles acquired)
        (reset-IsCounted a z) holds in
    (r, q, goes ∙ is, success, among, holds, right)

-- On an object whose sorted collection is empty, a call for which the enumeration and the query
-- for the handle table succeed returns with success. For what the enumeration found and the
-- entries of one of the answers to the query, the object then has an owner for each process with a
-- handle to one of the zombies' kernel objects that is not the program's own, and for no other, with
-- these handles in the order of the table, the image path or error text that Windows gives for its
-- process ID, the last part of that, and its services. The object leads by its sorted collection to
-- each owner once, in the order of the comparator, lists as unexplained the zombies to whose process
-- ID no such handle leads, each ID once, and holds the errors and the counts of the enumeration.
pub update_impl-IsReport :
    (format_message : FormatMessage) (c : UpdateCalls) (age : ℕ) (z : ZombieOwners)
    (world : Surroundings) (u : Updated)
    → let a =
        acquire_new_handles_to_existing_zombies format_message c.enumeration age no_handles
          world.handles in
      z.owners_sorted ≡ []
      → a.success ≡ true
      → update format_message c.system no_handle_table world.heap ≡ some u
      → u.success ≡ true
      → (r : UpdateResult) × (q : QueryAnswer) × (update_impl format_message c age z world ≡ done r)
        × (r.success ≡ true)
        × Among q c.system.rounds
        × IsReport format_message c world.services a q.entries r.object
update_impl-IsReport format_message c age z world u none_yet acquired updated ok =
    let (r, q, is, success, among, holds, right) =
      update_impl-held-IsReport format_message c age z world u none_yet acquired updated ok in
    (r, q, is, success, among, right)
