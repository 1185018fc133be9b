-- ===== src/ZombieOwners/Update/Report.antt =====
-- What follows the two queries in `Update_Impl` (ZombieOwners.cpp), on an empty sorted collection.
use zombie_finder.Base.{
  ℕ, ◌≡◌, refl, ap, sym, ◌∙◌, true, Option, none, some, List, [], ◌∷◌, map, arith, length, All,
  Among, subst,
}
use zombie_finder.Base.Map.{Map, find, Distinct, put-Distinct, erase-Distinct}
use zombie_finder.AllHandles.{HandleEntry, Updated, QueryAnswer, update, no_handle_table}
use zombie_finder.Handles.{Trace}
use zombie_finder.AllHandles.Iteration.{run_over, Holds, for_each_handle-run_over}
use zombie_finder.AllHandles.Query.{update-IsFilled}
use zombie_finder.ErrorText.{FormatMessage}
use zombie_finder.Processes.{ProcessCalls}
use zombie_finder.Services.{ServiceCalls}
use zombie_finder.ZombieHandles.{acquire_new_handles_to_existing_zombies, no_handles}
use zombie_finder.ZombieInfo.{ZombieProcessThreadInfo}
use zombie_finder.ZombieOwners.{
  ZombieOwner, Attribution, map_object, zombie_of, new_owner, ensure_owner, create_owner,
  add_handle, attribute_to, attribute,
}
use zombie_finder.ZombieOwners.Owned.{last_own, find-map_object}
use zombie_finder.ZombieOwners.Entries.{pushed}
use zombie_finder.ZombieOwners.Sorting.{sort_owners, sort_owners-fixed, sort_owners_lem, Perm-All}
use zombie_finder.ZombieOwners.Update.{
  UpdateCalls, Surroundings, update_impl, with_table, counted, report,
}
use zombie_finder.ZombieOwners.Object.{
  ZombieOwners, pointer_to, element_pointer, reset, load, load_all, sort_pointers,
}

-- The owners stand in the map under their process IDs.
abbrev pub AreIn : Map ZombieOwner → List ZombieOwner → Type 0
AreIn owners l = All (λ o. find o.pid owners ≡ some o) l

pub load_all-pointers :
    (z : ZombieOwners) (l : List ZombieOwner)
    → AreIn z.owners l
    → load_all z (map (pointer_to z.epoch) l) ≡ some l
unfolding load_all load
load_all-pointers z [] h = refl
load_all-pointers z (o ∷ l) h = ground (arith, h.0, load_all-pointers z l h.1)

pub sort_pointers-pointers :
    (z : ZombieOwners) (l : List ZombieOwner)
    → AreIn z.owners l
    → sort_pointers z (map (pointer_to z.epoch) l) ≡ some (map (pointer_to z.epoch) (sort_owners l))
unfolding sort_pointers
sort_pointers-pointers z [] h =
    ap (λ l. some (map (pointer_to z.epoch) l)) (sym (sort_owners-fixed [] tt))
sort_pointers-pointers z (o ∷ []) h =
    ap (λ l. some (map (pointer_to z.epoch) l)) (sym (sort_owners-fixed (o ∷ []) (tt, tt)))
sort_pointers-pointers z (o ∷ p ∷ l) h = rw (load_all-pointers z (o ∷ p ∷ l) h) (ground arith)

pub sorted-AreIn :
    (owners : Map ZombieOwner) (l : List ZombieOwner)
    → AreIn owners l
    → AreIn owners (sort_owners l)
sorted-AreIn owners l h =
    Perm-All (λ o. find o.pid owners ≡ some o) l (sort_owners l) (sort_owners_lem l).0 h

-- The elements of a map, and the pointers to them that the loop over the map collects.
pub collected :
    (epoch : ℕ) (whole m : Map ZombieOwner)
    → ((k : ℕ) (o : ZombieOwner) → find k m ≡ some o → (find k whole ≡ some o) × (o.pid ≡ k))
    → Distinct m
    → AreIn whole (map (λ e. e.1) m)
      × (map (element_pointer epoch) m ≡ map (pointer_to epoch) (map (λ e. e.1) m))
unfolding find
collected epoch whole [] h d = (tt, refl)
collected epoch whole ((k, v) ∷ m) h d =
    let (at, same) = h k v (ground arith) in
    let (rest, pointers) = collected epoch whole m (λ j o e. h j o (ground (arith, d.0, e))) d.1 in
    ((ap (λ j. find j whole) same ∙ at, rest), cc)

module _ (lookup : Map ZombieProcessThreadInfo) (current_pid : ℕ) where
  pub find-objects :
      (objects : Map ZombieProcessThreadInfo) (entries : List HandleEntry) (object : ℕ)
      → find object (run_over (map_object lookup current_pid) objects entries)
        ≡ last_own lookup current_pid object entries (find object objects)
  find-objects objects [] object = refl
  find-objects objects (e ∷ rest) object =
      find-objects (map_object lookup current_pid objects e) rest object
      ∙ ap (last_own lookup current_pid object rest)
          (find-map_object lookup current_pid objects e object)

  module _ (objects : Map ZombieProcessThreadInfo) (format_message : FormatMessage)
      (calls : ℕ → ProcessCalls) (service_calls : ServiceCalls) where
    abbrev step : Attribution → HandleEntry → Attribution
    step = attribute lookup current_pid objects format_message calls service_calls

    abbrev ensure : ℕ → Attribution → Attribution
    ensure = ensure_owner lookup current_pid objects format_message calls service_calls

    ensure-Distinct :
        (pid : ℕ) (st : Attribution) → Distinct st.owners → Distinct (ensure pid st).owners
    unfolding ensure_owner create_owner
    ensure-Distinct pid st d = ground (
      arith,
      put-Distinct pid
          (new_owner lookup current_pid objects format_message calls service_calls pid st) st.owners
          d,
    )

    attribute_to-Distinct :
        (st : Attribution) (e : HandleEntry) (z : Option ZombieProcessThreadInfo)
        → Distinct st.owners
        → Distinct
            (attribute_to lookup current_pid objects format_message calls service_calls st e
              z).owners
    unfolding attribute_to add_handle
    attribute_to-Distinct st e none d = d
    attribute_to-Distinct st e (some info) d =
        let pid = e.unique_process_id in
        put-Distinct pid
          (pushed pid (record { handle_value = e.handle_value; zombie_info = info })
            (ensure pid st).owners)
          (ensure pid st).owners (ensure-Distinct pid st d)

    pub attribute-Distinct :
        (st : Attribution) (entries : List HandleEntry)
        → Distinct st.owners
        → Distinct (run_over step st entries).owners
    unfolding attribute
    attribute-Distinct st [] d = d
    attribute-Distinct st (e ∷ rest) d =
        attribute-Distinct (step st e) rest
          (attribute_to-Distinct st e (zombie_of lookup current_pid objects e) d)

    attribute_to-once :
        (st : Attribution) (e : HandleEntry) (z : Option ZombieProcessThreadInfo)
        → Distinct st.pid_lookup
        → Distinct
            (attribute_to lookup current_pid objects format_message calls service_calls st e
              z).pid_lookup
    unfolding attribute_to add_handle ensure_owner create_owner
    attribute_to-once st e none d = d
    attribute_to-once st e (some info) d =
        let same : (ensure e.unique_process_id st).pid_lookup ≡ st.pid_lookup = ground arith in
        erase-Distinct info.pid (ensure e.unique_process_id st).pid_lookup
          (subst Distinct (sym same) d)

    -- No zombie stands in the lookup by process ID twice.
    pub attribute-once :
        (st : Attribution) (entries : List HandleEntry)
        → Distinct st.pid_lookup
        → Distinct (run_over step st entries).pid_lookup
    unfolding attribute
    attribute-once st [] d = d
    attribute-once st (e ∷ rest) d =
        attribute-once (step st e) rest
          (attribute_to-once st e (zombie_of lookup current_pid objects e) d)

-- The query leaves a table that can be read.
pub table-Holds :
    (format_message : FormatMessage) (c : UpdateCalls) (t : Trace) (u : Updated)
    → update format_message c.system no_handle_table t ≡ some u
    → u.success ≡ true
    → (q : QueryAnswer) × Among q c.system.rounds × Holds u.object q.entries
table-Holds format_message c t u updated ok =
    let (block, (q, among, filled)) =
      update-IsFilled format_message c.system no_handle_table t u updated ok in
    (q, among, record { block = block; filled = filled })

-- A call for which the enumeration and the query succeed goes on to the report.
pub update_impl-report :
    (format_message : FormatMessage) (c : UpdateCalls) (age : ℕ) (z : ZombieOwners)
    (world : Surroundings) (u : Updated)
    → let a =
        acquire_new_handles_to_existing_zombies format_message c.enumeration age no_handles
          world.handles in
      a.success ≡ true
      → update format_message c.system no_handle_table world.heap ≡ some u
      → u.success ≡ true
      → (q : QueryAnswer) × Among q c.system.rounds
        × Holds u.object q.entries
        × (update_impl format_message c age z world
            ≡ report format_message c a
                (counted a (reset z))
                u.object
                (length q.entries)
                (record world { heap = u.trace; handles = a.trace }))
unfolding update_impl with_table acquire_new_handles_to_existing_zombies table-Holds
update_impl-report format_message c age z world u acquired updated ok =
    let (q, among, holds) = table-Holds format_message c world.heap u updated ok in
    let counts = (for_each_handle-run_over u.object (λ s e. s) q.entries tt holds).0 in
    (q, among, holds, rw (acquired, updated, ok, counts, update_impl, with_table) refl)
