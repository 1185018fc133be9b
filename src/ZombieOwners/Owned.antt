-- ===== src/ZombieOwners/Owned.antt =====
-- What the loops over the handles make of the handle table: which handles each owner is charged
-- with, and which zombies stay unexplained.
use zombie_finder.Base.{
  ℕ, ◌≡◌, refl, ap, sym, ◌∙◌, Bool, false, ◌||◌, ◌&&◌, Option, none, some, List, [], ◌∷◌, ◌++◌, inl,
  inr, arith, ◌==◌, Option-cases, if◌then◌else◌, is_some, append_assoc, append-nil,
}
use zombie_finder.Base.Map.{Map, find, find-put, find-erase}
use zombie_finder.AllHandles.{HandleEntry}
use zombie_finder.AllHandles.Iteration.{run_over}
use zombie_finder.ErrorText.{FormatMessage}
use zombie_finder.Processes.{ProcessCalls}
use zombie_finder.Services.{ServiceCalls}
use zombie_finder.ZombieInfo.{ZombieProcessThreadInfo}
use zombie_finder.ZombieOwners.{
  ZombieOwningInfo, ZombieOwner, Attribution, map_object, zombie_of, create_owner, add_handle,
  attribute, owner_at, new_owner, ensure_owner, attribute_to,
}

-- What an owner is charged with in a map; nothing, if the process is not in it.
abbrev pub charged : ℕ → Map ZombieOwner → List ZombieOwningInfo
charged pid owners = elim (find pid owners) [ none ↦ [] | some o ↦ o.zombie_owning_info ]

module _ (lookup : Map ZombieProcessThreadInfo) (current_pid : ℕ) where
  -- The zombie of the last handle of this process in the lookup that leads to the object.
  abbrev pub last_own :
      ℕ → List HandleEntry → Option ZombieProcessThreadInfo → Option ZombieProcessThreadInfo
  last_own object [] before = before
  last_own object (e ∷ rest) before = last_own object rest (
      if (e.unique_process_id == current_pid)
        && (e.object == object)
        && is_some (find e.handle_value lookup)
      then find e.handle_value lookup
      else before)

  pub find-map_object :
      (objects : Map ZombieProcessThreadInfo) (e : HandleEntry) (object : ℕ)
      → find object (map_object lookup current_pid objects e)
        ≡ last_own object (e ∷ []) (find object objects)
  unfolding map_object
  find-map_object objects e object = elim (Option-cases (find e.handle_value lookup)) [
    | inl h ↦ rw (h, map_object) (ground arith)
    | inr (info, h) ↦ rw (h, map_object) (ground (arith, find-put e.object object info objects))
  ]

  module _ (objects : Map ZombieProcessThreadInfo) where
    abbrev pub own_entry : ℕ → HandleEntry → Option ZombieProcessThreadInfo → List ZombieOwningInfo
    own_entry pid e none = []
    own_entry pid e (some info) =
        if e.unique_process_id == pid
        then record { handle_value = e.handle_value; zombie_info = info } ∷ []
        else []

    -- One of this object's own handles: this process holds it, under a value that stands in the lookup.
    abbrev is_own : HandleEntry → Bool
    is_own e = (e.unique_process_id == current_pid) && is_some (find e.handle_value lookup)

    -- The zombie that a handle of someone else leads to; none for a handle of this object.
    abbrev pub other_zombie : HandleEntry → Option ZombieProcessThreadInfo
    other_zombie e = if is_own e then none else find e.object objects

    zombie_of-other_zombie :
        (e : HandleEntry) → zombie_of lookup current_pid objects e ≡ other_zombie e
    unfolding zombie_of
    zombie_of-other_zombie e = ground arith

    -- The handles that the process is charged with, in the order of the table.
    abbrev pub handles_of : ℕ → List HandleEntry → List ZombieOwningInfo
    handles_of pid [] = []
    handles_of pid (e ∷ rest) = own_entry pid e (other_zombie e) ++ handles_of pid rest

    abbrev pub has_pid : ℕ → Option ZombieProcessThreadInfo → Bool
    has_pid pid none = false
    has_pid pid (some info) = info.pid == pid

    -- Some handle of the table leads to a zombie with the process ID.
    abbrev pub is_explained : ℕ → List HandleEntry → Bool
    is_explained zombie_pid [] = false
    is_explained zombie_pid (e ∷ rest) =
        has_pid zombie_pid (other_zombie e) || is_explained zombie_pid rest

    module _ (format_message : FormatMessage) (calls : ℕ → ProcessCalls)
        (service_calls : ServiceCalls) where
      abbrev pub step : Attribution → HandleEntry → Attribution
      step = attribute lookup current_pid objects format_message calls service_calls

      create : ℕ → Attribution → Attribution
      create = create_owner lookup current_pid objects format_message calls service_calls

      add : ℕ → ZombieOwningInfo → Attribution → Attribution
      add = add_handle lookup current_pid objects format_message calls service_calls

      charged-create :
          (pid j : ℕ) (st : Attribution)
          → find pid st.owners ≡ none
          → charged j (create pid st).owners ≡ charged j st.owners
      unfolding create create_owner new_owner
      charged-create pid j st new = ground (
        arith,
        find-put pid j
            (new_owner lookup current_pid objects format_message calls service_calls pid st)
            st.owners,
      )

      charged-add :
          (pid j : ℕ) (info : ZombieOwningInfo) (st : Attribution)
          → charged j (add pid info st).owners
            ≡ (if pid == j then charged j st.owners ++ info ∷ [] else charged j st.owners)
      unfolding add add_handle
      charged-add pid j info st = ground (
        arith,
        find-put pid j
            (record (owner_at pid st.owners) {
              zombie_owning_info = (owner_at pid st.owners).zombie_owning_info ++ info ∷ [];
            })
            st.owners,
      )

      ensure : ℕ → Attribution → Attribution
      ensure = ensure_owner lookup current_pid objects format_message calls service_calls

      charged-ensure :
          (pid j : ℕ) (st : Attribution) → charged j (ensure pid st).owners ≡ charged j st.owners
      unfolding ensure ensure_owner
      charged-ensure pid j st = elim (Option-cases (find pid st.owners)) [
        | inl e ↦ rw (e, ensure_owner) (unfold create in charged-create pid j st e)
        | inr (o, e) ↦ rw (e, ensure_owner) refl
      ]

      charged-step :
          (st : Attribution) (e : HandleEntry) (pid : ℕ) (z : Option ZombieProcessThreadInfo)
          → charged pid
              (attribute_to lookup current_pid objects format_message calls service_calls st e
                z).owners
            ≡ charged pid st.owners ++ own_entry pid e z
      unfolding attribute_to add ensure
      charged-step st e pid none = sym (append-nil (charged pid st.owners))
      charged-step st e pid (some info) =
          let owner = e.unique_process_id in
          let owning : ZombieOwningInfo = record {
            handle_value = e.handle_value;
            zombie_info = info;
          } in
          ground (
            arith,
            charged-add owner pid owning (ensure owner st),
            charged-ensure owner pid st,
            append-nil (charged pid st.owners),
          )

      pid_lookup-ensure : (pid : ℕ) (st : Attribution) → (ensure pid st).pid_lookup ≡ st.pid_lookup
      unfolding ensure ensure_owner create_owner
      pid_lookup-ensure pid st = ground arith

      pid_lookup-step :
          (st : Attribution) (e : HandleEntry) (zombie_pid : ℕ) (z : Option ZombieProcessThreadInfo)
          → find zombie_pid
              (attribute_to lookup current_pid objects format_message calls service_calls st e
                z).pid_lookup
            ≡ (if has_pid zombie_pid z then none else find zombie_pid st.pid_lookup)
      unfolding attribute_to add_handle ensure
      pid_lookup-step st e zombie_pid none = refl
      pid_lookup-step st e zombie_pid (some info) =
          find-erase info.pid zombie_pid _
          ∙ ap (λ m. if info.pid == zombie_pid then none else find zombie_pid m)
              (pid_lookup-ensure e.unique_process_id st)

      -- After the second loop each process is charged with what it was charged with before, and then
      -- with its handles to zombies, in the order of the table: each of them once, and no other.
      pub charged-attribute :
          (st : Attribution) (entries : List HandleEntry) (pid : ℕ)
          → charged pid (run_over step st entries).owners
            ≡ charged pid st.owners ++ handles_of pid entries
      unfolding attribute
      charged-attribute st [] pid = sym (append-nil (charged pid st.owners))
      charged-attribute st (e ∷ rest) pid =
          let z = zombie_of lookup current_pid objects e in
          charged-attribute (step st e) rest pid
          ∙ ap (λ x. x ++ handles_of pid rest)
              (charged-step st e pid z
                ∙ ap (λ o. charged pid st.owners ++ own_entry pid e o) (zombie_of-other_zombie e))
          ∙ append_assoc (charged pid st.owners) (own_entry pid e (other_zombie e))
              (handles_of pid rest)

      -- The second loop takes from the lookup by process ID exactly the zombies to which some
      -- handle leads that this object did not open.
      pub pid_lookup-attribute :
          (st : Attribution) (entries : List HandleEntry) (zombie_pid : ℕ)
          → find zombie_pid (run_over step st entries).pid_lookup
            ≡ (if is_explained zombie_pid entries then none else find zombie_pid st.pid_lookup)
      unfolding attribute
      pid_lookup-attribute st [] zombie_pid = refl
      pid_lookup-attribute st (e ∷ rest) zombie_pid =
          let z = zombie_of lookup current_pid objects e in
          ground (
            arith,
            pid_lookup-attribute (step st e) rest zombie_pid,
            pid_lookup-step st e zombie_pid z,
            ap (has_pid zombie_pid) (zombie_of-other_zombie e),
          )
