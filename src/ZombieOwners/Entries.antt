-- ===== src/ZombieOwners/Entries.antt =====
-- The entries of `m_owners` (ZombieOwners.cpp).
use zombie_finder.Base.{
  ℕ, ◌≡◌, ◌≢◌, refl, ap, sym, ◌∙◌, false, Option, none, some, List, [], ◌∷◌, ◌++◌, inl, inr, arith,
  ◌==◌, Bool-cases, Option-cases, ==_iff, subst, ==_refl,
}
use zombie_finder.Base.Map.{Map, find, find-put}
use zombie_finder.AllHandles.{HandleEntry}
use zombie_finder.AllHandles.Iteration.{run_over}
use zombie_finder.ErrorText.{FormatMessage}
use zombie_finder.Processes.{ProcessCalls}
use zombie_finder.Services.{
  ServiceCalls, ServiceLookup, initialize_service_lookup, lookup_services_by_pid,
}
use zombie_finder.Strings.{get_file_name_from_file_path}
use zombie_finder.ZombieInfo.{ZombieProcessThreadInfo}
use zombie_finder.ZombieOwners.ImagePath.{path_or_error, get_image_path_from_pid-path_or_error}
use zombie_finder.ZombieOwners.{
  ZombieOwningInfo, ZombieOwner, owner_at, Attribution, zombie_of, new_owner, create_owner,
  ensure_owner, add_handle, attribute_to, attribute,
}

-- An owner as another one describes it, with handles of its own.
abbrev with_handles : List ZombieOwningInfo → ZombieOwner → ZombieOwner
with_handles handles o = record o { zombie_owning_info = handles }

-- What `Update_Impl` is to tell of an owner besides its handles: the image path that Windows gives for
-- the process ID, or an error text, the last part of it, and the services that the process hosts.
abbrev pub described :
    FormatMessage → (ℕ → ProcessCalls) → ServiceCalls → ServiceLookup → ℕ → ZombieOwner
described format_message calls service_calls services pid =
    let path = path_or_error format_message (calls pid) pid in
    record {
      pid = pid;
      process_image_path = path;
      exe_name = get_file_name_from_file_path path;
      service_list = find pid (initialize_service_lookup service_calls services).lookup;
      zombie_owning_info = [];
    }

-- The entry of a process with these handles; a process without any has none.
abbrev pub expected : ZombieOwner → List ZombieOwningInfo → Option ZombieOwner
expected o [] = none
expected o (x ∷ xs) = some (with_handles (x ∷ xs) o)

abbrev IsDescribed : ZombieOwner → ZombieOwner → Type 0
IsDescribed described o = o ≡ with_handles o.zombie_owning_info described

pub record IsEntry (described o : ZombieOwner) : Type 0 where
  pub is_described : IsDescribed described o
  pub holds : o.zombie_owning_info ≢ []

-- The entry of each key, if there is one, is what it should be.
abbrev pub AllEntries : (ℕ → ZombieOwner) → Map ZombieOwner → Type 0
AllEntries describe owners =
    (pid : ℕ) (o : ZombieOwner) → find pid owners ≡ some o → IsEntry (describe pid) o

some_inj : {o v : ZombieOwner} → some o ≡ some v → o ≡ v
some_inj e = cc

append-ne-nil : (xs : List ZombieOwningInfo) (x : ZombieOwningInfo) → (xs ++ x ∷ []) ≢ []
append-ne-nil [] x e = cc
append-ne-nil (y ∷ xs) x e = cc

-- The entry after `push_back`.
abbrev pub pushed : ℕ → ZombieOwningInfo → Map ZombieOwner → ZombieOwner
pushed pid info owners = record (owner_at pid owners) {
  zombie_owning_info = (owner_at pid owners).zombie_owning_info ++ info ∷ [];
}

pushed-IsEntry :
    (pid : ℕ) (info : ZombieOwningInfo) (owners : Map ZombieOwner) (described old : ZombieOwner)
    → find pid owners ≡ some old
    → IsDescribed described old
    → IsEntry described (pushed pid info owners)
pushed-IsEntry pid info owners described old e is =
    let own : owner_at pid owners ≡ old = ground arith in
    let handles = (owner_at pid owners).zombie_owning_info ++ info ∷ [] in
    record {
      is_described = ap (with_handles handles) own ∙ ap (with_handles handles) is;
      holds = append-ne-nil (owner_at pid owners).zombie_owning_info info;
    }

initialize-idempotent :
    (calls : ServiceCalls) (s : ServiceLookup)
    → initialize_service_lookup calls (initialize_service_lookup calls s)
      ≡ initialize_service_lookup calls s
unfolding initialize_service_lookup
initialize-idempotent calls s = ground arith

module _ (lookup : Map ZombieProcessThreadInfo) (current_pid : ℕ)
    (objects : Map ZombieProcessThreadInfo) (format_message : FormatMessage)
    (calls : ℕ → ProcessCalls) (service_calls : ServiceCalls) (services : ServiceLookup) where
  abbrev ensure : ℕ → Attribution → Attribution
  ensure = ensure_owner lookup current_pid objects format_message calls service_calls

  abbrev created : ℕ → Attribution → ZombieOwner
  created = new_owner lookup current_pid objects format_message calls service_calls

  abbrev add : ℕ → ZombieOwningInfo → Attribution → Attribution
  add = add_handle lookup current_pid objects format_message calls service_calls

  abbrev describe : ℕ → ZombieOwner
  describe = described format_message calls service_calls services

  -- The entries are right, and the services those that the first lookup has found or will find.
  pub record IsAttribution (st : Attribution) : Type 0 where
    pub entries : AllEntries describe st.owners
    pub same_services :
        initialize_service_lookup service_calls st.services
        ≡ initialize_service_lookup service_calls services

  created-described :
      (pid : ℕ) (st : Attribution) → IsAttribution st → created pid st ≡ describe pid
  unfolding new_owner lookup_services_by_pid
  created-described pid st h = cc (
    get_image_path_from_pid-path_or_error format_message (calls pid) pid st.trace,
    ap (λ s. find pid s.lookup) h.same_services,
  )

  -- The entry that `ensure` leaves, old or new, is described rightly.
  ensure-IsDescribed :
      (pid : ℕ) (st : Attribution)
      → IsAttribution st
      → (o : ZombieOwner) × (find pid (ensure pid st).owners ≡ some o)
        × IsDescribed (describe pid) o
  unfolding ensure_owner create_owner
  ensure-IsDescribed pid st h = elim (Option-cases (find pid st.owners)) [
    | inl e ↦
        rw (e, ensure_owner)
          (
            describe pid,
            find-put pid pid (created pid st) st.owners
                ∙ rw (==_refl pid) (ap some (created-described pid st h)),
            refl,
          )
    | inr (o, e) ↦ rw (e, ensure_owner) (o, e, (h.entries pid o e).is_described)
  ]

  ensure-other :
      (pid j : ℕ) (st : Attribution)
      → (pid == j) ≡ false
      → find j (ensure pid st).owners ≡ find j st.owners
  unfolding ensure_owner create_owner
  ensure-other pid j st ne = ground (arith, find-put pid j (created pid st) st.owners)

  ensure-same_services :
      (pid : ℕ) (st : Attribution)
      → initialize_service_lookup service_calls (ensure pid st).services
        ≡ initialize_service_lookup service_calls st.services
  unfolding ensure_owner create_owner lookup_services_by_pid
  ensure-same_services pid st = ground (arith, initialize-idempotent service_calls st.services)

  add-AllEntries :
      (pid : ℕ) (info : ZombieOwningInfo) (st : Attribution)
      → IsAttribution st
      → AllEntries describe (add pid info (ensure pid st)).owners
  unfolding add_handle
  add-AllEntries pid info st h j o found =
      let st' = ensure pid st in
      let (old, at, is) = ensure-IsDescribed pid st h in
      let v = pushed pid info st'.owners in
      let put_here = find-put pid j v st'.owners in
      elim (Bool-cases (pid == j)) [
        | inl same ↦
            let here : v ≡ o = some_inj (sym (put_here ∙ rw same) ∙ found) in
            let key : pid ≡ j = (==_iff pid j).0 same in
            subst (IsEntry (describe j)) here (
              subst (λ k. IsEntry (describe k) v) key
                (pushed-IsEntry pid info st'.owners (describe pid) old at is))
        | inr other ↦
            h.entries j o (sym (ensure-other pid j st other) ∙ sym (put_here ∙ rw other) ∙ found)
      ]

  attribute_to-IsAttribution :
      (st : Attribution) (e : HandleEntry) (z : Option ZombieProcessThreadInfo)
      → IsAttribution st
      → IsAttribution
          (attribute_to lookup current_pid objects format_message calls service_calls st e z)
  unfolding attribute_to add_handle
  attribute_to-IsAttribution st e none h = h
  attribute_to-IsAttribution st e (some info) h =
      let pid = e.unique_process_id in
      let owning_info : ZombieOwningInfo = record {
        handle_value = e.handle_value;
        zombie_info = info;
      } in
      record {
        entries = unfold add_handle in add-AllEntries pid owning_info st h;
        same_services = ensure-same_services pid st ∙ h.same_services;
      }

  -- Every step of the second loop keeps the entries of `m_owners` well formed: described as they
  -- should be, under their process ID, and with at least one handle.
  pub attribute-IsAttribution :
      (st : Attribution) (entries : List HandleEntry)
      → IsAttribution st
      → IsAttribution (
          run_over
            (attribute lookup current_pid objects format_message calls service_calls)
            st
            entries)
  unfolding attribute
  attribute-IsAttribution st [] h = h
  attribute-IsAttribution st (e ∷ rest) h =
      attribute-IsAttribution
        (attribute lookup current_pid objects format_message calls service_calls st e) rest
        (attribute_to-IsAttribution st e (zombie_of lookup current_pid objects e) h)
