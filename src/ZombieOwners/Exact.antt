-- ===== src/ZombieOwners/Exact.antt =====
-- What `m_owners` (ZombieOwners.cpp) holds after the second loop.
use zombie_finder.Base.{
  ℕ, ◌≡◌, ◌≢◌, refl, ap, sym, ◌∙◌, none, some, List, [], ◌∷◌, inl, inr, Option-cases,
}
use zombie_finder.Base.Map.{Map, find}
use zombie_finder.AllHandles.{HandleEntry}
use zombie_finder.AllHandles.Iteration.{run_over}
use zombie_finder.ErrorText.{FormatMessage}
use zombie_finder.Processes.{ProcessCalls}
use zombie_finder.Services.{ServiceCalls}
use zombie_finder.ZombieInfo.{ZombieProcessThreadInfo}
use zombie_finder.ZombieOwners.{ZombieOwningInfo, ZombieOwner, Attribution, attribute}
use zombie_finder.ZombieOwners.Entries.{
  AllEntries, IsEntry, described, expected, attribute-IsAttribution,
}
use zombie_finder.ZombieOwners.Owned.{charged, handles_of, charged-attribute}

with_handles :
    (described o : ZombieOwner)
    → IsEntry described o
    → some o ≡ expected described o.zombie_owning_info
with_handles described o h = among o.zombie_owning_info refl
  where
    among :
        (handles : List ZombieOwningInfo)
        → o.zombie_owning_info ≡ handles
        → some o ≡ expected described o.zombie_owning_info
    among [] e = absurd (h.holds e)
    among (x ∷ xs) e = ap some h.is_described ∙ rw e refl

pub expected-pid :
    (described : ZombieOwner) (handles : List ZombieOwningInfo) (o : ZombieOwner)
    → expected described handles ≡ some o
    → o.pid ≡ described.pid
expected-pid described [] o e = absurd (cc e)
expected-pid described (x ∷ xs) o e = cc

-- Entries that are well formed are those of the processes that are charged with handles.
pub find-charged :
    (describe : ℕ → ZombieOwner) (owners : Map ZombieOwner) (pid : ℕ)
    → AllEntries describe owners
    → find pid owners ≡ expected (describe pid) (charged pid owners)
find-charged describe owners pid h = elim (Option-cases (find pid owners)) [
  | inl e ↦ rw (e, charged) refl
  | inr (o, e) ↦ rw (e, charged) (with_handles (describe pid) o (h pid o e))
]

-- After the second loop over a handle table, from an empty map, a process has an entry in `m_owners` if
-- and only if some handle leads from it to a zombie. The entry has the process ID, the image path or the
-- error text that Windows gives for it, the last part of that for a name, the services that the process
-- hosts, and the handles, each once, in the order of the table.
pub find-attribute :
    (lookup objects : Map ZombieProcessThreadInfo) (current_pid : ℕ)
    (format_message : FormatMessage) (calls : ℕ → ProcessCalls) (service_calls : ServiceCalls)
    (st : Attribution) (entries : List HandleEntry) (pid : ℕ)
    → st.owners ≡ []
    → find pid
        (run_over
          (attribute lookup current_pid objects format_message calls service_calls)
          st
          entries).owners
      ≡ expected
          (described format_message calls service_calls st.services pid)
          (handles_of lookup current_pid objects pid entries)
unfolding find
find-attribute lookup objects current_pid format_message calls service_calls st entries pid start =
    let body = attribute lookup current_pid objects format_message calls service_calls in
    let describe = described format_message calls service_calls st.services in
    let right =
      attribute-IsAttribution lookup current_pid objects format_message calls service_calls
        st.services st entries
        (record {
          entries = λ j o e. absurd (missing (sym (ap (find j) start) ∙ e));
          same_services = refl;
        }) in
    find-charged describe (run_over body st entries).owners pid right.entries
    ∙ ap (expected (describe pid)) (
        charged-attribute lookup current_pid objects format_message calls service_calls st entries
          pid
        ∙ rw start refl)
  where
    missing : {o : ZombieOwner} → none ≢ some o
    missing e = cc
