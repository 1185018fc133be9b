-- ===== src/ZombieOwners/Closed.antt =====
-- The handles that `ZombieOwners::Update` (ZombieOwners.cpp) leaves open.
use zombie_finder.Base.{
  ℕ, ◌≡◌, Bool, true, not, Option, none, some, [], inl, inr, Bool-cases, subst, ltb, length, ap,
  if_keeps,
}
use zombie_finder.Base.Map.{Map}
use zombie_finder.Base.Text.{Text}
use zombie_finder.AllHandles.{Read, uninitialized, value, Updated, update, no_handle_table}
use zombie_finder.ErrorText.{FormatMessage}
use zombie_finder.Handles.{Trace, Fresh, Accounted, Safe, open-Safe, close-Safe}
use zombie_finder.SecurityUtils.{PrivilegeCalls, enable_privilege}
use zombie_finder.ZombieHandles.{ZombieHandles, acquire_new_handles_to_existing_zombies, no_handles}
use zombie_finder.ZombieInfo.{ZombieProcessThreadInfo}
use zombie_finder.ZombieOwners.Diagnostics.{
  Diagnosed, DumpCalls, diagnose, dump_diagnostics, diagnose_outcome, update_owners_in,
}
use zombie_finder.ZombieOwners.Update.{
  UpdateCalls, Surroundings, UpdateResult, Outcome, done, unfinished, undefined_behaviour,
  update_impl, update_owners, revert_to_self,
}
use zombie_finder.ZombieOwners.Object.{ZombieOwners}
use zombie_finder.ZombieOwners.Update.Closing.{ClosesAll, update_impl-ClosesAll}

enable_privilege-Safe :
    {m : Map ZombieProcessThreadInfo} (format_message : FormatMessage) (c : PrivilegeCalls)
    (error_info : Text) (t : Trace)
    → Safe t [] m
    → Safe (enable_privilege format_message c error_info t).2 [] m
unfolding enable_privilege
enable_privilege-Safe {m} format_message c error_info t s =
    let closes = close-Safe c.token (open-Safe c.token s) in
    elim (Bool-cases c.token_opened) [
      | inr e ↦ rw (e, enable_privilege) s
      | inl e ↦
          rw (e, enable_privilege)
            (if_keeps (λ (q : Bool × Text × Trace). Safe q.2 [] m) _ closes closes)
    ]

revert-ClosesAll : (outcome : Outcome) → ClosesAll outcome → ClosesAll (revert_to_self outcome)
unfolding revert_to_self
revert-ClosesAll unfinished h = tt
revert-ClosesAll undefined_behaviour h = tt
revert-ClosesAll (done r) h = h

update_owners-ClosesAll :
    (format_message : FormatMessage) (c : UpdateCalls) (age : ℕ) (z : ZombieOwners)
    (world : Surroundings)
    → Safe world.handles [] no_handles.lookup
    → ClosesAll (update_owners format_message c age z world)
unfolding update_owners
update_owners-ClosesAll format_message c age z world before =
    let p = enable_privilege format_message c.privilege [] world.handles in
    let privileged = record world { handles = p.2; impersonating = true } in
    let held : Safe p.2 [] no_handles.lookup =
      enable_privilege-Safe format_message c.privilege [] world.handles before in
    if_keeps ClosesAll (not c.impersonated) before (
      if_keeps ClosesAll (not p.0) held (
        revert-ClosesAll (update_impl format_message c age z privileged)
          (update_impl-ClosesAll format_message c age z privileged held)))

-- The dumps open no handles.
dump-ClosesAll :
    (c : UpdateCalls) (d : DumpCalls) (zombies : ZombieHandles) (directory : Text)
    (r : UpdateResult) (u : Option Updated)
    → ClosesAll (done r)
    → ClosesAll (dump_diagnostics c d zombies directory r u).0
unfolding dump_diagnostics
dump-ClosesAll c d zombies directory r none h = tt
dump-ClosesAll c d zombies directory r (some u) h = dumped (
    diagnose d.file d.times d.pointer_text c.service c.current_pid d.now zombies u.object
      r.surroundings.services directory r.error_info)
  where
    dumped :
        (g : Read Diagnosed)
        → ClosesAll
            (elim g as (λ x. Outcome × Option Diagnosed) [
              | uninitialized ↦ (undefined_behaviour, none)
              | value g ↦ (
                done (record r {
                  error_info = g.services.error_info;
                  surroundings = record r.surroundings { services = g.service_lookup };
                }),
                some g,
              )
            ]).0
    dumped uninitialized = tt
    dumped (value g) = h

diagnose_outcome-ClosesAll :
    (format_message : FormatMessage) (c : UpdateCalls) (d : DumpCalls) (age : ℕ) (directory : Text)
    (world : Surroundings) (outcome : Outcome)
    → ClosesAll outcome
    → ClosesAll (diagnose_outcome format_message c d age directory world outcome).0
unfolding diagnose_outcome
diagnose_outcome-ClosesAll format_message c d age directory world unfinished h = tt
diagnose_outcome-ClosesAll format_message c d age directory world undefined_behaviour h = tt
diagnose_outcome-ClosesAll format_message c d age directory world (done r) h =
    let (_, _, trace) = enable_privilege format_message c.privilege [] world.handles in
    let a =
      acquire_new_handles_to_existing_zombies format_message c.enumeration age no_handles trace in
    if_keeps (λ (x : Outcome × Option Diagnosed). ClosesAll x.0) r.success
      (dump-ClosesAll c d a.handles directory r
        (update format_message c.system no_handle_table world.heap) h)
      h

-- Called where no handle is open, with a directory for diagnostics or without, a call of `Update` that
-- returns, with success or without, and whatever the system answers as long as each new handle is not
-- null and differs from those that are open, has closed no handle that was not open, and leaves none
-- open: neither the thread's token nor a handle to a process or a thread.
pub update_owners_in-Accounted :
    (format_message : FormatMessage) (c : UpdateCalls) (d : DumpCalls) (age : ℕ) (directory : Text)
    (z : ZombieOwners) (world : Surroundings) (r : UpdateResult) (dumps : Option Diagnosed)
    → Accounted world.handles [] no_handles.lookup
    → update_owners_in format_message c d age directory z world ≡ (done r, dumps)
    → Fresh r.surroundings.handles
    → Accounted {V = ZombieProcessThreadInfo} r.surroundings.handles [] []
unfolding update_owners_in
update_owners_in-Accounted format_message c d age directory z world r dumps before is fresh =
    let closes = update_owners-ClosesAll format_message c age z world (λ _. before) in
    let outcome = update_owners format_message c age z world in
    let all : ClosesAll (update_owners_in format_message c d age directory z world).0 =
      if_keeps (λ (x : Outcome × Option Diagnosed). ClosesAll x.0) (ltb 0 (length directory))
        (diagnose_outcome-ClosesAll format_message c d age directory world outcome closes) closes in
    subst ClosesAll (ap (λ x. x.0) is) all fresh
