-- ===== src/ZombieOwners/Update/Privilege.antt =====
-- Whether the thread still impersonates after `ZombieOwners::Update`.
use zombie_finder.Base.{ℕ, ◌≡◌, ap, sym, ◌∙◌, false, not, ◌&&◌, inl, inr, arith, [], Bool-cases}
use zombie_finder.ErrorText.{FormatMessage}
use zombie_finder.SecurityUtils.{enable_privilege}
use zombie_finder.ZombieOwners.Update.{
  UpdateCalls, Surroundings, UpdateResult, Outcome, done, unfinished, undefined_behaviour,
  revert_to_self, update_owners,
}
use zombie_finder.ZombieOwners.Object.{ZombieOwners}

done_injective : (r s : UpdateResult) → done r ≡ done s → r ≡ s
done_injective r s e = cc

revert_to_self-reverts :
    (o : Outcome) (r : UpdateResult)
    → revert_to_self o ≡ done r
    → r.surroundings.impersonating ≡ false
unfolding revert_to_self
revert_to_self-reverts unfinished r e = ground arith
revert_to_self-reverts undefined_behaviour r e = ground arith
revert_to_self-reverts (done s) r e = sym (
    ap (λ q. q.surroundings.impersonating)
      (done_injective (record s { surroundings = record s.surroundings { impersonating = false } })
        r e))

-- A call of `Update` that returns on a thread that does not impersonate leaves it impersonating if and
-- only if the impersonation succeeded and the privilege could not be enabled.
pub update_owners-impersonating :
    (format_message : FormatMessage) (c : UpdateCalls) (age : ℕ) (z : ZombieOwners)
    (world : Surroundings) (r : UpdateResult)
    → world.impersonating ≡ false
    → update_owners format_message c age z world ≡ done r
    → let (enabled, _, _) = enable_privilege format_message c.privilege [] world.handles in
      r.surroundings.impersonating ≡ (c.impersonated && not enabled)
unfolding update_owners
update_owners-impersonating format_message c age z world r before e =
    let (enabled, _, _) = enable_privilege format_message c.privilege [] world.handles in
    elim (Bool-cases c.impersonated) [
      | inr i ↦ rw (i) (
          sym (
            ap (λ q. q.surroundings.impersonating)
              (done_injective _ r (rw (i, update_owners) at e)))
          ∙ before)
      | inl i ↦ elim (Bool-cases enabled) [
        | inl p ↦ rw (i, p) (revert_to_self-reverts _ r (rw (i, p, update_owners) at e))
        | inr p ↦
            rw (i, p)
              (sym (
                ap (λ q. q.surroundings.impersonating)
                  (done_injective _ r (rw (i, p, update_owners) at e))))
      ]
    ]
