-- ===== src/ZombieOwners/Update/Again.antt =====
-- `Update_Impl` (ZombieOwners.cpp) on an object that an earlier call has filled.
use zombie_finder.Base.{
  ℕ, ◌≡◌, ◌≢◌, refl, ap, ◌∙◌, true, none, some, List, ◌∷◌, ◌++◌, map, arith, length, ◌≤◌,
}
use zombie_finder.AllHandles.{AllHandles, update, no_handle_table, Updated}
use zombie_finder.ErrorText.{FormatMessage}
use zombie_finder.ZombieHandles.{Acquired, acquire_new_handles_to_existing_zombies, no_handles}
use zombie_finder.ZombieOwners.Update.Report.{update_impl-report}
use zombie_finder.ZombieOwners.Update.{
  UpdateCalls, Surroundings, undefined_behaviour, attribute_handles, finish, report, update_impl,
  counted,
}
use zombie_finder.ZombieOwners.Object.{
  ZombieOwners, OwnerPointer, load, load_all, sort_pointers, reset, element_pointer,
}

sort_pointers-dangling :
    (z : ZombieOwners) (p q : OwnerPointer) (ps : List OwnerPointer)
    → p.epoch ≢ z.epoch
    → sort_pointers z (p ∷ q ∷ ps) ≡ none
unfolding sort_pointers load_all load
sort_pointers-dangling z p q ps dangles = ground arith

report-dangling :
    (format_message : FormatMessage) (c : UpdateCalls) (a : Acquired) (z : ZombieOwners)
    (table : AllHandles) (n : ℕ) (world : Surroundings) (p q : OwnerPointer)
    (ps : List OwnerPointer)
    → z.owners_sorted ≡ p ∷ q ∷ ps
    → p.epoch ≢ z.epoch
    → report format_message c a z table n world ≡ undefined_behaviour
unfolding report finish
report-dangling format_message c a z table n world p q ps old dangles =
    let st = attribute_handles format_message c a z.owners world.services table n in
    let filled = record z { owners = st.owners } in
    let found = map (element_pointer z.epoch) st.owners in
    let none_loads =
      ap (λ l. sort_pointers filled (l ++ found)) old
      ∙ sort_pointers-dangling filled p q (ps ++ found) dangles in
    rw (none_loads, report, finish) refl

-- Where the sorted collection holds two pointers or more, the first of which stems from an earlier
-- call, a call for which the enumeration and the query for the handle table succeed has undefined
-- behaviour: the sort reads an element that the call has destroyed.
pub update_impl-dangling :
    (format_message : FormatMessage) (c : UpdateCalls) (age : ℕ) (z : ZombieOwners)
    (world : Surroundings) (u : Updated) (p q : OwnerPointer) (ps : List OwnerPointer)
    → let a =
        acquire_new_handles_to_existing_zombies format_message c.enumeration age no_handles
          world.handles in
      z.owners_sorted ≡ p ∷ q ∷ ps
      → p.epoch ≤ z.epoch
      → a.success ≡ true
      → update format_message c.system no_handle_table world.heap ≡ some u
      → u.success ≡ true
      → update_impl format_message c age z world ≡ undefined_behaviour
unfolding reset
update_impl-dangling format_message c age z world u p q ps old early acquired updated ok =
    let a =
      acquire_new_handles_to_existing_zombies format_message c.enumeration age no_handles
        world.handles in
    let (answer, among, holds, goes) =
      update_impl-report format_message c age z world u acquired updated ok in
    goes
    ∙ report-dangling format_message c a (counted a (reset z)) u.object (length answer.entries)
        (record world { heap = u.trace; handles = a.trace }) p q ps old (omega (arith, early))
