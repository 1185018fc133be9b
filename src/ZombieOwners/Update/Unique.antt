-- ===== src/ZombieOwners/Update/Unique.antt =====
-- What the description of the results of `Update_Impl` (ZombieOwners.cpp) leaves open.
use zombie_finder.ZombieOwners.Update.Success.{update_impl-held-IsReport}
use zombie_finder.AllHandles.Iteration.{Holds}
use mathlib.Core.List.Permᴰ
use mathlib.Core.List.{Permᴰ}
use zombie_finder.Base.{
  ℕ, ◌≡◌, ◌≢◌, refl, sym, ap, ◌∙◌, none, some, List, [], ◌∷◌, map, All, arith, subst, if◌then◌else◌,
  true,
}
use zombie_finder.Base.Map.{Map, find, Distinct}
use zombie_finder.Base.Same.{SameFinds, SameFinds-Perm}
use zombie_finder.AllHandles.{HandleEntry, AllHandles, Updated, update, no_handle_table}
use zombie_finder.ErrorText.{FormatMessage}
use zombie_finder.Services.{ServiceLookup}
use zombie_finder.ZombieHandles.{Acquired, acquire_new_handles_to_existing_zombies, no_handles}
use zombie_finder.ZombieInfo.{ZombieProcessThreadInfo}
use zombie_finder.ZombieOwners.{ZombieOwner}
use zombie_finder.ZombieOwners.Entries.{described, expected}
use zombie_finder.ZombieOwners.Exact.{expected-pid}
use zombie_finder.ZombieOwners.Owned.{handles_of, is_explained, other_zombie}
use zombie_finder.ZombieOwners.Sorting.{sort_owners_unique, Apart}
use zombie_finder.ZombieOwners.Update.{UpdateCalls, UpdateResult, update_impl, done, Surroundings}
use zombie_finder.ZombieOwners.Object.{ZombieOwners, load_all}
use zombie_finder.ZombieOwners.Update.Described.{IsReport}

module _ (lookup : Map ZombieProcessThreadInfo) (current_pid : ℕ)
    (objects others : Map ZombieProcessThreadInfo) (same : SameFinds objects others) where
  other_zombie-same :
      (e : HandleEntry)
      → other_zombie lookup current_pid objects e ≡ other_zombie lookup current_pid others e
  other_zombie-same e = rw (same e.object) refl

  handles_of-same :
      (pid : ℕ) (entries : List HandleEntry)
      → handles_of lookup current_pid objects pid entries
        ≡ handles_of lookup current_pid others pid entries
  handles_of-same pid [] = refl
  handles_of-same pid (e ∷ rest) = cc (other_zombie-same e, handles_of-same pid rest)

  is_explained-same :
      (pid : ℕ) (entries : List HandleEntry)
      → is_explained lookup current_pid objects pid entries
        ≡ is_explained lookup current_pid others pid entries
  is_explained-same pid [] = refl
  is_explained-same pid (e ∷ rest) = rw (other_zombie-same e, is_explained-same pid rest) refl

-- Each owner stands under its process ID.
abbrev Keyed : Map ZombieOwner → Type 0
Keyed m = (k : ℕ) (o : ZombieOwner) → find k m ≡ some o → o.pid ≡ k

Keyed-rest :
    (k : ℕ) (v : ZombieOwner) (m : Map ZombieOwner) → find k m ≡ none → Keyed ((k, v) ∷ m) → Keyed m
unfolding find
Keyed-rest k v m new keyed j o e = keyed j o (ground (arith, new, e))

other_pids :
    (pid : ℕ) (m : Map ZombieOwner)
    → Distinct m
    → Keyed m
    → find pid m ≡ none
    → All (λ o. pid ≢ o.pid) (map (λ e. e.1) m)
unfolding find
other_pids pid [] d keyed none_here = tt
other_pids pid ((k, v) ∷ m) d keyed none_here =
    let own : v.pid ≡ k = keyed k v (ground arith) in
    (ground (arith, own), other_pids pid m d.1 (Keyed-rest k v m d.0 keyed) (ground arith))

values-Apart : (m : Map ZombieOwner) → Distinct m → Keyed m → Apart (map (λ e. e.1) m)
unfolding find
values-Apart [] d keyed = tt
values-Apart ((k, v) ∷ m) d keyed =
    let own : v.pid ≡ k = keyed k v (ground arith) in
    let rest = Keyed-rest k v m d.0 keyed in
    (
      subst (λ i. All (λ o. i ≢ o.pid) (map (λ e. e.1) m)) (sym own) (other_pids k m d.1 rest d.0),
      values-Apart m d.1 rest,
    )

module _ (format_message : FormatMessage) (c : UpdateCalls) (services : ServiceLookup)
    (a : Acquired) (entries : List HandleEntry) where
  abbrev Report : ZombieOwners → Type 0
  Report = IsReport format_message c services a entries

  Report-Keyed : (z : ZombieOwners) → Report z → Keyed z.owners
  Report-Keyed z r k o e =
      expected-pid (described format_message c.process c.service services k)
        (handles_of a.handles.lookup c.current_pid r.objects k entries) o (sym (r.owners_are k) ∙ e)

  same_objects :
      (z z' : ZombieOwners) (r : Report z) (r' : Report z') → SameFinds r.objects r'.objects
  same_objects z z' r r' object = r.objects_are object ∙ sym (r'.objects_are object)

  same_owners : (z z' : ZombieOwners) → Report z → Report z' → SameFinds z.owners z'.owners
  same_owners z z' r r' pid =
      r.owners_are pid
      ∙ ap (expected (described format_message c.process c.service services pid)) (
          handles_of-same a.handles.lookup c.current_pid r.objects r'.objects
            (same_objects z z' r r') pid entries)
      ∙ sym (r'.owners_are pid)

  same_remaining :
      (z z' : ZombieOwners) (r : Report z) (r' : Report z') → SameFinds r.remaining r'.remaining
  same_remaining z z' r r' pid =
      r.remaining_are pid
      ∙ ap (λ b. if b then none else find pid a.pid_lookup)
          (is_explained-same a.handles.lookup c.current_pid r.objects r'.objects
            (same_objects z z' r r') pid entries)
      ∙ sym (r'.remaining_are pid)

  -- Whatever the order in which the maps are iterated, two objects that are as `update_impl` leaves its
  -- object for the same answers have the same sorted collection, owner by owner, in the same order, with
  -- the same handles, and the same unexplained zombies, but for their order.
  load_all_unique :
      (z z' : ZombieOwners)
      → Report z
      → Report z'
      → (load_all z z.owners_sorted ≡ load_all z' z'.owners_sorted)
        × Permᴰ z.unexplained z'.unexplained
  load_all_unique z z' r r' =
      let view = r.sorted_view in
      let view' = r'.sorted_view in
      let values : Map ZombieOwner → List ZombieOwner = map (λ e. e.1) in
      let apart = values-Apart z.owners r.each_once (Report-Keyed z r) in
      let across : Permᴰ (values z.owners) (values z'.owners) =
        Permᴰ.map (λ e. e.1)
          (SameFinds-Perm z.owners z'.owners r.each_once r'.each_once (same_owners z z' r r')) in
      let same_view : view.view ≡ view'.view =
        sort_owners_unique (values z.owners) view.view apart view.elements view.in_order
        ∙ sym (
            sort_owners_unique (values z.owners) view'.view apart
              (Permᴰ.trans across view'.elements) view'.in_order) in
      let unexplained : Permᴰ (map (λ e. e.1) r.remaining) (map (λ e. e.1) r'.remaining) =
        Permᴰ.map (λ e. e.1)
          (SameFinds-Perm r.remaining r'.remaining r.remaining_once r'.remaining_once
            (same_remaining z z' r r')) in
      (
        view.loads ∙ ap some same_view ∙ sym view'.loads,
        subst (λ l. Permᴰ l z'.unexplained) (sym r.unexplained_are)
            (subst (Permᴰ (map (λ e. e.1) r.remaining)) (sym r'.unexplained_are) unexplained),
      )

-- The table that the query leaves holds one list of entries.
held_once : (a : AllHandles) (xs ys : List HandleEntry) → Holds a xs → Holds a ys → xs ≡ ys
held_once a xs ys h k = cc (h.filled, k.filled)

-- What an object holds from before, apart from its sorted collection, which is empty, does not reach the
-- report: called on two such objects where the system answers alike, with an enumeration and a query for
-- the handle table that succeed, `Update_Impl` returns with success, and leaves sorted collections that
-- lead to the same owners, with the same handles, in the same order, and the same unexplained zombies
-- but for their order.
pub update_impl-same_report :
    (format_message : FormatMessage) (c : UpdateCalls) (age : ℕ) (z z' : ZombieOwners)
    (world : Surroundings) (u : Updated)
    → z.owners_sorted ≡ []
    → z'.owners_sorted ≡ []
    → (acquire_new_handles_to_existing_zombies format_message c.enumeration age no_handles
        world.handles).success
      ≡ true
    → update format_message c.system no_handle_table world.heap ≡ some u
    → u.success ≡ true
    → (r r' : UpdateResult) × (update_impl format_message c age z world ≡ done r)
      × (update_impl format_message c age z' world ≡ done r')
      × (r.success ≡ true)
      × (r'.success ≡ true)
      × (load_all r.object r.object.owners_sorted ≡ load_all r'.object r'.object.owners_sorted)
      × Permᴰ r.object.unexplained r'.object.unexplained
update_impl-same_report format_message c age z z' world u none_yet none_yet' acquired updated ok =
    let a =
      acquire_new_handles_to_existing_zombies format_message c.enumeration age no_handles
        world.handles in
    let (r, q, is, success, _, holds, right) =
      update_impl-held-IsReport format_message c age z world u none_yet acquired updated ok in
    let (r', q', is', success', _, holds', right') =
      update_impl-held-IsReport format_message c age z' world u none_yet' acquired updated ok in
    let alike =
      subst (λ entries. IsReport format_message c world.services a entries r'.object)
        (held_once u.object q'.entries q.entries holds' holds) right' in
    let (owners, unexplained) =
      load_all_unique format_message c world.services a q.entries r.object r'.object right alike in
    (r, r', is, is', success, success', owners, unexplained)
