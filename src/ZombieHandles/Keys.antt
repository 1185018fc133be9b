-- ===== src/ZombieHandles/Keys.antt =====
-- The keys of the lookup by process ID that `AcquireNewHandlesToExistingZombies` fills.
use zombie_finder.Base.{ℕ, ◌≡◌, true, List, [], ◌∷◌, inl, inr, Bool-cases, subst, sym}
use zombie_finder.Base.Map.{Distinct, put-Distinct}
use zombie_finder.ErrorText.{FormatMessage}
use zombie_finder.Handles.{Trace}
use zombie_finder.ZombieHandles.{
  ZombieHandles, Loop, visit, visit_all, loop_start, close_all, enumerate, no_handles,
  acquire_new_handles_to_existing_zombies,
}
use zombie_finder.Enumeration.{ProcessAnswer, Enumeration}
use zombie_finder.ZombieHandles.Counts.{visit-pids}
use zombie_finder.ZombieHandles.Found.{is_zombie, process_info}
use zombie_finder.ZombieHandles.Safety.{acquire-enumerate}

module _ (format_message : FormatMessage) (age now : ℕ) where
  visit-Distinct :
      (l : Loop) (a : ProcessAnswer)
      → Distinct l.pid_lookup
      → Distinct (visit format_message age now l a).pid_lookup
  visit-Distinct l a d =
      let is = visit-pids format_message age now l a in
      elim (Bool-cases (is_zombie age now a)) [
        | inl e ↦ subst Distinct (sym (rw e at is)) (
            put-Distinct a.information.basic_info.unique_process_id (process_info a) l.pid_lookup d)
        | inr e ↦ subst Distinct (sym (rw e at is)) d
      ]

  visit_all-Distinct :
      (l : Loop) (processes : List ProcessAnswer)
      → Distinct l.pid_lookup
      → Distinct (visit_all format_message age now l processes).pid_lookup
  unfolding visit_all
  visit_all-Distinct l [] d = d
  visit_all-Distinct l (a ∷ rest) d =
      visit_all-Distinct (visit format_message age now l a) rest (visit-Distinct l a d)

-- No process ID stands in the lookup twice.
pub acquired-Distinct :
    (format_message : FormatMessage) (e : Enumeration) (age : ℕ) (z : ZombieHandles) (t : Trace)
    → let r = acquire_new_handles_to_existing_zombies format_message e age z t in
      r.success ≡ true → Distinct r.pid_lookup
unfolding enumerate
acquired-Distinct format_message e age z t ok = rw (acquire-enumerate format_message e age z t ok) (
    visit_all-Distinct format_message age e.now (loop_start no_handles (close_all z.lookup t))
      e.processes tt)
