-- ===== src/ZombieHandles/Rounds.antt =====
-- The rounds of the enumeration: what the lookup, the lookup by process ID and the counters hold when
-- the loop has ended.
use zombie_finder.NtInternal.{is_process_deleting}
use zombie_finder.Base.{
  ℕ, ◌≡◌, refl, ap, sym, ◌∙◌, Bool, true, false, List, [], ◌∷◌, ◌++◌, append_assoc, append-nil, inl,
  inr, not, ◌&&◌, ◌==◌, Bool-cases, if◌then◌else◌, filter,
}
use zombie_finder.ErrorText.{FormatMessage}
use zombie_finder.Handles.{Trace, opened, Fresh, Safe, Accounted}
use zombie_finder.ZombieHandles.{
  ZombieHandles, Loop, inspect, close_prev, visit, visit_all, enumerate,
  acquire_new_handles_to_existing_zombies, close_all, is_old_enough, loop_start, no_handles,
}
use zombie_finder.Enumeration.{ProcessAnswer, Enumeration}
use zombie_finder.ZombieHandles.Safety.{
  close_prev-Safe, visit-Safe, LoopIsSafe, close_all-Safe, acquire-enumerate,
}
use zombie_finder.ZombieHandles.Found.{
  is_zombie, zombie_entries, all_entries, add_zombie-Fresh, add_zombie-entries,
}

inspect-Fresh :
    (format_message : FormatMessage) (age now : ℕ) (a : ProcessAnswer) (l : Loop)
    → Fresh (inspect format_message age now a l).trace
    → Fresh l.trace
unfolding inspect
inspect-Fresh format_message age now a l f = elim (Bool-cases (not (a.basic_status == 0))) [
  | inl e ↦ rw (e, inspect) at f
  | inr e ↦
      elim (Bool-cases (is_process_deleting a.information && is_old_enough age now a.exit_time)) [
        | inl z ↦ add_zombie-Fresh a l (rw (e, inspect, z) at f)
        | inr z ↦ rw (e, inspect, z) at f
      ]
]

-- A process that is no zombie leaves the lookup as it was.
inspect-entries :
    (format_message : FormatMessage) (age now : ℕ) (a : ProcessAnswer) (l : Loop)
    → Safe l.trace (a.handle ∷ []) l.handles.lookup
    → let r = inspect format_message age now a l in
      Fresh r.trace
      → r.handles.lookup
        ≡ l.handles.lookup ++ (if is_zombie age now a then zombie_entries a else [])
unfolding inspect
inspect-entries format_message age now a l s f = elim (Bool-cases (a.basic_status == 0)) [
  | inr e ↦ rw (e, inspect) (sym (append-nil l.handles.lookup))
  | inl e ↦
      elim (Bool-cases (is_process_deleting a.information && is_old_enough age now a.exit_time)) [
        | inl z ↦ rw (e, inspect, z) (add_zombie-entries a l s (rw (e, inspect, z) at f))
        | inr z ↦ rw (e, inspect, z) (sym (append-nil l.handles.lookup))
      ]
]

close_prev-Fresh : (close : Bool) (prev : ℕ) (t : Trace) → Fresh (close_prev close prev t) → Fresh t
unfolding close_prev
close_prev-Fresh close prev t f = elim (Bool-cases (close && not (prev == 0))) [
  | inl e ↦ rw (e, close_prev) at f
  | inr e ↦ rw (e, close_prev) at f
]

visit-Fresh :
    (format_message : FormatMessage) (age now : ℕ) (l : Loop) (a : ProcessAnswer)
    → Fresh (visit format_message age now l a).trace
    → Fresh l.trace
unfolding visit
visit-Fresh format_message age now l a f =
    (close_prev-Fresh l.close_prev_process l.prev_process (opened a.handle ∷ l.trace)
      (inspect-Fresh format_message age now a _ f)).2

visit-entries :
    (format_message : FormatMessage) (age now : ℕ) (l : Loop) (a : ProcessAnswer)
    → LoopIsSafe l
    → let r = visit format_message age now l a in
      Fresh r.trace
      → r.handles.lookup
        ≡ l.handles.lookup ++ (if is_zombie age now a then zombie_entries a else [])
unfolding visit
visit-entries format_message age now l a s f =
    inspect-entries format_message age now a _
      (close_prev-Safe a.handle l.prev_process l.close_prev_process l.trace s) f

all_entries-if :
    (b : Bool) (a : ProcessAnswer) (rest : List ProcessAnswer)
    → all_entries (if b then a ∷ rest else rest)
      ≡ (if b then zombie_entries a else []) ++ all_entries rest
all_entries-if true a rest = refl
all_entries-if false a rest = refl

visit_all-Fresh :
    (format_message : FormatMessage) (age now : ℕ) (l : Loop) (processes : List ProcessAnswer)
    → Fresh (visit_all format_message age now l processes).trace
    → Fresh l.trace
unfolding visit_all
visit_all-Fresh format_message age now l [] f = f
visit_all-Fresh format_message age now l (a ∷ rest) f =
    visit-Fresh format_message age now l a
      (visit_all-Fresh format_message age now (visit format_message age now l a) rest f)

visit_all-entries :
    (format_message : FormatMessage) (age now : ℕ) (l : Loop) (processes : List ProcessAnswer)
    → LoopIsSafe l
    → let r = visit_all format_message age now l processes in
      Fresh r.trace
      → r.handles.lookup ≡ l.handles.lookup ++ all_entries (filter (is_zombie age now) processes)
unfolding visit_all
visit_all-entries format_message age now l [] s f = sym (append-nil l.handles.lookup)
visit_all-entries format_message age now l (a ∷ rest) s f =
    let l' = visit format_message age now l a in
    let later =
      visit_all-entries format_message age now l' rest (visit-Safe format_message age now l a s)
        f in
    let first =
      visit-entries format_message age now l a s
        (visit_all-Fresh format_message age now l' rest f) in
    later
    ∙ ap (λ x. x ++ all_entries (filter (is_zombie age now) rest)) first
    ∙ append_assoc l.handles.lookup _ _
    ∙ ap (λ x. l.handles.lookup ++ x)
        (sym (all_entries-if (is_zombie age now a) a (filter (is_zombie age now) rest)))

-- The loop ends with one close at most, which changes no lookup.
enumerate-entries :
    (format_message : FormatMessage) (e : Enumeration) (age : ℕ) (z : ZombieHandles) (t : Trace)
    → Safe t [] z.lookup
    → let r = enumerate format_message e age z t in
      Fresh r.trace
      → r.handles.lookup ≡ z.lookup ++ all_entries (filter (is_zombie age e.now) e.processes)
unfolding enumerate
enumerate-entries format_message e age z t s f =
    let l = visit_all format_message age e.now (loop_start z t) e.processes in
    visit_all-entries format_message age e.now (loop_start z t) e.processes s
      (close_prev-Fresh l.close_prev_process l.prev_process l.trace f)

-- After a call that succeeds, from a state in which the open handles are those of the lookup, and
-- for a trace in which each new handle differs from those that are open, the lookup by handle
-- holds one entry for each thread and for the process of each zombie, in the order of the
-- enumeration, and nothing else: no earlier entry, and no other process.
pub acquired-lookup :
    (format_message : FormatMessage) (e : Enumeration) (age : ℕ) (z : ZombieHandles) (t : Trace)
    → Accounted t [] z.lookup
    → let r = acquire_new_handles_to_existing_zombies format_message e age z t in
      r.success ≡ true
      → Fresh r.trace
      → r.handles.lookup ≡ all_entries (filter (is_zombie age e.now) e.processes)
acquired-lookup format_message e age z t s ok f =
    let same = acquire-enumerate format_message e age z t ok in
    rw same (
      enumerate-entries format_message e age no_handles (close_all z.lookup t)
        (close_all-Safe z.lookup t (λ _. s)) (rw same at f))
