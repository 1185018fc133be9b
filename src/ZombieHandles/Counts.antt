-- ===== src/ZombieHandles/Counts.antt =====
-- The lookup by process ID, the counters and the errors of an enumeration.
use zombie_finder.NtInternal.{is_process_deleting}
use zombie_finder.Base.{
  ℕ, suc, ◌+◌, ◌%◌, ◌^◌, ◌<◌, ◌≡◌, refl, ap, ap₂, ◌∙◌, Bool, true, Option, none, some, List, [],
  ◌∷◌, inl, inr, arith, not, ◌&&◌, ◌==◌, Bool-cases, if◌then◌else◌, length, length-append, filter,
}
use zombie_finder.Base.Map.{put, find, find-put}
use zombie_finder.Base.Text.{Text}
use zombie_finder.ErrorText.{FormatMessage}
use zombie_finder.Handles.{Trace, opened}
use zombie_finder.Processes.{to_dword, get_parent_process_image_path_if_still_running}
use zombie_finder.ZombieHandles.{
  ZombieHandles, Loop, open_threads, zombie_info, add_zombie, inspect, visit, visit_all, next_size,
  acquire_new_handles_to_existing_zombies, enumerate, is_old_enough, loop_start,
  basic_information_error, enumeration_error, close_all, no_handles,
}
use zombie_finder.ZombieInfo.{ZombieProcessThreadInfo}
use zombie_finder.Enumeration.{ProcessAnswer, Enumeration}
use zombie_finder.ZombieHandles.Safety.{Infos, acquire-enumerate}
use zombie_finder.ZombieHandles.Found.{
  is_zombie, zombie_threads, process_info, parent_path-trace, add_threads-count,
}

-- The information on the last zombie with the process ID; `before` stands in front of them.
abbrev pub last_with_pid :
    ℕ → List ProcessAnswer → Option ZombieProcessThreadInfo → Option ZombieProcessThreadInfo
last_with_pid pid [] before = before
last_with_pid pid (a ∷ rest) before =
    last_with_pid pid rest
      (if a.information.basic_info.unique_process_id == pid then some (process_info a) else before)

open_threads-count :
    (a : ProcessAnswer) (path : Text) (m : Infos) (t : Trace)
    → (open_threads a (zombie_info a path) m t).0 ≡ length (zombie_threads a) % 2 ^ 32
unfolding open_threads zombie_info
open_threads-count a path m t =
    let info = zombie_info a path in
    let process = a.open_process (to_dword a.information.basic_info.unique_process_id) in
    elim (Bool-cases (process == 0)) [
      | inl e ↦ rw (e, open_threads) refl
      | inr e ↦
          rw (e, open_threads)
            (omega (
              arith,
              add_threads-count info (a.threads process) 0 m (opened process ∷ t) (omega arith),
            ))
    ]

add_zombie-pid_lookup :
    (a : ProcessAnswer) (l : Loop)
    → (add_zombie a l).pid_lookup
      ≡ put a.information.basic_info.unique_process_id (process_info a) l.pid_lookup
unfolding add_zombie
add_zombie-pid_lookup a l =
    let (_, path, t) =
      get_parent_process_image_path_if_still_running a.parent_calls
        a.information.basic_info.inherited_from_unique_process_id a.create_time l.trace in
    ap₂
      (λ p n.
        put a.information.basic_info.unique_process_id (record (zombie_info a p) { n_threads = n })
          l.pid_lookup)
      (parent_path-trace a l.trace) (open_threads-count a path l.handles.lookup t)

-- What one round does to the two collections and the two counters.
record RoundCounts (l r : Loop) (zombie failed : Bool) (a : ProcessAnswer) : Type 0 where
  pids : r.pid_lookup ≡ (
      if zombie
      then put a.information.basic_info.unique_process_id (process_info a) l.pid_lookup
      else l.pid_lookup)
  zombies :
      r.handles.n_zombie_processes
      ≡ (if zombie then next_size l.handles.n_zombie_processes else l.handles.n_zombie_processes)
  total : r.handles.n_total_processes ≡ l.handles.n_total_processes
  failures : length r.errors ≡ (if failed then suc (length l.errors) else length l.errors)

inspect-RoundCounts :
    (format_message : FormatMessage) (age now : ℕ) (a : ProcessAnswer) (l : Loop)
    → RoundCounts l
        (inspect format_message age now a l)
        (is_zombie age now a)
        (not (a.basic_status == 0))
        a
unfolding inspect
inspect-RoundCounts format_message age now a l = elim (Bool-cases (a.basic_status == 0)) [
  | inr e ↦
      rw (e, inspect)
        (record {
          pids = refl;
          zombies = refl;
          total = refl;
          failures = omega (
            arith,
            length-append l.errors
                (basic_information_error format_message a l.handles.n_total_processes ∷ []),
          );
        })
  | inl e ↦
      elim (Bool-cases (is_process_deleting a.information && is_old_enough age now a.exit_time)) [
        | inl z ↦
            rw (e, z, inspect)
              (record {
                pids = add_zombie-pid_lookup a l;
                zombies = refl;
                total = refl;
                failures = refl;
              })
        | inr z ↦
            rw (e, z, inspect)
              (record { pids = refl; zombies = refl; total = refl; failures = refl })
      ]
]

abbrev pub failed_query : ProcessAnswer → Bool
failed_query a = not (a.basic_status == 0)

module _ (format_message : FormatMessage) (age now : ℕ) where
  abbrev pub visits : Loop → List ProcessAnswer → Loop
  visits l processes = visit_all format_message age now l processes

  pub visit-pids :
      (l : Loop) (a : ProcessAnswer)
      → (visit format_message age now l a).pid_lookup ≡ (
          if is_zombie age now a
          then put a.information.basic_info.unique_process_id (process_info a) l.pid_lookup
          else l.pid_lookup)
  unfolding visit
  visit-pids l a = (inspect-RoundCounts format_message age now a _).pids

  visit-counts :
      (l : Loop) (a : ProcessAnswer)
      → let r = visit format_message age now l a in
        (r.handles.n_total_processes ≡ next_size l.handles.n_total_processes)
        × (r.handles.n_zombie_processes ≡ (
            if is_zombie age now a
            then next_size l.handles.n_zombie_processes
            else l.handles.n_zombie_processes))
        × (length r.errors ≡ (if failed_query a then suc (length l.errors) else length l.errors))
  unfolding visit
  visit-counts l a =
      let r = inspect-RoundCounts format_message age now a _ in (r.total, r.zombies, r.failures)

  visit_all-pids :
      (l : Loop) (processes : List ProcessAnswer) (pid : ℕ)
      → find pid (visits l processes).pid_lookup
        ≡ last_with_pid pid (filter (is_zombie age now) processes) (find pid l.pid_lookup)
  unfolding visit_all
  visit_all-pids l [] pid = refl
  visit_all-pids l (a ∷ rest) pid =
      let l' = visit format_message age now l a in
      let zombies = filter (is_zombie age now) rest in
      let ih = visit_all-pids l' rest pid in
      let first = ap (find pid) (visit-pids l a) in
      elim (Bool-cases (is_zombie age now a)) [
        | inl e ↦ rw e (
            ih
            ∙ ap (last_with_pid pid zombies)
                (rw e at first ∙ find-put a.information.basic_info.unique_process_id pid _ _))
        | inr e ↦ rw e (ih ∙ ap (last_with_pid pid zombies) (rw e at first))
      ]

  visit_all-counts :
      (l : Loop) (processes : List ProcessAnswer)
      → l.handles.n_total_processes < 2 ^ 64
      → l.handles.n_zombie_processes < 2 ^ 64
      → let r = visits l processes in
        (r.handles.n_total_processes ≡ (l.handles.n_total_processes + length processes) % 2 ^ 64)
        × (r.handles.n_zombie_processes
            ≡ (l.handles.n_zombie_processes + length (filter (is_zombie age now) processes))
              % 2 ^ 64)
        × (length r.errors ≡ length l.errors + length (filter failed_query processes))
  unfolding visit_all
  visit_all-counts l [] h k = omega arith
  visit_all-counts l (a ∷ rest) h k =
      let l' = visit format_message age now l a in
      let (total, zombies, errors) = visit-counts l a in
      let ih = visit_all-counts l' rest (omega arith) in ground (arith, total, zombies, errors, ih)

-- After a call that succeeds, the lookup by process ID gives for each process ID the information on
-- the last zombie with it, and nothing where no zombie has it.
pub acquired-pid_lookup :
    (format_message : FormatMessage) (e : Enumeration) (age : ℕ) (z : ZombieHandles) (t : Trace)
    (pid : ℕ)
    → let r = acquire_new_handles_to_existing_zombies format_message e age z t in
      r.success ≡ true
      → find pid r.pid_lookup ≡ last_with_pid pid (filter (is_zombie age e.now) e.processes) none
unfolding enumerate find
acquired-pid_lookup format_message e age z t pid ok =
    rw (acquire-enumerate format_message e age z t ok) (
      visit_all-pids format_message age e.now (loop_start no_handles (close_all z.lookup t))
        e.processes pid)

-- After a call that succeeds, the counters are the numbers of processes and of zombies, modulo
-- 2^64, and the errors are one for each failed query and one for an unexpected end.
pub acquired-counts :
    (format_message : FormatMessage) (e : Enumeration) (age : ℕ) (z : ZombieHandles) (t : Trace)
    → let r = acquire_new_handles_to_existing_zombies format_message e age z t in
      r.success ≡ true
      → (r.handles.n_total_processes ≡ length e.processes % 2 ^ 64)
        × (r.handles.n_zombie_processes
            ≡ length (filter (is_zombie age e.now) e.processes) % 2 ^ 64)
        × (length r.errors
            ≡ length (filter failed_query e.processes)
              + (if e.end_status == 0x8000001a then 0 else 1))
unfolding enumerate
acquired-counts format_message e age z t ok =
    let start = loop_start no_handles (close_all z.lookup t) in
    let l = visit_all format_message age e.now start e.processes in
    let (total, zombies, errors) =
      visit_all-counts format_message age e.now start e.processes (omega arith) (omega arith) in
    let report = enumeration_error format_message e.end_status l.handles.n_total_processes in
    rw (acquire-enumerate format_message e age z t ok) (
      omega (arith, total),
      omega (arith, zombies),
      ground (arith, errors, length-append l.errors (report ∷ [])),
    )
