-- ===== src/ZombieHandles/Safety.antt =====
-- The handles that ZombieHandles.cpp opens and closes.
use zombie_finder.NtInternal.{is_process_deleting}
use zombie_finder.Base.{
  ℕ, ◌≡◌, refl, subst, Bool, true, List, [], ◌∷◌, inl, inr, arith, not, ◌&&◌, ◌==◌, Bool-cases,
  if◌then◌else◌,
}
use zombie_finder.Base.Map.{Map, count_key}
use zombie_finder.ErrorText.{FormatMessage}
use zombie_finder.Handles.{
  Trace, opened, Fresh, Accounted, Safe, occurrences, open-Safe, close-Safe, close_second-Safe,
  keep-Safe, null-Safe,
}
use zombie_finder.Processes.{
  get_parent_process_image_path_if_still_running, ProcessCalls, to_dword, query_limited_information,
}
use zombie_finder.ZombieHandles.{
  no_handles, ZombieHandles, Loop, add_threads, open_threads, zombie_info, add_zombie, inspect,
  close_prev, visit, visit_all, close_all, enumerate, acquire_new_handles_to_existing_zombies,
  is_old_enough, loop_start,
}
use zombie_finder.ZombieInfo.{ZombieProcessThreadInfo}
use zombie_finder.Enumeration.{ThreadAnswer, ProcessAnswer, Enumeration}

abbrev pub Infos : Type 0
Infos = Map ZombieProcessThreadInfo

-- The parent's handle is closed before the function returns.
pub parent-Safe :
    {m : Infos} (calls : ProcessCalls) (ppid time : ℕ) {t : Trace} {pending : List ℕ}
    → Safe t pending m
    → Safe (get_parent_process_image_path_if_still_running calls ppid time t).2 pending m
unfolding get_parent_process_image_path_if_still_running
parent-Safe calls ppid time s =
    let process = calls.open_process query_limited_information (to_dword ppid) in
    elim (Bool-cases (process == 0)) [
      | inl e ↦ rw (e, get_parent_process_image_path_if_still_running) s
      | inr e ↦
          rw (e, get_parent_process_image_path_if_still_running)
            (close-Safe process (open-Safe process s))
    ]

pub add_threads-Safe :
    (info : ZombieProcessThreadInfo) (ts : List ThreadAnswer) (n : ℕ) (m : Infos) (t : Trace)
    (pending : List ℕ)
    → Safe t pending m
    → Safe (add_threads info ts n m t).2 pending (add_threads info ts n m t).1
unfolding add_threads
add_threads-Safe info [] n m t pending s = s
add_threads-Safe info (a ∷ rest) n m t pending s =
    add_threads-Safe info rest _ _ _ pending (keep-Safe a.handle _ (open-Safe a.handle s))

pub open_threads-Safe :
    (a : ProcessAnswer) (info : ZombieProcessThreadInfo) {m : Infos} {t : Trace} {pending : List ℕ}
    → Safe t pending m
    → Safe (open_threads a info m t).2 pending (open_threads a info m t).1
unfolding open_threads
open_threads-Safe a info {m} {t} s =
    let process = a.open_process (to_dword info.pid) in
    elim (Bool-cases (process == 0)) [
      | inl e ↦ rw (e, open_threads) s
      | inr e ↦
          rw (e, open_threads)
            (close-Safe process
              (add_threads-Safe info (a.threads process) 0 m _ _ (open-Safe process s)))
    ]

-- What is open and not stored, between two rounds.
abbrev pub pending_of : Bool → ℕ → List ℕ
pending_of close_prev_process prev_process =
    if close_prev_process && not (prev_process == 0) then prev_process ∷ [] else []

abbrev pub LoopIsSafe : Loop → Type 0
LoopIsSafe l = Safe l.trace (pending_of l.close_prev_process l.prev_process) l.handles.lookup

-- A zombie's process handle moves into the lookup.
pub add_zombie-Safe :
    (a : ProcessAnswer) (l : Loop)
    → Safe l.trace (a.handle ∷ []) l.handles.lookup
    → Safe (add_zombie a l).trace [] (add_zombie a l).handles.lookup
unfolding add_zombie
add_zombie-Safe a l s =
    let parent =
      get_parent_process_image_path_if_still_running a.parent_calls
        a.information.basic_info.inherited_from_unique_process_id a.create_time l.trace in
    let info = zombie_info a parent.1 in
    let threads = open_threads a info l.handles.lookup parent.2 in
    keep-Safe a.handle (record info { n_threads = threads.0 })
      (open_threads-Safe a info (
        parent-Safe a.parent_calls a.information.basic_info.inherited_from_unique_process_id
          a.create_time s))

-- The handle of the round before is closed, if it is pending.
pub close_prev-Safe :
    {m : Infos} (k prev : ℕ) (close : Bool) (t : Trace)
    → Safe t (pending_of close prev) m
    → Safe (close_prev close prev (opened k ∷ t)) (k ∷ []) m
unfolding close_prev
close_prev-Safe k prev close t s = elim (Bool-cases (close && not (prev == 0))) [
  | inl e ↦ rw (e, close_prev) (close_second-Safe k prev (open-Safe k (rw e at s)))
  | inr e ↦ rw (e, close_prev) (open-Safe k (rw e at s))
]

-- A process that is not stored stays pending; its handle is not null.
pending-Safe : {m : Infos} (k : ℕ) {t : Trace} → Safe t (k ∷ []) m → Safe t (pending_of true k) m
pending-Safe {m} k {t} s = elim (Bool-cases (k == 0)) [
  | inl e ↦ let z : k ≡ 0 = ground arith in λ f. null-Safe (subst (λ h. Safe t (h ∷ []) m) z s) f
  | inr e ↦ rw e s
]

pub inspect-Safe :
    (format_message : FormatMessage) (age now : ℕ) (a : ProcessAnswer) (l : Loop)
    → l.close_prev_process ≡ true
    → Safe l.trace (a.handle ∷ []) l.handles.lookup
    → LoopIsSafe (record (inspect format_message age now a l) { prev_process = a.handle })
unfolding inspect
inspect-Safe format_message age now a l c s = elim (Bool-cases (not (a.basic_status == 0))) [
  | inl e ↦ rw (e, inspect, c) (pending-Safe a.handle s)
  | inr e ↦
      elim (Bool-cases (is_process_deleting a.information && is_old_enough age now a.exit_time)) [
        | inl z ↦ rw (e, inspect, z) (add_zombie-Safe a l s)
        | inr z ↦ rw (e, inspect, z, c) (pending-Safe a.handle s)
      ]
]

pub visit-Safe :
    (format_message : FormatMessage) (age now : ℕ) (l : Loop) (a : ProcessAnswer)
    → LoopIsSafe l
    → LoopIsSafe (visit format_message age now l a)
unfolding visit
visit-Safe format_message age now l a s =
    inspect-Safe format_message age now a _ refl
      (close_prev-Safe a.handle l.prev_process l.close_prev_process l.trace s)

visit_all-Safe :
    (format_message : FormatMessage) (age now : ℕ) (l : Loop) (processes : List ProcessAnswer)
    → LoopIsSafe l
    → LoopIsSafe (visit_all format_message age now l processes)
unfolding visit_all
visit_all-Safe format_message age now l [] s = s
visit_all-Safe format_message age now l (a ∷ rest) s =
    visit_all-Safe format_message age now (visit format_message age now l a) rest
      (visit-Safe format_message age now l a s)

-- Releasing closes each key once.
pub close_all-Safe :
    (m : Infos) (t : Trace) → Safe t [] m → Safe {V = ZombieProcessThreadInfo} (close_all m t) [] []
unfolding close_all count_key occurrences
close_all-Safe [] t s = s
close_all-Safe ((h, v) ∷ m) t s = close_all-Safe m _ (close-Safe h (unstore s))
  where
    unstore : Safe t [] ((h, v) ∷ m) → Safe t (h ∷ []) m
    unstore s f = record { closes = (s f).closes; holds = λ k. ground (arith, (s f).holds k) }

close_last-Safe :
    {m : Infos} (prev : ℕ) (close : Bool) (t : Trace)
    → Safe t (pending_of close prev) m
    → Safe (close_prev close prev t) [] m
unfolding close_prev
close_last-Safe prev close t s = elim (Bool-cases (close && not (prev == 0))) [
  | inl e ↦ rw (e, close_prev) (close-Safe prev (rw e at s))
  | inr e ↦ rw (e, close_prev) (rw e at s)
]

enumerate-Safe :
    (format_message : FormatMessage) (e : Enumeration) (age : ℕ) (z : ZombieHandles) (t : Trace)
    → Safe t [] z.lookup
    → let r = enumerate format_message e age z t in Safe r.trace [] r.handles.lookup
unfolding enumerate
enumerate-Safe format_message e age z t s =
    let l = visit_all format_message age e.now (loop_start z t) e.processes in
    close_last-Safe l.prev_process l.close_prev_process l.trace
      (visit_all-Safe format_message age e.now (loop_start z t) e.processes s)

pub acquire-Safe :
    (format_message : FormatMessage) (e : Enumeration) (age : ℕ) (z : ZombieHandles) (t : Trace)
    → Safe t [] z.lookup
    → let r = acquire_new_handles_to_existing_zombies format_message e age z t in
      Safe r.trace [] r.handles.lookup
unfolding acquire_new_handles_to_existing_zombies
acquire-Safe format_message e age z t s =
    let released = close_all-Safe z.lookup t s in
    elim (Bool-cases (not e.ntdll_found)) [
      | inl x ↦ rw (x, acquire_new_handles_to_existing_zombies) released
      | inr x ↦ elim (Bool-cases (not e.functions_found)) [
        | inl y ↦ rw (x, y, acquire_new_handles_to_existing_zombies) released
        | inr y ↦
            rw (x, y, acquire_new_handles_to_existing_zombies)
              (enumerate-Safe format_message e age _ _ released)
      ]
    ]

-- Called where the open handles are those of the lookup, each once, and whatever the system
-- answers, as long as each new handle differs from those that are open: every handle that is
-- closed is open, and after the call the open handles are again those of the lookup, each once.
pub acquire_accounts_for_handles :
    (format_message : FormatMessage) (e : Enumeration) (age : ℕ) (z : ZombieHandles) (t : Trace)
    → Accounted t [] z.lookup
    → let r = acquire_new_handles_to_existing_zombies format_message e age z t in
      Fresh r.trace → Accounted r.trace [] r.handles.lookup
acquire_accounts_for_handles format_message e age z t s =
    acquire-Safe format_message e age z t (λ _. s)

-- A call that succeeds is the enumeration, after the release of what was held.
pub acquire-enumerate :
    (format_message : FormatMessage) (e : Enumeration) (age : ℕ) (z : ZombieHandles) (t : Trace)
    → let r = acquire_new_handles_to_existing_zombies format_message e age z t in
      r.success ≡ true → r ≡ enumerate format_message e age no_handles (close_all z.lookup t)
unfolding acquire_new_handles_to_existing_zombies
acquire-enumerate format_message e age z t ok = elim (Bool-cases (not e.ntdll_found)) [
  | inl x ↦ cc (rw (x, acquire_new_handles_to_existing_zombies) at ok)
  | inr x ↦ elim (Bool-cases (not e.functions_found)) [
    | inl y ↦ cc (rw (x, y, acquire_new_handles_to_existing_zombies) at ok)
    | inr y ↦ rw (x, y, acquire_new_handles_to_existing_zombies) refl
  ]
]
