-- ===== src/ZombieHandles/Found.antt =====
-- What the lookup by handle holds after the enumeration (ZombieHandles.cpp).
use zombie_finder.NtInternal.{is_process_deleting}
use zombie_finder.Base.{
  ℕ, ◌+◌, ◌%◌, ◌^◌, ◌<◌, ◌≡◌, refl, ap, ap₂, sym, ◌∙◌, Bool, List, [], ◌∷◌, ◌++◌, map, append_assoc,
  append-nil, none, inl, inr, arith, ◌&&◌, ◌==◌, Bool-cases, if◌then◌else◌, length,
}
use zombie_finder.Base.Map.{put, find, put-append, count_key-zero}
use zombie_finder.Base.Text.{Text}
use zombie_finder.Handles.{
  Trace, opened, Fresh, Safe, occurrences, open-Safe, keep-Safe, live-le-one,
}
use zombie_finder.Processes.{
  ProcessCalls, query_limited_information, to_dword, get_parent_process_image_path_if_still_running,
}
use zombie_finder.ZombieHandles.{
  Loop, add_threads, open_threads, zombie_info, add_zombie, is_old_enough, next_ulong,
}
use zombie_finder.ZombieInfo.{ZombieProcessThreadInfo}
use zombie_finder.Enumeration.{ThreadAnswer, ProcessAnswer}
use zombie_finder.ZombieHandles.Safety.{Infos, parent-Safe, open_threads-Safe}

-- The process counts as a zombie: its query succeeded, it is being deleted, and it is old enough.
abbrev pub is_zombie : ℕ → ℕ → ProcessAnswer → Bool
is_zombie age now a =
    (a.basic_status == 0)
    && (is_process_deleting a.information && is_old_enough age now a.exit_time)

-- The path that is found for the parent does not depend on which handles are open.
abbrev pub parent_image_path : ProcessAnswer → Text
parent_image_path a =
    (get_parent_process_image_path_if_still_running a.parent_calls
      a.information.basic_info.inherited_from_unique_process_id a.create_time []).1

-- The threads that the code can reach.
abbrev pub zombie_threads : ProcessAnswer → List ThreadAnswer
zombie_threads a =
    let process = a.open_process (to_dword a.information.basic_info.unique_process_id) in
    if process == 0 then [] else a.threads process

abbrev pub thread_entry : ZombieProcessThreadInfo → ThreadAnswer → ℕ × ZombieProcessThreadInfo
thread_entry info a = (a.handle, record info { tid = a.thread_id })

abbrev pub process_info : ProcessAnswer → ZombieProcessThreadInfo
process_info a = record (zombie_info a (parent_image_path a)) {
  n_threads = length (zombie_threads a) % 2 ^ 32;
}

-- What one zombie adds to the lookup.
abbrev pub zombie_entries : ProcessAnswer → Infos
zombie_entries a =
    map (thread_entry (zombie_info a (parent_image_path a))) (zombie_threads a)
    ++ (a.handle, process_info a) ∷ []

abbrev pub all_entries : List ProcessAnswer → Infos
all_entries [] = []
all_entries (a ∷ rest) = zombie_entries a ++ all_entries rest

add_threads-Fresh :
    (info : ZombieProcessThreadInfo) (ts : List ThreadAnswer) (n : ℕ) (m : Infos) (t : Trace)
    → Fresh (add_threads info ts n m t).2
    → Fresh t
unfolding add_threads
add_threads-Fresh info [] n m t f = f
add_threads-Fresh info (a ∷ rest) n m t f = (add_threads-Fresh info rest _ _ _ f).2

-- A new handle is no key of the lookup.
find-new :
    {m : Infos} (k : ℕ) {t : Trace} {pending : List ℕ}
    → Safe t (k ∷ pending) m
    → Fresh t
    → find k m ≡ none
unfolding occurrences
find-new {m} k {t} s f = count_key-zero k m (ground (arith, (s f).holds k, live-le-one k t f))

add_threads-entries :
    (info : ZombieProcessThreadInfo) (ts : List ThreadAnswer) (n : ℕ) (m : Infos) (t : Trace)
    (pending : List ℕ)
    → Safe t pending m
    → Fresh (add_threads info ts n m t).2
    → (add_threads info ts n m t).1 ≡ m ++ map (thread_entry info) ts
unfolding add_threads
add_threads-entries info [] n m t pending s f = sym (append-nil m)
add_threads-entries info (a ∷ rest) n m t pending s f =
    let opening = open-Safe a.handle s in
    let info' = record info { tid = a.thread_id } in
    let added = put a.handle info' m in
    add_threads-entries info rest (next_ulong n) added (opened a.handle ∷ t) pending
      (keep-Safe a.handle info' opening) f
    ∙ ap (λ x. x ++ map (thread_entry info) rest)
        (put-append a.handle info' m
          (find-new a.handle opening (add_threads-Fresh info rest _ _ _ f)))
    ∙ append_assoc m _ _

pub add_threads-count :
    (info : ZombieProcessThreadInfo) (ts : List ThreadAnswer) (n : ℕ) (m : Infos) (t : Trace)
    → n < 2 ^ 32
    → (add_threads info ts n m t).0 ≡ (n + length ts) % 2 ^ 32
unfolding add_threads
add_threads-count info [] n m t h = omega arith
add_threads-count info (a ∷ rest) n m t h =
    omega (arith, add_threads-count info rest (next_ulong n) _ (opened a.handle ∷ t) (omega arith))

pub parent_path-trace :
    (a : ProcessAnswer) (t : Trace)
    → (get_parent_process_image_path_if_still_running a.parent_calls
        a.information.basic_info.inherited_from_unique_process_id a.create_time t).1
      ≡ parent_image_path a
unfolding get_parent_process_image_path_if_still_running
parent_path-trace a t = ground arith

parent-Fresh :
    (calls : ProcessCalls) (ppid time : ℕ) (t : Trace)
    → Fresh (get_parent_process_image_path_if_still_running calls ppid time t).2
    → Fresh t
unfolding get_parent_process_image_path_if_still_running
parent-Fresh calls ppid time t f =
    let process = calls.open_process query_limited_information (to_dword ppid) in
    elim (Bool-cases (process == 0)) [
      | inl e ↦ rw (e, get_parent_process_image_path_if_still_running) at f
      | inr e ↦ (rw (e, get_parent_process_image_path_if_still_running) at f).2
    ]

open_threads-Fresh :
    (a : ProcessAnswer) (info : ZombieProcessThreadInfo) (m : Infos) (t : Trace)
    → Fresh (open_threads a info m t).2
    → Fresh t
unfolding open_threads
open_threads-Fresh a info m t f =
    let process = a.open_process (to_dword info.pid) in
    elim (Bool-cases (process == 0)) [
      | inl e ↦ rw (e, open_threads) at f
      | inr e ↦
          (add_threads-Fresh info (a.threads process) 0 m (opened process ∷ t)
            (rw (e, open_threads) at f)).2
    ]

open_threads-entries :
    (a : ProcessAnswer) (path : Text) (m : Infos) (t : Trace) (pending : List ℕ)
    → Safe t pending m
    → let info = zombie_info a path in
      let r = open_threads a info m t in
      Fresh r.2
      → (r.1 ≡ m ++ map (thread_entry info) (zombie_threads a))
        × (r.0 ≡ length (zombie_threads a) % 2 ^ 32)
unfolding open_threads zombie_info
open_threads-entries a path m t pending s f =
    let info = zombie_info a path in
    let process = a.open_process (to_dword a.information.basic_info.unique_process_id) in
    let t' = opened process ∷ t in
    elim (Bool-cases (process == 0)) [
      | inl e ↦ rw (e, open_threads) (sym (append-nil m), refl)
      | inr e ↦
          rw (e, open_threads)
            (
              add_threads-entries info (a.threads process) 0 m t' (process ∷ pending)
                  (open-Safe process s) (rw (e, open_threads) at f),
              omega (arith, add_threads-count info (a.threads process) 0 m t' (omega arith)),
            )
    ]

abbrev entries_with : ProcessAnswer → Text → ℕ → Infos
entries_with a path n =
    map (thread_entry (zombie_info a path)) (zombie_threads a)
    ++ (a.handle, record (zombie_info a path) { n_threads = n }) ∷ []

-- Adding a zombie appends its entries.
pub add_zombie-entries :
    (a : ProcessAnswer) (l : Loop)
    → Safe l.trace (a.handle ∷ []) l.handles.lookup
    → Fresh (add_zombie a l).trace
    → (add_zombie a l).handles.lookup ≡ l.handles.lookup ++ zombie_entries a
unfolding add_zombie
add_zombie-entries a l s f =
    let (_, path, t) =
      get_parent_process_image_path_if_still_running a.parent_calls
        a.information.basic_info.inherited_from_unique_process_id a.create_time l.trace in
    let info = zombie_info a path in
    let r = open_threads a info l.handles.lookup t in
    let stored = record info { n_threads = r.0 } in
    let parent =
      parent-Safe a.parent_calls a.information.basic_info.inherited_from_unique_process_id
        a.create_time s in
    let (threads, count) =
      open_threads-entries a path l.handles.lookup t (a.handle ∷ []) parent f in
    let new = find-new a.handle (open_threads-Safe a info parent) f in
    put-append a.handle stored r.1 new
    ∙ ap (λ x. x ++ (a.handle, stored) ∷ []) threads
    ∙ append_assoc l.handles.lookup _ _
    ∙ ap₂ (λ p n. l.handles.lookup ++ entries_with a p n) (parent_path-trace a l.trace) count

pub add_zombie-Fresh : (a : ProcessAnswer) (l : Loop) → Fresh (add_zombie a l).trace → Fresh l.trace
unfolding add_zombie
add_zombie-Fresh a l f =
    let (_, path, t) =
      get_parent_process_image_path_if_still_running a.parent_calls
        a.information.basic_info.inherited_from_unique_process_id a.create_time l.trace in
    parent-Fresh a.parent_calls a.information.basic_info.inherited_from_unique_process_id
      a.create_time l.trace (open_threads-Fresh a (zombie_info a path) l.handles.lookup t f)
