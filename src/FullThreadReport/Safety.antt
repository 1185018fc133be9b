-- ===== src/FullThreadReport/Safety.antt =====
-- The handles that FullThreadReport.cpp opens and closes.
use zombie_finder.Base.{
  ℕ, not, List, [], ◌∷◌, inl, inr, ◌==◌, if◌then◌else◌, Bool-cases, ==_iff, subst,
}
use zombie_finder.ErrorText.{FormatMessage}
use zombie_finder.Handles.{
  Trace, opened, Fresh, Safe, Accounted, NoTable, open-Safe, close-Safe, close_second-Safe,
  null-Safe,
}
use zombie_finder.Processes.{to_dword}
use zombie_finder.FullThreadReport.{
  ThreadWait, ProcessState, ReportState, ReportCalls, ThreadCounts, no_threads, has_exited,
  count_thread, close_handle, count_threads, inspect_threads, report_process, report_processes,
  report_start, full_thread_report,
}

-- The handle that is still open, if it is not null.
abbrev pub held : ℕ → List ℕ → List ℕ
held h pending = if h == 0 then pending else h ∷ pending

Safely : Trace → List ℕ → Type 0
Safely t pending = Safe {V = Unit} t pending NoTable

not_null-Safe :
    (h : ℕ) (t : Trace) (pending : List ℕ) → Safely t (h ∷ pending) → Safely t (held h pending)
unfolding Safely
not_null-Safe h t pending s = λ f. elim (Bool-cases (h == 0)) [
  | inl e ↦ null-Safe (subst (λ k. Safe {V = Unit} t (k ∷ pending) NoTable) ((==_iff h 0).0 e) s) f
  | inr e ↦ rw (e) (s f)
]

close_handle-Safe :
    (h : ℕ) (t : Trace) (pending : List ℕ)
    → Safely t (held h pending)
    → Safely (close_handle h t) pending
unfolding Safely close_handle
close_handle-Safe h t pending s = elim (Bool-cases (h == 0)) [
  | inl e ↦ rw (e, close_handle) (rw (e) at s)
  | inr e ↦ rw (e, close_handle) (close-Safe h (rw (e) at s))
]

-- A new handle is opened, and then the one before it is closed.
next-Safe :
    (next prev : ℕ) (t : Trace) (pending : List ℕ)
    → Safely t (held prev pending)
    → Safely (close_handle prev (opened next ∷ t)) (held next pending)
unfolding Safely close_handle
next-Safe next prev t pending s =
    not_null-Safe next (close_handle prev (opened next ∷ t)) pending
      (elim (Bool-cases (prev == 0)) [
        | inl e ↦ rw (e, close_handle) (open-Safe next (rw (e) at s))
        | inr e ↦ rw (e, close_handle) (close_second-Safe next prev (open-Safe next (rw (e) at s)))
      ])

count_threads-Safe :
    (threads : List ThreadWait) (prev : ℕ) (c : ThreadCounts) (t : Trace) (pending : List ℕ)
    → Safely t (held prev pending)
    → let (_, last, t') = count_threads threads prev c t in Safely t' (held last pending)
unfolding count_threads
count_threads-Safe [] prev c t pending s = s
count_threads-Safe (a ∷ rest) prev c t pending s =
    count_threads-Safe rest a.handle (count_thread (has_exited a.wait) c)
      (close_handle prev (opened a.handle ∷ t)) pending (next-Safe a.handle prev t pending s)

inspect_threads-Safe :
    (a : ProcessState) (t : Trace) (pending : List ℕ)
    → Safely t pending
    → Safely (inspect_threads a t).1 pending
unfolding Safely inspect_threads
inspect_threads-Safe a t pending s =
    let process = a.open_process (to_dword a.information.basic_info.unique_process_id) in
    let (_, last, t') = count_threads (a.threads process) 0 no_threads (opened process ∷ t) in
    elim (Bool-cases (process == 0)) [
      | inl e ↦ rw (e, inspect_threads) s
      | inr e ↦
          rw (e, inspect_threads)
            (close-Safe process (
              close_handle-Safe last t' (process ∷ pending) (
                count_threads-Safe (a.threads process) 0 no_threads (opened process ∷ t)
                  (process ∷ pending) (open-Safe process s))))
    ]

report_process-Safe :
    (format_message : FormatMessage) (r : ReportState) (a : ProcessState)
    → Safely r.trace (held r.prev_process [])
    → let next = report_process format_message r a in Safely next.trace (held next.prev_process [])
unfolding report_process
report_process-Safe format_message r a s =
    let t = close_handle r.prev_process (opened a.handle ∷ r.trace) in
    let next = next-Safe a.handle r.prev_process r.trace [] s in
    elim (Bool-cases (a.basic_status == 0)) [
      | inl e ↦ rw (e, report_process) (inspect_threads-Safe a t (held a.handle []) next)
      | inr e ↦ rw (e, report_process) next
    ]

report_processes-Safe :
    (format_message : FormatMessage) (r : ReportState) (processes : List ProcessState)
    → Safely r.trace (held r.prev_process [])
    → let last = report_processes format_message r processes in
      Safely last.trace (held last.prev_process [])
unfolding report_processes
report_processes-Safe format_message r [] s = s
report_processes-Safe format_message r (a ∷ rest) s =
    report_processes-Safe format_message (report_process format_message r a) rest
      (report_process-Safe format_message r a s)

-- Started where no handle is open, and whatever the system answers, as long as each new handle
-- differs from those that are open, the report closes no handle that is not open, and leaves none
-- open.
pub full_thread_report-Accounted :
    (format_message : FormatMessage) (c : ReportCalls) (t : Trace)
    → Accounted {V = Unit} t [] NoTable
    → let (_, r) = full_thread_report format_message c t in
      Fresh r.trace → Accounted {V = Unit} r.trace [] NoTable
unfolding full_thread_report Safely
full_thread_report-Accounted format_message c t a =
    let start = report_start t in
    let s = report_processes format_message start c.processes in
    let loop = report_processes-Safe format_message start c.processes (λ f. a) in
    elim (Bool-cases (not c.ntdll_found)) [
      | inl e ↦ rw (e, full_thread_report) (λ f. a)
      | inr e ↦ elim (Bool-cases (not c.functions_found)) [
        | inl g ↦ rw (e, g, full_thread_report) (λ f. a)
        | inr g ↦ rw (e, g, full_thread_report) (close_handle-Safe s.prev_process s.trace [] loop)
      ]
    ]
