-- ===== src/FullThreadReport/Counts.antt =====
-- The counts of the threads in FullThreadReport.cpp.
use zombie_finder.Base.{
  ℕ, ◌≡◌, ◌+◌, ◌%◌, ◌^◌, refl, Bool, List, [], ◌∷◌, arith, ◌==◌, if◌then◌else◌, length, filter,
}
use zombie_finder.Handles.{Trace, opened}
use zombie_finder.FullThreadReport.{
  ThreadWait, ThreadCounts, no_threads, has_exited, count_thread, count_threads, close_handle,
}

-- The wait on the thread succeeded, and on a thread that runs it timed out.
abbrev pub is_exited_thread : ThreadWait → Bool
is_exited_thread a = a.wait == 0

abbrev pub is_active_thread : ThreadWait → Bool
is_active_thread a = a.wait == 258

counts-from :
    (threads : List ThreadWait) (prev : ℕ) (c : ThreadCounts) (t : Trace) (total active exited : ℕ)
    → c.n_total_threads ≡ total % 2 ^ 64
    → c.n_active_threads ≡ active % 2 ^ 64
    → c.n_exited_threads ≡ exited % 2 ^ 64
    → let (r, _, _) = count_threads threads prev c t in
      (r.n_total_threads ≡ (total + length threads) % 2 ^ 64)
      × (r.n_active_threads ≡ (active + length (filter is_active_thread threads)) % 2 ^ 64)
      × (r.n_exited_threads ≡ (exited + length (filter is_exited_thread threads)) % 2 ^ 64)
unfolding count_threads count_thread has_exited
counts-from [] prev c t total active exited h j k =
    (omega (arith, h), omega (arith, j), omega (arith, k))
counts-from (a ∷ rest) prev c t total active exited h j k =
    let c' = count_thread (has_exited a.wait) c in
    let t' = close_handle prev (opened a.handle ∷ t) in
    let active' = active + (if a.wait == 258 then 1 else 0) in
    let exited' = exited + (if a.wait == 0 then 1 else 0) in
    let (x, y, z) =
      counts-from rest a.handle c' t' (total + 1) active' exited' (ground arith) (ground arith)
        (ground arith) in
    (ground (arith, x), ground (arith, y), ground (arith, z))

-- The loop over the threads of a process counts all of them, those on which the wait times out, and
-- those on which it succeeds, each modulo 2^64.
count_threads_lem :
    (threads : List ThreadWait) (t : Trace)
    → let (r, _, _) = count_threads threads 0 no_threads t in
      (r.n_total_threads ≡ length threads % 2 ^ 64)
      × (r.n_active_threads ≡ length (filter is_active_thread threads) % 2 ^ 64)
      × (r.n_exited_threads ≡ length (filter is_exited_thread threads) % 2 ^ 64)
count_threads_lem threads t =
    let (x, y, z) = counts-from threads 0 no_threads t 0 0 0 refl refl refl in
    (omega (arith, x), omega (arith, y), omega (arith, z))
