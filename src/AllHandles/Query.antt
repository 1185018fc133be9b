-- ===== src/AllHandles/Query.antt =====
-- The query loop of `AllHandlesSystemwide::Update`: the size of the buffer, when it ends, and what a
-- result holds.
use mathlib.Core.Bool.{false≢true}
use zombie_finder.Base.{
  ℕ, ◌+◌, ◌/◌, ◌^◌, ◌<◌, ◌≤◌, ◌≡◌, ◌≢◌, ◌↔◌, refl, Bool, true, false, some, List, [], ◌∷◌, ◌++◌,
  inl, inr, arith, not, ltb, ◌==◌, Bool-cases, is_some, ◌⊎◌, Among, ap, ◌∙◌,
}
use zombie_finder.ErrorText.{FormatMessage}
use zombie_finder.Handles.{Trace}
use zombie_finder.HeapMem.Safety.{alloc-success}
use zombie_finder.AllHandles.{
  AllHandles, QueryAnswer, SystemAnswer, Updated, Round, finished, again, buffer_size, clear,
  query_round, round, query_loop, update, status_info_length_mismatch,
}

-- The test for overflow is exact: it fires for the lengths for which 25% more do not fit in 32 bits,
-- and it is where it does not fire that the buffer has the length and a quarter more.
pub buffer_size_overflow :
    (return_length : ℕ)
    → return_length < 2 ^ 32
    → ((ltb (buffer_size return_length) return_length ≡ true)
        ↔ (2 ^ 32 ≤ return_length + return_length / 4))
      × ((buffer_size return_length == return_length + return_length / 4)
          ≡ not (ltb (buffer_size return_length) return_length))
unfolding buffer_size
buffer_size_overflow return_length h = ground arith

-- The answer ends the loop, whatever the size of the buffer.
abbrev pub Settles : QueryAnswer → Type 0
Settles q = (size : ℕ) → q.status size ≢ status_info_length_mismatch

abbrev pub is_finished : Round → Bool
is_finished (finished u) = true
is_finished (again a return_length t) = false

query_round-Settles :
    (format_message : FormatMessage) (q : QueryAnswer) (size : ℕ) (a : AllHandles) (t : Trace)
    → Settles q
    → is_finished (query_round format_message q size a t) ≡ true
unfolding query_round
query_round-Settles format_message q size a t settles = ground (arith, settles size)

round-Settles :
    (format_message : FormatMessage) (q : QueryAnswer) (return_length : ℕ) (a : AllHandles)
    (t : Trace)
    → Settles q
    → is_finished (round format_message q return_length a t) ≡ true
unfolding round
round-Settles format_message q return_length a t settles =
    let (a', t') = clear format_message q.clear_calls a t in
    let size = buffer_size return_length in
    elim (Bool-cases (ltb size return_length)) [
      | inl e ↦ rw (e, round) refl
      | inr e ↦ rw (e, round) (query_round-Settles format_message q size a' t' settles)
    ]

-- What a call leaves that succeeds: a block that is not null, filled by one of the answers.
abbrev pub IsFilled : List QueryAnswer → Updated → Type 0
IsFilled rounds u =
    u.success ≡ true
    → (u.object.mem.mem ≢ 0)
      × ((q : QueryAnswer) × Among q rounds × (u.object.contents ≡ some q.entries))

query_round-IsFilled :
    (format_message : FormatMessage) (q : QueryAnswer) (size : ℕ) (a : AllHandles) (t : Trace)
    (u : Updated)
    → query_round format_message q size a t ≡ finished u
    → u.success ≡ true
    → (u.object.mem.mem ≢ 0) × (u.object.contents ≡ some q.entries)
unfolding query_round
query_round-IsFilled format_message q size a t u e ok =
    ground (arith, alloc-success format_message q.alloc_calls size a.mem t)

some_inj : {u v : Updated} → some u ≡ some v → u ≡ v
some_inj e = cc

-- A refusal is no success.
refused-success :
    {v u : Updated} {other : Type 0}
    → v.success ≡ false
    → some v ≡ some u
    → u.success ≡ true
    → other
refused-success refused e ok = cc (ap (λ w. w.success) (some_inj e))

abbrev success_of : Round → Bool
success_of (finished u) = u.success
success_of (again a return_length t) = false

Round-cases :
    (r : Round)
    → ((u : Updated) × (r ≡ finished u))
      ⊎ ((a : AllHandles) × (return_length : ℕ) × (t : Trace) × (r ≡ again a return_length t))
Round-cases (finished u) = inl (u, refl)
Round-cases (again a return_length t) = inr (a, return_length, t, refl)

module _ (format_message : FormatMessage) where
  round-IsFilled :
      (q : QueryAnswer) (return_length : ℕ) (a : AllHandles) (t : Trace) (u : Updated)
      → round format_message q return_length a t ≡ finished u
      → u.success ≡ true
      → (u.object.mem.mem ≢ 0) × (u.object.contents ≡ some q.entries)
  unfolding round
  round-IsFilled q return_length a t u e ok =
      let (a', t') = clear format_message q.clear_calls a t in
      let size = buffer_size return_length in
      elim (Bool-cases (ltb size return_length)) [
        | inl over ↦ absurd (false≢true (ap success_of (rw (over, round) at e) ∙ ok))
        | inr fits ↦ query_round-IsFilled format_message q size a' t' u (rw (fits, round) at e) ok
      ]

  query_loop-Settles :
      (before after : List QueryAnswer) (q : QueryAnswer) (return_length : ℕ) (a : AllHandles)
      (t : Trace)
      → Settles q
      → is_some (query_loop format_message (before ++ q ∷ after) return_length a t) ≡ true
  unfolding query_loop
  query_loop-Settles [] after q return_length a t settles =
      ground (arith, round-Settles format_message q return_length a t settles)
  query_loop-Settles (b ∷ before) after q return_length a t settles =
      elim (Round-cases (round format_message b return_length a t)) [
        | inl (u, e) ↦ rw (e, query_loop) refl
        | inr (a', return_length', t', e) ↦
            rw (e, query_loop) (query_loop-Settles before after q return_length' a' t' settles)
      ]

  query_loop-IsFilled :
      (rounds : List QueryAnswer) (return_length : ℕ) (a : AllHandles) (t : Trace) (u : Updated)
      → query_loop format_message rounds return_length a t ≡ some u
      → IsFilled rounds u
  unfolding query_loop
  query_loop-IsFilled [] return_length a t u e ok = cc
  query_loop-IsFilled (q ∷ rest) return_length a t u e ok =
      elim (Round-cases (round format_message q return_length a t)) [
        | inl (v, r) ↦
            let same : v ≡ u = some_inj (rw (r, query_loop) at e) in
            let (block, contents) =
              round-IsFilled q return_length a t u (r ∙ ap finished same) ok in
            (block, (q, inl refl, contents))
        | inr (a', return_length', t', r) ↦
            let (block, (q', among, contents)) =
              query_loop-IsFilled rest return_length' a' t' u (rw (r, query_loop) at e) ok in
            (block, (q', inr among, contents))
      ]

-- `Update` returns, if among the answers to its calls there is one that does not ask for a larger
-- buffer, however many ask for one in front of it.
pub update-returns :
    (format_message : FormatMessage) (s : SystemAnswer) (a : AllHandles) (t : Trace)
    (before after : List QueryAnswer) (q : QueryAnswer)
    → s.rounds ≡ before ++ q ∷ after
    → Settles q
    → is_some (update format_message s a t) ≡ true
unfolding update
update-returns format_message s a t before after q e settles =
    let (a', t') = clear format_message s.first_clear_calls a t in
    ground (
      arith,
      ap (λ rounds. query_loop format_message rounds s.first_return_length a' t') e,
      query_loop-Settles format_message before after q s.first_return_length a' t' settles,
    )

-- After an `Update` that succeeds, the object holds a block that is not null, filled by one of the
-- answers of the system.
pub update-IsFilled :
    (format_message : FormatMessage) (s : SystemAnswer) (a : AllHandles) (t : Trace) (u : Updated)
    → update format_message s a t ≡ some u
    → IsFilled s.rounds u
unfolding update
update-IsFilled format_message s a t u e ok =
    let (a', t') = clear format_message s.first_clear_calls a t in
    elim (Bool-cases (not s.ntdll_found)) [
      | inl x ↦ refused-success refl (rw (x, update) at e) ok
      | inr x ↦ elim (Bool-cases (not s.function_found)) [
        | inl y ↦ refused-success refl (rw (x, y, update) at e) ok
        | inr y ↦ elim (Bool-cases (not (s.first_status == status_info_length_mismatch))) [
          | inl z ↦ refused-success refl (rw (x, y, z, update) at e) ok
          | inr z ↦
              query_loop-IsFilled format_message s.rounds s.first_return_length a' t' u
                (rw (x, y, z, update) at e) ok
        ]
      ]
    ]
