-- ===== src/Handles.antt =====
-- The handles of this process: a trace of the calls that open and close them, newest first, and
-- what it takes for a function to leak no handle and to close none twice.
use zombie_finder.Base.{ℕ, ◌+◌, ◌-◌, ◌≤◌, ◌≡◌, refl, ◌≢◌, List, [], ◌∷◌, arith, ◌==◌, if◌then◌else◌}
use zombie_finder.Base.Map.{Map, put, count_key, count_key-put}

-- `opened h` stands for a call that succeeded and gave the handle `h`, `closed h` for `CloseHandle`.
pub data Event : Type 0 where
  opened closed : ℕ → Event

abbrev pub Trace : Type 0
Trace = List Event

-- How many times `h` is open.
unfoldable pub live : ℕ → Trace → ℕ
live h [] = 0
live h (opened k ∷ t) = (if k == h then 1 else 0) + live h t
live h (closed k ∷ t) = live h t - (if k == h then 1 else 0)

-- What the system documents: a new handle is not null and differs from all that are open.
abbrev pub Fresh : Trace → Type 0
Fresh [] = Unit
Fresh (opened k ∷ t) = (k ≢ 0) × (live k t ≡ 0) × Fresh t
Fresh (closed k ∷ t) = Fresh t

-- Every handle that is closed is open.
abbrev pub ClosesLive : Trace → Type 0
ClosesLive [] = Unit
ClosesLive (opened k ∷ t) = ClosesLive t
ClosesLive (closed k ∷ t) = (live k t ≡ 1) × ClosesLive t

unfoldable pub occurrences : ℕ → List ℕ → ℕ
occurrences h [] = 0
occurrences h (k ∷ ks) = (if k == h then 1 else 0) + occurrences h ks

-- No close went wrong, and what is open is what the table holds, and what is pending.
pub record Accounted {ℓ} {V : Type ℓ} (t : Trace) (pending : List ℕ) (m : Map V) : Type ℓ where
  pub closes : ClosesLive t
  pub holds : (h : ℕ) → live h t ≡ count_key h m + occurrences h pending

-- For what stores nothing in a table.
abbrev pub NoTable : Map (Unit {0})
NoTable = []

abbrev pub Safe {ℓ} : {V : Type ℓ} → Trace → List ℕ → Map V → Type ℓ
Safe t pending m = Fresh t → Accounted t pending m

pub nothing-Safe : Safe [] [] NoTable
unfolding live occurrences count_key
nothing-Safe f = record { closes = tt; holds = λ h. refl }

pub live-le-one : (h : ℕ) (t : Trace) → Fresh t → live h t ≤ 1
unfolding live
live-le-one h [] f = omega arith
live-le-one h (opened k ∷ t) f = ground (arith, live-le-one h t f.2)
live-le-one h (closed k ∷ t) f = ground (arith, live-le-one h t f)

pub live-zero : (t : Trace) → Fresh t → live 0 t ≡ 0
unfolding live
live-zero [] f = refl
live-zero (opened k ∷ t) f = ground (arith, live-zero t f.2)
live-zero (closed k ∷ t) f = ground (arith, live-zero t f)

module _ {ℓ} {V : Type ℓ} {m : Map V} where
  pub open-Safe :
      (k : ℕ) {t : Trace} {pending : List ℕ}
      → Safe t pending m
      → Safe (opened k ∷ t) (k ∷ pending) m
  unfolding live occurrences
  open-Safe k s f = record { closes = (s f.2).closes; holds = λ h. omega (arith, (s f.2).holds h) }

  -- The last handle opened but one is closed, or the last.
  pub close-Safe :
      (k : ℕ) {t : Trace} {pending : List ℕ}
      → Safe t (k ∷ pending) m
      → Safe (closed k ∷ t) pending m
  unfolding live occurrences
  close-Safe k {t} s f =
      let a = s f in
      record {
        closes = (ground (arith, a.holds k, live-le-one k t f), a.closes);
        holds = λ h. ground (arith, a.holds h);
      }

  pub close_second-Safe :
      (j k : ℕ) {t : Trace} {pending : List ℕ}
      → Safe t (j ∷ k ∷ pending) m
      → Safe (closed k ∷ t) (j ∷ pending) m
  unfolding live occurrences
  close_second-Safe j k {t} s f =
      let a = s f in
      record {
        closes = (ground (arith, a.holds k, live-le-one k t f), a.closes);
        holds = λ h. ground (arith, a.holds h);
      }

  -- A pending handle is stored in the table.
  pub keep-Safe :
      (k : ℕ) (v : V) {t : Trace} {pending : List ℕ}
      → Safe t (k ∷ pending) m
      → Safe t pending (put k v m)
  unfolding occurrences
  keep-Safe k v {t} s f =
      let a = s f in
      record {
        closes = a.closes;
        holds = λ h. ground (arith, a.holds h, a.holds k, live-le-one k t f, count_key-put k h v m);
      }

  -- A null handle is never pending.
  pub null-Safe :
      {t : Trace} {pending : List ℕ} {other : Type 0} → Safe t (0 ∷ pending) m → Fresh t → other
  unfolding occurrences
  null-Safe {t} s f = absurd (ground (arith, (s f).holds 0, live-zero t f))
