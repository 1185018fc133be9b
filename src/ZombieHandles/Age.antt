-- ===== src/ZombieHandles/Age.antt =====
-- When a process that has exited is old enough to count as a zombie.
use zombie_finder.Base.{
  ℕ, ◌≡◌, ◌≢◌, ◌<◌, ◌≤◌, ◌+◌, ◌*◌, ◌⊎◌, inl, inr, ◌↔◌, true, arith, ◌==◌, Bool-cases,
}
use zombie_finder.ZombieHandles.{is_old_enough}

-- A process is old enough if and only if it has an exit time, and either no age is asked for, or
-- the exit lies before the present time and by at least `age` seconds; times count units of 100
-- nanoseconds.
pub is_old_enough_lem :
    (age now exit_time : ℕ)
    → (is_old_enough age now exit_time ≡ true)
      ↔ ((exit_time ≢ 0) × ((age ≡ 0) ⊎ ((exit_time < now) × (exit_time + age * 10000000 ≤ now))))
unfolding is_old_enough
is_old_enough_lem age now exit_time = (
  λ h. (
    ground arith,
    elim (Bool-cases (age == 0)) [
      | inl e ↦ inl (ground arith)
      | inr e ↦ inr (ground arith, ground arith)
    ],
  ),
  λ h. ground arith,
)
