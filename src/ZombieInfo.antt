-- ===== src/ZombieInfo.antt =====
-- ZombieProcessThreadInfo.h: what is known of a process that has exited, or of one of its threads.
use zombie_finder.Base.{ℕ}
use zombie_finder.Base.Text.{Text}

-- A FILETIME is the 64-bit number of 100-nanosecond intervals that the code reads it as.
pub record ZombieProcessThreadInfo : Type 0 where
  pub pid : ℕ
  pub tid : ℕ
  pub image_path : Text
  pub create_time : ℕ
  pub exit_time : ℕ
  pub n_threads : ℕ
  pub parent_pid : ℕ
  pub parent_image_path : Text
