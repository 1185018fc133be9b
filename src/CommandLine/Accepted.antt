-- ===== src/CommandLine/Accepted.antt =====
-- Which options the command line lets through.
use zombie_finder.Base.{◌≡◌, Bool, true, false, ◌⊎◌, []}
use zombie_finder.Base.Text.{Text}
use zombie_finder.CommandLine.{Options}

pub record IsAccepted (is_directory : Text → Bool) (o : Options) : Type 0 where
  pub alone :
      o.threads_report ≡ true
      → (o.details ≡ false) × (o.csv ≡ false) × (o.exit_age_in_secs ≡ 3) × (o.diag_directory ≡ [])
  pub exists : (o.diag_directory ≡ []) ⊎ (is_directory o.diag_directory ≡ true)
