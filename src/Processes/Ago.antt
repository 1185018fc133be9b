-- ===== src/Processes/Ago.antt =====
-- `Ago` (UtilityFunctions.cpp): a number of seconds as days, hours, minutes and seconds.
use zombie_finder.Base.{
  ℕ, ◌+◌, ◌*◌, ◌/◌, ◌%◌, ◌<◌, ◌≡◌, ◌||◌, [], ◌++◌, arith, ltb, ◌==◌, if◌then◌else◌,
}
use zombie_finder.Base.Text.{Text, codes, decimal}

pub record Parts : Type 0 where
  pub days : ℕ
  pub hours : ℕ
  pub minutes : ℕ
  pub seconds : ℕ

-- The variables of the function.
unfoldable pub ago_parts : ℕ → Parts
ago_parts seconds_ago =
    let within_day = seconds_ago % (24 * 3600) in
    let within_hour = within_day % 3600 in
    record {
      days = seconds_ago / (24 * 3600);
      hours = within_day / 3600;
      minutes = within_hour / 60;
      seconds = within_hour % 60;
    }

unfoldable pub ago_text : Parts → Text
ago_text p =
    let show_hours = ltb 0 p.days || ltb 0 p.hours in
    (if ltb 0 p.days
      then decimal p.days ++ (if p.days == 1 then codes " day " else codes " days ")
      else [])
    ++ (if show_hours
        then decimal p.hours ++ (if p.hours == 1 then codes " hour " else codes " hrs ")
        else [])
    ++ (if show_hours || ltb 0 p.minutes then decimal p.minutes ++ codes " min " else [])
    ++ decimal p.seconds
    ++ codes " secs"

unfoldable pub ago : ℕ → Text
unfolding ago_parts ago_text
ago seconds_ago = ago_text (ago_parts seconds_ago)

-- The parts that `Ago` prints add up to the number of seconds, and each but the days is less than
-- what the next larger unit holds.
pub ago_parts_lem :
    (n : ℕ)
    → let p = ago_parts n in
      (p.days * 86400 + p.hours * 3600 + p.minutes * 60 + p.seconds ≡ n)
      × (p.hours < 24)
      × (p.minutes < 60)
      × (p.seconds < 60)
unfolding ago_parts
ago_parts_lem n = (omega arith, omega arith, omega arith, omega arith)
