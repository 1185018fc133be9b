-- ===== src/ZombieHandles/Dump.antt =====
-- `ZombieHandles::Dump` (ZombieHandles.cpp).
use zombie_finder.Base.{ℕ, Bool, true, false, some, [], ◌∷◌}
use zombie_finder.Base.Map.{Map}
use zombie_finder.Base.Text.{Text, codes, ◌<<◌, decimal}
use zombie_finder.FileOutput.{FileCalls, Dumped, write_dump}
use zombie_finder.Hex.{hex}
use zombie_finder.Strings.Times.{TimeCalls, file_time_to_w_string}
use zombie_finder.ZombieHandles.{ZombieHandles}
use zombie_finder.ZombieInfo.{ZombieProcessThreadInfo}

unfoldable pub dump_zombie : TimeCalls → ℕ → ℕ × ZombieProcessThreadInfo → Text
dump_zombie times this_pid (handle, z) =
    decimal this_pid
    << codes "\t"
    << hex 8 handle 8 false true
    << codes "\t"
    << decimal z.pid
    << codes "\t"
    << decimal z.tid
    << codes "\t"
    << decimal z.n_threads
    << codes "\t"
    << z.image_path
    << codes "\t"
    << file_time_to_w_string times z.create_time false (some [])
    << codes "\t"
    << file_time_to_w_string times z.exit_time false (some [])
    << codes "\t"
    << decimal z.parent_pid
    << codes "\t"
    << z.parent_image_path
    << codes "\n"

unfoldable pub dump_zombies : TimeCalls → ℕ → Map ZombieProcessThreadInfo → Text
unfolding dump_zombie
dump_zombies times this_pid [] = []
dump_zombies times this_pid (e ∷ lookup) =
    dump_zombie times this_pid e << dump_zombies times this_pid lookup

abbrev pub zombie_dump_heading : Text
zombie_dump_heading =
    codes "ThisPID\t"
    << codes "HandleValue\t"
    << codes "PID\t"
    << codes "TID\t"
    << codes "nThreads\t"
    << codes "ImagePath\t"
    << codes "createTime\t"
    << codes "exitTime\t"
    << codes "PPID\t"
    << codes "ParentImagePath"
    << codes "\n"

-- `this_pid` is what `GetCurrentProcessId` gives.
unfoldable pub dump_zombie_handles :
    FileCalls → TimeCalls → ℕ → ZombieHandles → Text → Bool → Text → Dumped
unfolding write_dump dump_zombies
dump_zombie_handles calls times this_pid z out_file append error_info =
    write_dump calls (codes "ZombieHandles::Dump") out_file append error_info
      (zombie_dump_heading << dump_zombies times this_pid z.lookup)
