-- ===== src/ZombieHandles/Reread.antt =====
-- What a reader that splits the dump of the zombies finds in it.
use zombie_finder.Base.{
  ℕ, ◌≡◌, refl, ap, ◌∙◌, Bool, true, false, some, List, [], ◌∷◌, ◌++◌, map, arith, all,
}
use zombie_finder.Base.Map.{Map}
use zombie_finder.Base.Text.{Text, codes, decimal, ◌<<◌}
use zombie_finder.FileOutput.{FileCalls, FileStream, create_file_output, write_dump}
use zombie_finder.Hex.{hex}
use zombie_finder.Outputs.Plain.{plain-decimal, plain-hex, plain-file_time_to_w_string}
use zombie_finder.Outputs.Reread.{plain_zombie}
use zombie_finder.Outputs.Rows.{plain, print_rows, clean_row, read_table, read_table-print_rows}
use zombie_finder.Strings.Times.{TimeCalls, file_time_to_w_string}
use zombie_finder.ZombieHandles.{ZombieHandles}
use zombie_finder.ZombieInfo.{ZombieProcessThreadInfo}
use zombie_finder.ZombieHandles.Dump.{
  dump_zombie, dump_zombies, dump_zombie_handles, zombie_dump_heading,
}

abbrev pub zombie_columns : List Text
zombie_columns =
    codes "ThisPID"
    ∷ codes "HandleValue"
    ∷ codes "PID"
    ∷ codes "TID"
    ∷ codes "nThreads"
    ∷ codes "ImagePath"
    ∷ codes "createTime"
    ∷ codes "exitTime"
    ∷ codes "PPID"
    ∷ codes "ParentImagePath"
    ∷ []

abbrev pub zombie_fields : TimeCalls → ℕ → ℕ × ZombieProcessThreadInfo → List Text
zombie_fields times this_pid (handle, z) =
    decimal this_pid
    ∷ hex 8 handle 8 false true
    ∷ decimal z.pid
    ∷ decimal z.tid
    ∷ decimal z.n_threads
    ∷ z.image_path
    ∷ file_time_to_w_string times z.create_time false (some [])
    ∷ file_time_to_w_string times z.exit_time false (some [])
    ∷ decimal z.parent_pid
    ∷ z.parent_image_path
    ∷ []

abbrev pub plain_zombies : Map ZombieProcessThreadInfo → Bool
plain_zombies lookup = all (λ e. plain_zombie e.1) lookup

module _ (times : TimeCalls) (this_pid : ℕ) where
  print_zombies :
      (lookup : Map ZombieProcessThreadInfo)
      → dump_zombies times this_pid lookup ≡ print_rows (map (zombie_fields times this_pid) lookup)
  unfolding dump_zombies dump_zombie
  print_zombies [] = refl
  print_zombies ((handle, z) ∷ lookup) =
      ap (λ t. dump_zombie times this_pid (handle, z) << t) (print_zombies lookup)

  clean-zombie_fields :
      ((size : ℕ) (t : Text) → plain t ≡ true → plain (times.overflow size t) ≡ true)
      → (lookup : Map ZombieProcessThreadInfo) → plain_zombies lookup ≡ true
      → all (clean_row 10) (map (zombie_fields times this_pid) lookup) ≡ true
  clean-zombie_fields overflow [] h = refl
  clean-zombie_fields overflow ((handle, z) ∷ lookup) h = ground (
    arith,
    h,
    plain-decimal this_pid,
    plain-hex 8 handle 8 false true,
    plain-decimal z.pid,
    plain-decimal z.tid,
    plain-decimal z.n_threads,
    plain-file_time_to_w_string times z.create_time overflow,
    plain-file_time_to_w_string times z.exit_time overflow,
    plain-decimal z.parent_pid,
    clean-zombie_fields overflow lookup,
  )

write_dump-opened :
    (calls : FileCalls) (function out_file : Text) (append : Bool) (error_info text : Text)
    (f : FileStream)
    → create_file_output calls out_file append ≡ some f
    → write_dump calls function out_file append error_info text
      ≡ record { success = true; error_info = error_info; file = some (f, text) }
unfolding write_dump
write_dump-opened calls function out_file append error_info text f opened =
    rw (opened, write_dump) refl

-- If the file can be opened, `ZombieHandles::Dump` succeeds, leaves the error text alone, and writes a
-- text that is, split into lines and these at the tabs, the heading, one row of ten fields for each
-- handle in the order of the lookup, and an empty line, if the paths hold no tab and no line break and
-- a time text that does not fit its buffer gets none.
pub read_table-dump_zombie_handles :
    (calls : FileCalls) (times : TimeCalls) (this_pid : ℕ) (z : ZombieHandles) (out_file : Text)
    (append : Bool) (error_info : Text) (f : FileStream)
    → ((size : ℕ) (t : Text) → plain t ≡ true → plain (times.overflow size t) ≡ true)
    → plain_zombies z.lookup ≡ true
    → create_file_output calls out_file append ≡ some f
    → (text : Text) × (dump_zombie_handles calls times this_pid z out_file append error_info
        ≡ record { success = true; error_info = error_info; file = some (f, text) })
      × (read_table text
          ≡ (zombie_columns ∷ map (zombie_fields times this_pid) z.lookup) ++ [] ∷ [])
unfolding dump_zombie_handles
read_table-dump_zombie_handles calls times this_pid z out_file append error_info f overflow clean
      opened =
    (
      zombie_dump_heading << dump_zombies times this_pid z.lookup,
      write_dump-opened calls (codes "ZombieHandles::Dump") out_file append error_info
          (zombie_dump_heading << dump_zombies times this_pid z.lookup) f opened,
      ap (λ t. read_table (zombie_dump_heading << t)) (print_zombies times this_pid z.lookup)
          ∙ read_table-print_rows 10 zombie_columns (map (zombie_fields times this_pid) z.lookup)
              (omega arith)
              (ground (arith, clean-zombie_fields times this_pid overflow z.lookup clean)),
    )
