-- ===== src/Tests/Files.antt =====
-- Runs of the functions that write files.
use zombie_finder.Base.{◌≡◌, refl, true, false, some, [], ◌∷◌, ◌++◌, map}
use zombie_finder.Base.Text.{Text, codes}
use zombie_finder.FileOutput.{FileStream, create_file_output}
use zombie_finder.FileOutput.Contents.{contents_after, marked, filled, create_file_output-contents}
use zombie_finder.Outputs.Rows.{read_table}
use zombie_finder.Tests.Scenario.{times, writable, times_plain}
use zombie_finder.ZombieHandles.{ZombieHandles}
use zombie_finder.ZombieInfo.{ZombieProcessThreadInfo}
use zombie_finder.ZombieHandles.Dump.{dump_zombie_handles}
use zombie_finder.ZombieHandles.Reread.{
  zombie_columns, zombie_fields, read_table-dump_zombie_handles,
}

-- A file with two characters.
create_file_output-contents_example :
    (stream : FileStream) × ((create_file_output writable (codes "o.txt") true ≡ some stream)
      × (contents_after (some (codes "ab")) stream (codes "c")
          ≡ marked true (some (codes "ab")) (codes "c")))
create_file_output-contents_example =
    create_file_output-contents writable (codes "o.txt") true (some (codes "ab")) (codes "c")
      (filled refl refl) (λ mode. refl)

abbrev zombie : ZombieProcessThreadInfo
zombie = record {
  pid = 40;
  tid = 44;
  image_path = codes "a.exe";
  create_time = 10;
  exit_time = 0;
  n_threads = 1;
  parent_pid = 4;
  parent_image_path = [];
}

abbrev handles : ZombieHandles
handles = record {
  lookup = (100, zombie) ∷ (104, record zombie { tid = 0 }) ∷ [];
  n_zombie_processes = 1;
  n_total_processes = 2;
}

abbrev overwrites : FileStream
overwrites = record { append = false; generate_header = true }

opens_file : create_file_output writable (codes "z.txt") false ≡ some overwrites
unfolding create_file_output
opens_file = refl

read_table-dump_zombie_handles_example :
    (text : Text) × (dump_zombie_handles writable times 77 handles (codes "z.txt") false []
      ≡ record { success = true; error_info = []; file = some (overwrites, text) })
    × (read_table text ≡ (zombie_columns ∷ map (zombie_fields times 77) handles.lookup) ++ [] ∷ [])
read_table-dump_zombie_handles_example =
    read_table-dump_zombie_handles writable times 77 handles (codes "z.txt") false [] overwrites
      times_plain refl opens_file
