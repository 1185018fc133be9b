-- ===== src/CommandLine.antt =====
-- The command line (`wmain` of ZombieFinder.cpp up to the check of the directory). `Usage` ends the
-- program; its screen stands in Wmain/Usage.
pub mod Print
pub mod Accepted
use zombie_finder.Base.Text.Scan.{scan_llu}
use zombie_finder.Base.{
  ℕ, Bool, true, false, not, ◌&&◌, ◌||◌, Option, none, some, List, [], ◌∷◌, ltb, ◌==◌, ◌++◌,
  if◌then◌else◌, length,
}
use zombie_finder.Base.Text.{Text, codes}
use zombie_finder.Strings.{wcsicmp, equal, less, greater, Comparison, is_path_separator}

pub record Options : Type 0 where
  pub details : Bool
  pub csv : Bool
  pub threads_report : Bool
  pub exit_age_in_secs : ℕ
  pub out_to_file : Bool
  pub out_file : Text
  pub diag_directory : Text

abbrev pub default_options : Options
default_options = record {
  details = false;
  csv = false;
  threads_report = false;
  exit_age_in_secs = 3;
  out_to_file = false;
  out_file = [];
  diag_directory = [];
}

-- `usage`: the program ends, with this line of error text if there is one.
pub data Parsed : Type 0 where
  usage : Option Text → Parsed
  parsed : Options → Parsed

pub data Switch : Type 0 where
  details_switch csv_switch threads_switch secs_switch out_switch diag_switch : Switch
  other_switch : Switch

abbrev is_equal : Comparison → Bool
is_equal equal = true
is_equal less = false
is_equal greater = false

-- Which of the `_wcsicmp` comparisons holds first.
unfoldable pub switch_of : Text → Switch
switch_of a =
    if is_equal (wcsicmp (codes "-details") a)
    then details_switch
    else if is_equal (wcsicmp (codes "-csv") a)
    then csv_switch
    else if is_equal (wcsicmp (codes "-threads") a)
    then threads_switch
    else if is_equal (wcsicmp (codes "-secs") a)
    then secs_switch
    else if is_equal (wcsicmp (codes "-out") a)
    then out_switch
    else if is_equal (wcsicmp (codes "-diag") a)
    then diag_switch
    else other_switch

unfoldable same_text : Text → Text → Bool
same_text [] [] = true
same_text [] (d ∷ t) = false
same_text (c ∷ s) [] = false
same_text (c ∷ s) (d ∷ t) = c == d && same_text s t

unfoldable pub unrecognized : Text → Parsed
unfolding same_text
unrecognized a =
    if same_text (codes "-?") a || same_text (codes "/?") a
    then usage none
    else usage (some (codes "Unrecognized command-line option"))

-- An argument without a value.
unfoldable pub set_switch : Switch → Options → Options
set_switch details_switch o = record o { details = true }
set_switch csv_switch o = record o { csv = true }
set_switch threads_switch o = record o { threads_report = true }
set_switch _ o = o

-- The last argument.
unfoldable pub parse_last : Text → Switch → Options → Parsed
unfolding unrecognized set_switch
parse_last a details_switch o = parsed (set_switch details_switch o)
parse_last a csv_switch o = parsed (set_switch csv_switch o)
parse_last a threads_switch o = parsed (set_switch threads_switch o)
parse_last a secs_switch o = usage (some (codes "Missing arg for -secs"))
parse_last a out_switch o = usage (some (codes "Missing arg for -out"))
parse_last a diag_switch o = usage (some (codes "Missing arg for -diag"))
parse_last a other_switch o = unrecognized a

-- The loop over the arguments.
unfoldable pub parse_args : List Text → Options → Parsed
unfolding switch_of parse_last
parse_args [] o = parsed o
parse_args (a ∷ []) o = parse_last a (switch_of a) o
parse_args (a ∷ v ∷ rest) o = elim (switch_of a) [
  | details_switch ↦ parse_args (v ∷ rest) (record o { details = true })
  | csv_switch ↦ parse_args (v ∷ rest) (record o { csv = true })
  | threads_switch ↦ parse_args (v ∷ rest) (record o { threads_report = true })
  | secs_switch ↦ elim (scan_llu v) [
    | none ↦ usage (some (codes "Invalid arg for -secs"))
    | some n ↦ parse_args rest (record o { exit_age_in_secs = n })
  ]
  | out_switch ↦ parse_args rest (record o { out_to_file = true; out_file = v })
  | diag_switch ↦ parse_args rest (record o { diag_directory = v })
  | other_switch ↦ unrecognized a
]

-- Whether the switches exclude each other.
unfoldable pub is_invalid_combination : Options → Bool
is_invalid_combination o =
    o.threads_report
    && (o.details || o.csv || not (o.exit_age_in_secs == 3) || ltb 0 (length o.diag_directory))

unfoldable pub check_combination : Parsed → Parsed
unfolding is_invalid_combination
check_combination (usage e) = usage e
check_combination (parsed o) =
    if is_invalid_combination o
    then usage (some (codes "Invalid combination of switches"))
    else parsed o

-- The loop that removes the last character while it is a path separator.
unfoldable pub trim_separators : Text → Text
trim_separators [] = []
trim_separators (c ∷ s) =
    let rest = trim_separators s in if is_path_separator c && length rest == 0 then [] else c ∷ rest

-- `is_directory`: what `GetFileAttributesW` tells of the path.
unfoldable pub check_directory : (Text → Bool) → Parsed → Parsed
unfolding trim_separators
check_directory is_directory (usage e) = usage e
check_directory is_directory (parsed o) =
    let directory = trim_separators o.diag_directory in
    if not (ltb 0 (length o.diag_directory))
    then parsed o
    else if is_directory directory
    then parsed (record o { diag_directory = directory })
    else usage (some (codes "-diag argument is not a directory"))

unfoldable pub command_line : (Text → Bool) → List Text → Parsed
unfolding parse_args check_combination check_directory
command_line is_directory args =
    check_directory is_directory (check_combination (parse_args args default_options))
