-- ===== src/Tests/Rest.antt =====
-- Runs of the small functions.
use zombie_finder.Strings.Parent.{has_parent}
use zombie_finder.Strings.Last.{lacks}
use zombie_finder.Strings.Directory.{get_directory_name_from_file_path}
use zombie_finder.Base.Text.Scan.{scan_llu}
use zombie_finder.Base.{
  ℕ, ◌≡◌, ◌<◌, ◌+◌, ◌*◌, refl, true, ◌&&◌, none, some, [], ◌∷◌, ◌==◌, ◌++◌, ◌⊎◌, not, false, arith,
  ◌-◌, ◌^◌, if◌then◌else◌,
}
use zombie_finder.Base.Text.{codes, decimal}
use zombie_finder.Handles.{opened, live}
use zombie_finder.SecurityUtils.{enable_privilege, enable_privilege_lem}
use zombie_finder.Processes.Ago.{ago_parts, ago_parts_lem, ago}
use zombie_finder.CommandLine.{Options, default_options, parse_args, parsed}
use zombie_finder.CommandLine.Print.{arguments, parse_args-arguments}
use zombie_finder.Strings.{is_path_separator, get_file_name_from_file_path}
use zombie_finder.Strings.Paths.{split_file_path, join_extension, split_file_path-join, is_dot}
use zombie_finder.ZombieOwners.{ZombieOwner, no_owner, zombie_owner_comparator}
use zombie_finder.ZombieOwners.Comparator.{zombie_owner_comparator_strict_weak}
use zombie_finder.Tests.Scenario.{denied, privilege}

enable_privilege_lem_example :
    let c = privilege in
    let (success, _, t') = enable_privilege denied c [] (opened 32 ∷ []) in
    (success ≡ (c.token_opened && c.privilege_found && c.adjusted && (c.adjust_error == 0)))
    × (live 32 t' ≡ live 32 (opened 32 ∷ []))
unfolding live
enable_privilege_lem_example = enable_privilege_lem denied privilege [] (opened 32 ∷ []) 32 refl

ago_parts_lem_example :
    let p = ago_parts 100000 in
    (p.days * 86400 + p.hours * 3600 + p.minutes * 60 + p.seconds ≡ 100000)
    × (p.hours < 24)
    × (p.minutes < 60)
    × (p.seconds < 60)
ago_parts_lem_example = ago_parts_lem 100000

-- The example of the source's comment.
ago_100000 : ago 100000 ≡ codes "1 day 3 hrs 46 min 40 secs"
unfolding ago decimal
ago_100000 = refl

abbrev options : Options
options = record default_options {
  details = true;
  csv = true;
  exit_age_in_secs = 10;
  diag_directory = codes "C:\\Diag";
}

-- White space and a sign are skipped, what follows the digits is not read, and a number that does not
-- fit is the largest.
scanned :
    (scan_llu (codes " +10s") ≡ some 10)
    × (scan_llu (codes "-1") ≡ some (2 ^ 64 - 1))
    × (scan_llu (codes "99999999999999999999") ≡ some (2 ^ 64 - 1))
    × (scan_llu (codes "-out") ≡ none)
unfolding scan_llu
scanned = (refl, refl, refl, refl)

parse_args-arguments_example : parse_args (arguments options) default_options ≡ parsed options
parse_args-arguments_example = parse_args-arguments options (omega arith) (λ e. refl)

abbrev owner : ℕ → ZombieOwner
owner pid = record no_owner { pid = pid; exe_name = codes "C.exe" }

zombie_owner_comparator_strict_weak_example :
    (zombie_owner_comparator (owner 4) (owner 4) ≡ false)
    × ((zombie_owner_comparator (owner 4) (owner 8) && zombie_owner_comparator (owner 8) (owner 4))
        ≡ false)
    × ((zombie_owner_comparator (owner 4) (owner 8)
          && zombie_owner_comparator (owner 8) (owner 12)
          && not (zombie_owner_comparator (owner 4) (owner 12)))
        ≡ false)
    × ((zombie_owner_comparator (owner 4) (owner 12)
          && not (zombie_owner_comparator (owner 8) (owner 12))
          && not (zombie_owner_comparator (owner 4) (owner 8)))
        ≡ false)
zombie_owner_comparator_strict_weak_example =
    zombie_owner_comparator_strict_weak (owner 4) (owner 8) (owner 12)

split_file_path-join_example :
    let path = codes "\\\\srv\\dir.x/name.tar.gz" in
    let r = split_file_path path in
    let filename = join_extension r.filename_no_ext r.extension in
    (((path ≡ filename) × (r.directory ≡ []))
      ⊎ ((separator : ℕ) × (is_path_separator separator ≡ true)
          × (path ≡ r.directory ++ separator ∷ filename)))
    × (lacks is_path_separator filename ≡ true)
    × (lacks is_dot r.extension ≡ true)
    × (get_file_name_from_file_path path ≡ filename)
    × (get_directory_name_from_file_path path ≡ (if has_parent path then r.directory else []))
split_file_path-join_example = split_file_path-join (codes "\\\\srv\\dir.x/name.tar.gz")
