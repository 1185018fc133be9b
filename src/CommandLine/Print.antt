-- ===== src/CommandLine/Print.antt =====
-- Arguments that stand for a set of options, and how the command line reads them.
use zombie_finder.Base.Text.Scan.{scan_llu, scan_llu-decimal}
use zombie_finder.Base.{
  ℕ, ◌≡◌, refl, ◌∙◌, Bool, true, false, some, List, [], ◌∷◌, ◌++◌, if◌then◌else◌, ◌<◌, ◌^◌,
}
use zombie_finder.Base.Text.{Text, codes, decimal}
use zombie_finder.Strings.{wcsicmp}
use zombie_finder.CommandLine.{Options, Parsed, parsed, switch_of, parse_args, default_options}

-- The options after the switches without a value.
abbrev base : Bool → Bool → Bool → Options
base d c t = record default_options { details = d; csv = c; threads_report = t }

abbrev when : Bool → List Text → List Text
when b l = if b then l else []

abbrev secs_arguments : Options → List Text
secs_arguments o =
    codes "-secs" ∷ decimal o.exit_age_in_secs ∷ when o.out_to_file (codes "-out" ∷ o.out_file ∷ [])
    ++ codes "-diag" ∷ o.diag_directory ∷ []

abbrev threads_arguments : Options → List Text
threads_arguments o = when o.threads_report (codes "-threads" ∷ []) ++ secs_arguments o

abbrev csv_arguments : Options → List Text
csv_arguments o = when o.csv (codes "-CSV" ∷ []) ++ threads_arguments o

-- The arguments for options.
abbrev pub arguments : Options → List Text
arguments o = when o.details (codes "-Details" ∷ []) ++ csv_arguments o

parse : List Text → Options → Parsed
parse = parse_args

abbrev from : Bool → Bool → Bool → Bool → ℕ → Text → Text → Options
from d c t w n file directory = record {
  details = d;
  csv = c;
  threads_report = t;
  exit_age_in_secs = n;
  out_to_file = w;
  out_file = file;
  diag_directory = directory;
}

module _ (n : ℕ) (file directory : Text) where
  parse-secs :
      (d c t w : Bool)
      → scan_llu (decimal n) ≡ some n
      → (w ≡ false → file ≡ [])
      → parse (secs_arguments (from d c t w n file directory)) (base d c t)
        ≡ parsed (from d c t w n file directory)
  unfolding parse parse_args switch_of wcsicmp
  parse-secs d c t true reads no_file = rw (reads, parse, parse_args) refl
  parse-secs d c t false reads no_file = rw (reads, no_file refl, parse, parse_args) refl

  parse-threads :
      (d c t w : Bool)
      → parse (threads_arguments (from d c t w n file directory)) (base d c false)
        ≡ parse (secs_arguments (from d c t w n file directory)) (base d c t)
  unfolding parse parse_args switch_of wcsicmp
  parse-threads d c true w = refl
  parse-threads d c false w = refl

  parse-csv :
      (d c t w : Bool)
      → parse (csv_arguments (from d c t w n file directory)) (base d false false)
        ≡ parse (threads_arguments (from d c t w n file directory)) (base d c false)
  unfolding parse parse_args switch_of wcsicmp
  parse-csv d true true w = refl
  parse-csv d true false w = refl
  parse-csv d false t w = refl

  parse-details :
      (d c t w : Bool)
      → parse (arguments (from d c t w n file directory)) (base false false false)
        ≡ parse (csv_arguments (from d c t w n file directory)) (base d false false)
  unfolding parse parse_args switch_of wcsicmp
  parse-details true true t w = refl
  parse-details true false true w = refl
  parse-details true false false w = refl
  parse-details false c t w = refl

-- The loop reads the options back from their arguments, if the age is a 64-bit number, and an output
-- file is named only where the output goes to a file.
pub parse_args-arguments :
    (o : Options)
    → o.exit_age_in_secs < 2 ^ 64
    → (o.out_to_file ≡ false → o.out_file ≡ [])
    → parse_args (arguments o) default_options ≡ parsed o
unfolding parse
parse_args-arguments o small no_file =
    let d = o.details in
    let c = o.csv in
    let t = o.threads_report in
    let w = o.out_to_file in
    let n = o.exit_age_in_secs in
    let file = o.out_file in
    let directory = o.diag_directory in
    parse-details n file directory d c t w
    ∙ parse-csv n file directory d c t w
    ∙ parse-threads n file directory d c t w
    ∙ parse-secs n file directory d c t w (scan_llu-decimal n small) no_file
