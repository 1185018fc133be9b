-- ===== src/Outputs/Printed.antt =====
-- The tab-delimited formats print their tables.
use zombie_finder.Base.{
  ℕ, ◌≡◌, refl, ap, ap₂, sym, ◌∙◌, List, [], ◌∷◌, ◌++◌, map, arith, length, append_assoc,
  append-nil, replicate, lt→ltb, suc,
}
use zombie_finder.Base.Text.{Text, codes, decimal, ◌<<◌}
use zombie_finder.Outputs.{unless_empty, tab_delim, end_line}
use zombie_finder.Outputs.DetailsCsv.{
  details_row, owner_rows, all_owner_rows, unexplained_row, unexplained_rows, details_error_rows,
  details_heading, output_details_csv,
}
use zombie_finder.Outputs.Rows.{print_rows, print_rows-append, print_row}
use zombie_finder.Outputs.SummaryCsv.{
  summary_row, summary_rows, summary_error_rows, output_summary_csv,
}
use zombie_finder.Strings.Times.{TimeCalls}
use zombie_finder.ZombieInfo.{ZombieProcessThreadInfo}
use zombie_finder.ZombieOwners.{ZombieOwner, ZombieOwningInfo}
use zombie_finder.ZombieOwners.Object.{ZombieOwners}
use zombie_finder.Outputs.Tables.{
  summary_fields, details_fields, unexplained_fields, error_fields, summary_heading,
  details_columns, no_process_rows, summary_table, owner_table, details_table,
}

-- Three blocks of rows behind one another.
print_blocks :
    (xs ys zs : List (List Text))
    → print_rows (xs ++ (ys ++ zs)) ≡ print_rows xs ++ (print_rows ys ++ print_rows zs)
print_blocks xs ys zs =
    print_rows-append xs (ys ++ zs) ∙ ap (λ t. print_rows xs ++ t) (print_rows-append ys zs)

print_summary_rows :
    (coll : List ZombieOwner) → summary_rows coll ≡ print_rows (map summary_fields coll)
unfolding summary_rows summary_row
print_summary_rows [] = refl
print_summary_rows (o ∷ coll) = ap (λ t. summary_row o << t) (print_summary_rows coll)

unless_empty-all {ℓ} :
    {A : Type ℓ} (f : List A → Text) → f [] ≡ [] → (xs : List A) → unless_empty xs (f xs) ≡ f xs
unless_empty-all f h [] = sym h
unless_empty-all f h (x ∷ xs) = rw (lt→ltb 0 (suc (length xs)) (omega arith)) refl

print_summary_errors :
    (errors : List Text)
    → summary_error_rows errors
      ≡ print_rows (map (λ e. error_fields 4 ((codes "ERROR: " << e) ∷ [])) errors)
unfolding summary_error_rows
print_summary_errors [] = refl
print_summary_errors (e ∷ errors) =
    ap (λ t. codes "ERROR: " << e << tab_delim << tab_delim << tab_delim << end_line << t)
      (print_summary_errors errors)
    ∙ sym (
        append_assoc (codes "ERROR: " << e) (tab_delim << tab_delim << tab_delim << end_line)
          (print_rows (map (λ e. error_fields 4 ((codes "ERROR: " << e) ∷ [])) errors)))

print_no_process_rows :
    (zombies : List ZombieProcessThreadInfo)
    → unless_empty zombies (
        codes "(No process)"
        << tab_delim
        << tab_delim
        << decimal (length zombies)
        << tab_delim
        << end_line)
      ≡ print_rows (no_process_rows zombies)
print_no_process_rows [] = refl
print_no_process_rows (z ∷ zombies) =
    rw (lt→ltb 0 (suc (length zombies)) (omega arith)) (sym (append-nil _))

pub output_summary_csv-table :
    (coll : List ZombieOwner) (z : ZombieOwners)
    → output_summary_csv coll z ≡ print_rows (summary_heading ∷ summary_table coll z)
unfolding output_summary_csv summary_error_rows
output_summary_csv-table coll z =
    ap (λ t. print_row summary_heading << t)
      (ap₂ (λ s t. s << t) (print_summary_rows coll)
          (ap₂ (λ s t. s << t) (print_no_process_rows z.unexplained)
            (unless_empty-all summary_error_rows refl z.process_enum_errors
              ∙ print_summary_errors z.process_enum_errors))
        ∙ sym (
            print_blocks (map summary_fields coll) (no_process_rows z.unexplained)
              (map (λ e. error_fields 4 ((codes "ERROR: " << e) ∷ [])) z.process_enum_errors)))

print_owner_rows :
    (calls : TimeCalls) (now : ℕ) (o : ZombieOwner) (infos : List ZombieOwningInfo)
    → owner_rows calls now o infos ≡ print_rows (map (details_fields calls now o) infos)
unfolding owner_rows details_row
print_owner_rows calls now o [] = refl
print_owner_rows calls now o (info ∷ infos) =
    ap (λ t. details_row calls now o info << t) (print_owner_rows calls now o infos)

print_all_owner_rows :
    (calls : TimeCalls) (now : ℕ) (coll : List ZombieOwner)
    → all_owner_rows calls now coll ≡ print_rows (owner_table calls now coll)
unfolding all_owner_rows
print_all_owner_rows calls now [] = refl
print_all_owner_rows calls now (o ∷ coll) =
    ap₂ (λ s t. s << t) (print_owner_rows calls now o o.zombie_owning_info)
      (print_all_owner_rows calls now coll)
    ∙ sym (
        print_rows-append (map (details_fields calls now o) o.zombie_owning_info)
          (owner_table calls now coll))

print_unexplained_rows :
    (calls : TimeCalls) (now : ℕ) (zombies : List ZombieProcessThreadInfo)
    → unexplained_rows calls now zombies ≡ print_rows (map (unexplained_fields calls now) zombies)
unfolding unexplained_rows unexplained_row
print_unexplained_rows calls now [] = refl
print_unexplained_rows calls now (z ∷ zombies) =
    ap (λ t. unexplained_row calls now z << t) (print_unexplained_rows calls now zombies)

print_details_errors :
    (errors : List Text)
    → details_error_rows errors
      ≡ print_rows (map (λ e. error_fields 14 (codes "ERROR" ∷ codes "ERROR" ∷ e ∷ [])) errors)
unfolding details_error_rows
print_details_errors [] = refl
print_details_errors (e ∷ errors) =
    let empty_fields : Text = replicate 11 b'\t' ++ end_line in
    ap (λ t. codes "ERROR\tERROR\t" << e << empty_fields << t) (print_details_errors errors)
    ∙ ap (λ t. codes "ERROR\tERROR\t" << t)
        (sym (
          append_assoc e empty_fields (
            print_rows
              (map (λ e. error_fields 14 (codes "ERROR" ∷ codes "ERROR" ∷ e ∷ [])) errors))))

pub output_details_csv-table :
    (calls : TimeCalls) (coll : List ZombieOwner) (z : ZombieOwners) (now : ℕ)
    → output_details_csv calls coll z now
      ≡ print_rows (details_columns ∷ details_table calls coll z now)
unfolding output_details_csv unexplained_rows details_error_rows details_heading
output_details_csv-table calls coll z now =
    ap (λ t. print_row details_columns << t)
      (ap₂ (λ s t. s << t) (print_all_owner_rows calls now coll)
          (ap₂ (λ s t. s << t)
            (unless_empty-all (unexplained_rows calls now) refl z.unexplained
              ∙ print_unexplained_rows calls now z.unexplained)
            (unless_empty-all details_error_rows refl z.process_enum_errors
              ∙ print_details_errors z.process_enum_errors))
        ∙ sym (
            print_blocks (owner_table calls now coll)
              (map (unexplained_fields calls now) z.unexplained)
              (map (λ e. error_fields 14 (codes "ERROR" ∷ codes "ERROR" ∷ e ∷ []))
                z.process_enum_errors)))
