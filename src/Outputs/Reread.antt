-- ===== src/Outputs/Reread.antt =====
-- What a reader that splits the tab-delimited formats finds in them.
use zombie_finder.Base.{
  ℕ, ◌≡◌, refl, ap, ◌∙◌, Bool, true, false, not, ◌&&◌, ◌==◌, List, [], ◌∷◌, ◌++◌, map, arith,
  length, all,
}
use zombie_finder.Base.Text.{Text, codes, decimal, ◌<<◌}
use zombie_finder.Outputs.{seconds_ago}
use zombie_finder.Outputs.DetailsCsv.{tid_text, threads_text, output_details_csv}
use zombie_finder.Outputs.Plain.{
  plain_services, plain-services_text, plain-decimal, plain-hex, plain-parent_text,
  plain-file_time_to_w_string, plain-ago, plain-if,
}
use zombie_finder.Outputs.Rows.{plain, clean_row, read_table, read_table-print_rows, clean-length}
use zombie_finder.Outputs.SummaryCsv.{output_summary_csv}
use zombie_finder.Outputs.Tables.{
  summary_fields, details_fields, unexplained_fields, error_fields, summary_heading,
  details_columns, no_process_rows, summary_table, owner_table, details_table,
}
use zombie_finder.Outputs.Printed.{output_summary_csv-table, output_details_csv-table}
use zombie_finder.Strings.Times.{TimeCalls}
use zombie_finder.ZombieInfo.{ZombieProcessThreadInfo}
use zombie_finder.ZombieOwners.{ZombieOwner, ZombieOwningInfo}
use zombie_finder.ZombieOwners.Object.{ZombieOwners}

-- The texts from the system hold no tab and no line break.
abbrev pub plain_zombie : ZombieProcessThreadInfo → Bool
plain_zombie z = plain z.image_path && plain z.parent_image_path

abbrev pub plain_owner : ZombieOwner → Bool
plain_owner o =
    plain o.exe_name
    && plain o.process_image_path
    && plain_services o.service_list
    && all (λ i. plain_zombie i.zombie_info) o.zombie_owning_info

abbrev pub plain_results : List ZombieOwner → ZombieOwners → Bool
plain_results coll z =
    all plain_owner coll && all plain_zombie z.unexplained && all plain z.process_enum_errors

module _ (n : ℕ) where
  clean-append :
      (xs ys : List (List Text))
      → all (clean_row n) xs ≡ true
      → all (clean_row n) ys ≡ true
      → all (clean_row n) (xs ++ ys) ≡ true
  clean-append [] ys hx hy = hy
  clean-append (x ∷ xs) ys hx hy = ground (arith, clean-append xs ys)

  clean-map {ℓ} :
      {A : Type ℓ} (plain_one : A → Bool) (fields : A → List Text)
      → ((a : A) → plain_one a ≡ true → clean_row n (fields a) ≡ true)
      → (xs : List A) → all plain_one xs ≡ true
      → all (clean_row n) (map fields xs) ≡ true
  clean-map plain_one fields f [] h = refl
  clean-map plain_one fields f (x ∷ xs) h = ground (arith, f x, clean-map plain_one fields f xs)

clean-summary_fields :
    (o : ZombieOwner) → plain_owner o ≡ true → clean_row 4 (summary_fields o) ≡ true
clean-summary_fields o h = ground (
  arith,
  h,
  plain-decimal o.pid,
  plain-decimal (length o.zombie_owning_info),
  plain-services_text o.service_list,
)

clean-no_process_rows :
    (zombies : List ZombieProcessThreadInfo) → all (clean_row 4) (no_process_rows zombies) ≡ true
clean-no_process_rows [] = refl
clean-no_process_rows (z ∷ zombies) = ground (arith, plain-decimal (length (z ∷ zombies)))

clean-summary_table :
    (coll : List ZombieOwner) (z : ZombieOwners)
    → plain_results coll z ≡ true
    → all (clean_row 4) (summary_table coll z) ≡ true
clean-summary_table coll z h =
    let errors = map (λ e. error_fields 4 ((codes "ERROR: " << e) ∷ [])) z.process_enum_errors in
    clean-append 4 (map summary_fields coll) (no_process_rows z.unexplained ++ errors)
      (clean-map 4 plain_owner summary_fields clean-summary_fields coll (ground (arith, h)))
      (clean-append 4 (no_process_rows z.unexplained) errors (clean-no_process_rows z.unexplained) (
        clean-map 4 plain (λ e. error_fields 4 ((codes "ERROR: " << e) ∷ []))
          (λ e he. ground (arith, he)) z.process_enum_errors (ground (arith, h))))

-- Split into lines and these at the tabs, the tab-delimited summary is its heading, one row of four
-- fields for each owner in the order of the collection, one with the number of unexplained zombies if
-- there are any, one for each error, and an empty line, if the names and errors hold no tab and no
-- line break.
pub read_table-output_summary_csv :
    (coll : List ZombieOwner) (z : ZombieOwners)
    → plain_results coll z ≡ true
    → (read_table (output_summary_csv coll z) ≡ (summary_heading ∷ summary_table coll z) ++ [] ∷ [])
      × (all (λ row. length row == 4) (summary_table coll z) ≡ true)
read_table-output_summary_csv coll z h =
    let clean = clean-summary_table coll z h in
    (
      ap read_table (output_summary_csv-table coll z)
          ∙ read_table-print_rows 4 summary_heading (summary_table coll z) (omega arith)
              (ground (arith, clean)),
      clean-length 4 (summary_table coll z) clean,
    )

module _ (calls : TimeCalls) (now : ℕ)
    (plain-overflow : (size : ℕ) (t : Text)
      → plain t ≡ true
      → plain (calls.overflow size t) ≡ true) where
  plain-tid_text : (z : ZombieProcessThreadInfo) → plain (tid_text z) ≡ true
  unfolding tid_text
  plain-tid_text z = plain-if (not (z.tid == 0)) (decimal z.tid) [] (plain-decimal z.tid) refl

  plain-threads_text : (z : ZombieProcessThreadInfo) → plain (threads_text z) ≡ true
  unfolding threads_text
  plain-threads_text z =
      plain-if (not (z.tid == 0)) [] (decimal z.n_threads) refl (plain-decimal z.n_threads)

  clean-details_fields :
      (o : ZombieOwner)
      → plain_owner o ≡ true
      → (info : ZombieOwningInfo) → plain_zombie info.zombie_info ≡ true
      → clean_row 14 (details_fields calls now o info) ≡ true
  clean-details_fields o ho info h =
      let z = info.zombie_info in
      ground (
        arith,
        ho,
        h,
        plain-decimal o.pid,
        plain-services_text o.service_list,
        plain-hex 8 info.handle_value 8 false true,
        plain-decimal z.pid,
        plain-tid_text z,
        plain-threads_text z,
        plain-file_time_to_w_string calls z.create_time plain-overflow,
        plain-file_time_to_w_string calls z.exit_time plain-overflow,
        plain-ago (seconds_ago now z.exit_time),
        plain-decimal z.parent_pid,
        plain-parent_text z.parent_image_path,
      )

  clean-unexplained_fields :
      (z : ZombieProcessThreadInfo)
      → plain_zombie z ≡ true
      → clean_row 14 (unexplained_fields calls now z) ≡ true
  clean-unexplained_fields z h = ground (
    arith,
    h,
    plain-decimal z.pid,
    plain-decimal z.n_threads,
    plain-file_time_to_w_string calls z.create_time plain-overflow,
    plain-file_time_to_w_string calls z.exit_time plain-overflow,
    plain-ago (seconds_ago now z.exit_time),
    plain-decimal z.parent_pid,
    plain-parent_text z.parent_image_path,
  )

  clean-owner_table :
      (coll : List ZombieOwner)
      → all plain_owner coll ≡ true
      → all (clean_row 14) (owner_table calls now coll) ≡ true
  clean-owner_table [] h = refl
  clean-owner_table (o ∷ coll) h =
      clean-append 14 (map (details_fields calls now o) o.zombie_owning_info)
        (owner_table calls now coll)
        (clean-map 14 (λ i. plain_zombie i.zombie_info) (details_fields calls now o)
          (clean-details_fields o (ground (arith, h))) o.zombie_owning_info (ground (arith, h)))
        (clean-owner_table coll (ground (arith, h)))

  clean-details_table :
      (coll : List ZombieOwner) (z : ZombieOwners)
      → plain_results coll z ≡ true
      → all (clean_row 14) (details_table calls coll z now) ≡ true
  clean-details_table coll z h =
      let error : Text → List Text =
        λ e. error_fields 14 (codes "ERROR" ∷ codes "ERROR" ∷ e ∷ []) in
      let unexplained = map (unexplained_fields calls now) z.unexplained in
      let errors = map error z.process_enum_errors in
      clean-append 14 (owner_table calls now coll) (unexplained ++ errors)
        (clean-owner_table coll (ground (arith, h)))
        (clean-append 14 unexplained errors
          (clean-map 14 plain_zombie (unexplained_fields calls now) clean-unexplained_fields
            z.unexplained (ground (arith, h)))
          (clean-map 14 plain error (λ e he. ground (arith, he)) z.process_enum_errors
            (ground (arith, h))))

-- Split into lines and these at the tabs, the tab-delimited details are their heading, one row of
-- fourteen fields for each handle of each owner, each unexplained zombie and each error, and an empty
-- line, if the names and errors hold no tab and no line break and a time text that does not fit its
-- buffer gets none.
pub read_table-output_details_csv :
    (calls : TimeCalls) (coll : List ZombieOwner) (z : ZombieOwners) (now : ℕ)
    → ((size : ℕ) (t : Text) → plain t ≡ true → plain (calls.overflow size t) ≡ true)
    → plain_results coll z ≡ true
    → (read_table (output_details_csv calls coll z now)
        ≡ (details_columns ∷ details_table calls coll z now) ++ [] ∷ [])
      × (all (λ row. length row == 14) (details_table calls coll z now) ≡ true)
read_table-output_details_csv calls coll z now plain-overflow h =
    let clean = clean-details_table calls now plain-overflow coll z h in
    (
      ap read_table (output_details_csv-table calls coll z now)
          ∙ read_table-print_rows 14 details_columns (details_table calls coll z now) (omega arith)
              (ground (arith, clean)),
      clean-length 14 (details_table calls coll z now) clean,
    )
