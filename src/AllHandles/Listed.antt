-- ===== src/AllHandles/Listed.antt =====
-- The lines that `AllHandlesSystemwide::Dump` writes (AllHandlesSystemwide.cpp).
use zombie_finder.Outputs.Plain.{plain-decimal, plain-hex}
use zombie_finder.Outputs.Rows.{
  print_row, print_rows, plain, clean_row, read_table, read_table-print_rows,
}
use zombie_finder.Hex.{hex}
use zombie_finder.Base.{
  ℕ, suc, ◌≡◌, refl, ap, sym, ◌∙◌, some, List, [], ◌∷◌, ◌++◌, arith, length, length-append,
  append_assoc, map, all, true, false,
}
use zombie_finder.Base.Text.{Text, ◌<<◌, codes, decimal}
use zombie_finder.AllHandles.{HandleEntry, AllHandles, value, number_of_handles}
use zombie_finder.AllHandles.Dump.{dump_entry, dump_entries, all_handles_heading, all_handles_text}
use zombie_finder.AllHandles.Iteration.{Holds, handle_info-here, for_each_handle-run_over}

abbrev pub handle_columns : List Text
handle_columns = codes "PID" ∷ codes "Handle" ∷ codes "ObjectTypeIndex" ∷ codes "ObjectAddr" ∷ []

-- The process ID, the handle, the index of the object's type, and the object.
abbrev pub handle_fields : (ℕ → Text) → HandleEntry → List Text
handle_fields pointer_text e =
    decimal e.unique_process_id
    ∷ hex 8 e.handle_value 8 false true
    ∷ decimal e.object_type_index
    ∷ pointer_text e.object
    ∷ []

-- One line for each entry.
abbrev pub entry_lines : (ℕ → Text) → List HandleEntry → Text
entry_lines pointer_text entries = print_rows (map (handle_fields pointer_text) entries)

dump_entry-handle_fields :
    (pointer_text : ℕ → Text) (e : HandleEntry)
    → dump_entry pointer_text (some e) ≡ print_row (handle_fields pointer_text e)
unfolding dump_entry
dump_entry-handle_fields pointer_text e = refl

dump_entries-from :
    (pointer_text : ℕ → Text) (a : AllHandles) (before after : List HandleEntry)
    → Holds a (before ++ after)
    → dump_entries pointer_text a (length after) (length before)
      ≡ value (entry_lines pointer_text after)
unfolding dump_entries
dump_entries-from pointer_text a before [] h = refl
dump_entries-from pointer_text a before (e ∷ after) h =
    let extended = before ++ e ∷ [] in
    let longer : length extended ≡ suc (length before) =
      length-append before (e ∷ []) ∙ omega arith in
    let rest : dump_entries pointer_text a (length after) (suc (length before))
        ≡ value (entry_lines pointer_text after) =
      ap (dump_entries pointer_text a (length after)) (sym longer)
      ∙ dump_entries-from pointer_text a extended after (record {
        block = h.block;
        filled = h.filled ∙ ap some (sym (append_assoc before _ after));
      }) in
    rw (handle_info-here a before after e h, rest, dump_entries)
      (ap (λ t. value (t << entry_lines pointer_text after))
        (dump_entry-handle_fields pointer_text e))

-- What the dump writes: the columns, and one line for each entry.
pub all_handles_text-lines :
    (pointer_text : ℕ → Text) (a : AllHandles) (entries : List HandleEntry)
    → Holds a entries
    → all_handles_text pointer_text a
      ≡ value (all_handles_heading << entry_lines pointer_text entries)
unfolding all_handles_text
all_handles_text-lines pointer_text a entries h =
    let number : number_of_handles a ≡ value (length entries) =
      (for_each_handle-run_over {S = ℕ} a (λ s e. s) entries 0 h).0 in
    rw (number, dump_entries-from pointer_text a [] entries h, all_handles_text) refl

clean-handle_fields :
    (pointer_text : ℕ → Text)
    → ((object : ℕ) → plain (pointer_text object) ≡ true)
    → (entries : List HandleEntry)
    → all (clean_row 4) (map (handle_fields pointer_text) entries) ≡ true
clean-handle_fields pointer_text pointers [] = refl
clean-handle_fields pointer_text pointers (e ∷ entries) = ground (
  arith,
  plain-decimal e.unique_process_id,
  plain-hex 8 e.handle_value 8 false true,
  plain-decimal e.object_type_index,
  pointers e.object,
  clean-handle_fields pointer_text pointers entries,
)

-- If a pointer is printed without a tab and without a line break: after a successful query the dump is a
-- text that is, split into lines and these at the tabs, the heading, one row of four fields for each
-- entry of the handle table, in their order, and an empty line.
pub all_handles_text-entry_lines :
    (pointer_text : ℕ → Text) (a : AllHandles) (entries : List HandleEntry)
    → ((object : ℕ) → plain (pointer_text object) ≡ true)
    → Holds a entries
    → (text : Text) × (all_handles_text pointer_text a ≡ value text)
      × (read_table text ≡ (handle_columns ∷ map (handle_fields pointer_text) entries) ++ [] ∷ [])
all_handles_text-entry_lines pointer_text a entries pointers h = (
  all_handles_heading << entry_lines pointer_text entries,
  all_handles_text-lines pointer_text a entries h,
  read_table-print_rows 4 handle_columns (map (handle_fields pointer_text) entries) (omega arith)
      (ground (arith, clean-handle_fields pointer_text pointers entries)),
)
