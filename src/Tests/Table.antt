-- ===== src/Tests/Table.antt =====
-- Runs of the query for the handle table, of its heap block, and of the loops over it.
use zombie_finder.Outputs.Plain.{plain-decimal}
use zombie_finder.Outputs.Rows.{read_table}
use zombie_finder.AllHandles.Listed.{all_handles_text-entry_lines, handle_columns, handle_fields}
use zombie_finder.AllHandles.Dump.{all_handles_text}
use zombie_finder.Base.Text.{Text, decimal}
use zombie_finder.Base.{
  ℕ, ◌≡◌, ◌≤◌, ◌+◌, ◌/◌, ◌^◌, refl, true, ◌↔◌, some, List, [], ◌∷◌, length, arith, is_some, ltb,
  not, ◌==◌, ◌&&◌, if◌then◌else◌, map, ◌++◌,
}
use zombie_finder.Handles.{opened, closed, Fresh, Accounted, NoTable, live, occurrences}
use zombie_finder.Base.Map.{count_key}
use zombie_finder.HeapMem.{alloc, dealloc, HeapMem}
use zombie_finder.HeapMem.Safety.{alloc_frees_and_holds, held, replaced}
use zombie_finder.AllHandles.{
  AllHandles, HandleEntry, Updated, update, buffer_size, no_handle_table, number_of_handles,
  for_each_handle, round, value,
}
use zombie_finder.AllHandles.Query.{buffer_size_overflow, update-returns}
use zombie_finder.AllHandles.Iteration.{for_each_handle-run_over, run_over, Holds}
use zombie_finder.Tests.Scenario.{denied, heap_calls, system, too_small, fits, table_entries}

buffer_size_overflow_example :
    ((ltb (buffer_size 0xf0000000) 0xf0000000 ≡ true) ↔ (2 ^ 32 ≤ 0xf0000000 + 0xf0000000 / 4))
    × ((buffer_size 0xf0000000 == 0xf0000000 + 0xf0000000 / 4)
        ≡ not (ltb (buffer_size 0xf0000000) 0xf0000000))
buffer_size_overflow_example = buffer_size_overflow 0xf0000000 (omega arith)

update-returns_example : is_some (update denied system no_handle_table []) ≡ true
update-returns_example =
    update-returns denied system no_handle_table [] (too_small ∷ []) [] fits refl
      (λ size e. omega (arith, e))

abbrev table : AllHandles
table = record { mem = record { mem = 8000; size = 2500 }; contents = some table_entries }

abbrev updated : Updated
updated = record {
  success = true;
  object = table;
  error_info = [];
  trace = opened 8000 ∷ closed 7000 ∷ opened 7000 ∷ [];
}

updated_is : update denied system no_handle_table [] ≡ some updated
unfolding update round dealloc alloc
updated_is = refl

table-Holds : Holds table table_entries
table-Holds = record { block = λ e. omega (arith, e); filled = refl }

abbrev pointer_text : ℕ → Text
pointer_text object = decimal object

all_handles_text-entry_lines_example :
    (text : Text) × (all_handles_text pointer_text table ≡ value text)
    × (read_table text
        ≡ (handle_columns ∷ map (handle_fields pointer_text) table_entries) ++ [] ∷ [])
all_handles_text-entry_lines_example =
    all_handles_text-entry_lines pointer_text table table_entries plain-decimal table-Holds

-- The handles that the loop visits, last first.
abbrev collect : List ℕ → HandleEntry → List ℕ
collect seen e = e.handle_value ∷ seen

for_each_handle-run_over_example :
    (number_of_handles table ≡ value (length table_entries))
    × (for_each_handle table collect (length table_entries) 0 []
        ≡ run_over collect [] table_entries)
for_each_handle-run_over_example =
    for_each_handle-run_over table collect table_entries [] table-Holds

-- The object holds a block that is replaced.
abbrev block : HeapMem
block = record { mem = 7000; size = 1250 }

block-Accounted : Accounted (opened 7000 ∷ []) (held block) NoTable
unfolding live count_key occurrences
block-Accounted = record { closes = tt; holds = λ h. omega arith }

replaced-Fresh : Fresh (alloc denied (heap_calls 8000) 2500 block (opened 7000 ∷ [])).trace
unfolding alloc live
replaced-Fresh = (λ e. omega (arith, e), refl, (λ e. omega (arith, e), refl, tt))

alloc_frees_and_holds_example :
    let t = opened 7000 ∷ [] in
    let r = alloc denied (heap_calls 8000) 2500 block t in
    Accounted r.trace (held r.object) NoTable
    × (r.trace ≡ (
        if not (block.mem == 0) && (heap_calls 8000).heap_to_free == 0
        then t
        else replaced block r.object t))
alloc_frees_and_holds_example =
    alloc_frees_and_holds denied (heap_calls 8000) 2500 block (opened 7000 ∷ []) (λ h b. refl)
      block-Accounted replaced-Fresh
