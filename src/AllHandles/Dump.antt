-- ===== src/AllHandles/Dump.antt =====
-- `AllHandlesSystemwide::Dump` (AllHandlesSystemwide.cpp). How a stream prints a pointer is up to the
-- library: `pointer_text`.
use zombie_finder.Base.{ℕ, zero, suc, Bool, Option, none, some, false, [], true}
use zombie_finder.Base.Text.{Text, codes, ◌<<◌, decimal}
use zombie_finder.AllHandles.{
  HandleEntry, AllHandles, Read, uninitialized, value, number_of_handles, handle_info,
}
use zombie_finder.FileOutput.{FileCalls, Dumped, write_dump, create_file_output}
use zombie_finder.Hex.{hex}

-- One line; `none` is the null pointer.
unfoldable pub dump_entry : (ℕ → Text) → Option HandleEntry → Text
dump_entry pointer_text none = codes "NULL\n"
dump_entry pointer_text (some e) =
    decimal e.unique_process_id
    << codes "\t"
    << hex 8 e.handle_value 8 false true
    << codes "\t"
    << decimal e.object_type_index
    << codes "\t"
    << pointer_text e.object
    << codes "\n"

-- The loop, from an index on.
unfoldable pub dump_entries : (ℕ → Text) → AllHandles → ℕ → ℕ → Read Text
unfolding dump_entry
dump_entries pointer_text a zero ix = value []
dump_entries pointer_text a (suc rounds) ix =
    let rest = dump_entries pointer_text a rounds (suc ix) in
    elim (handle_info a ix) [
      | uninitialized ↦ uninitialized
      | value e ↦ elim rest [
        | uninitialized ↦ uninitialized
        | value t ↦ value (dump_entry pointer_text e << t)
      ]
    ]

abbrev pub all_handles_heading : Text
all_handles_heading =
    codes "PID\t"
    << codes "Handle\t"
    << codes "ObjectTypeIndex\t"
    << codes "ObjectAddr"
    << codes "\n"

unfoldable pub all_handles_text : (ℕ → Text) → AllHandles → Read Text
unfolding dump_entries
all_handles_text pointer_text a = elim (number_of_handles a) [
  | uninitialized ↦ uninitialized
  | value n ↦ elim (dump_entries pointer_text a n 0) [
    | uninitialized ↦ uninitialized
    | value t ↦ value (all_handles_heading << t)
  ]
]

-- `uninitialized`: the loop reads memory that was never written.
unfoldable pub dump_all_handles :
    FileCalls → (ℕ → Text) → AllHandles → Text → Bool → Text → Read Dumped
unfolding all_handles_text write_dump
dump_all_handles calls pointer_text a out_file append error_info =
    elim (create_file_output calls out_file append) [
      | none ↦
          value
            (write_dump calls (codes "AllHandlesSystemwide::Dump") out_file append error_info [])
      | some f ↦ elim (all_handles_text pointer_text a) [
        | uninitialized ↦ uninitialized
        | value t ↦
            value
              (write_dump calls (codes "AllHandlesSystemwide::Dump") out_file append error_info t)
      ]
    ]
