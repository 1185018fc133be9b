-- ===== src/FileOutput.antt =====
-- FileOutput.cpp: how an output file is opened.
pub mod Contents
use zombie_finder.Base.{
  ℕ, Bool, true, false, not, ◌&&◌, ◌==◌, if◌then◌else◌, Option, none, some, List, [], ◌∷◌,
}
use zombie_finder.Base.Text.{Text, codes, ◌<<◌, c_str}

-- What the system answers: the halves of the size that `GetFileAttributesExW` gives, or the error
-- code; and whether `open` succeeds, to write or to append.
pub record FileCalls : Type 0 where
  pub attributes : Text → Option (ℕ × ℕ)
  pub last_error : ℕ
  pub opens : Text → Bool → Bool

-- An open stream: its mode, and whether its locale generates a byte order mark.
pub record FileStream : Type 0 where
  pub append : Bool
  pub generate_header : Bool

-- The value of `bAppend` behind the query for the attributes.
unfoldable pub appends : FileCalls → Text → Bool
appends calls filename = elim (calls.attributes filename) [
  | some (size_high, size_low) ↦ if size_high == 0 && size_low == 0 then false else true
  | none ↦ if calls.last_error == 2 then false else true
]

-- `ImbueStreamUtf8`.
unfoldable pub imbue_stream_utf8 : FileStream → Bool → FileStream
imbue_stream_utf8 stream generate_header = record stream { generate_header = generate_header }

-- `none` is the result false. The name is a C string.
unfoldable pub create_file_output : FileCalls → Text → Bool → Option FileStream
unfolding appends imbue_stream_utf8
create_file_output calls filename append =
    let name = c_str filename in
    let append = if append then appends calls name else false in
    if not (calls.opens name append)
    then none
    else some (imbue_stream_utf8 (record { append = append; generate_header = false }) (not append))

-- What a diagnostic dump leaves: its result, `sErrorInfo`, and the file with its text.
pub record Dumped : Type 0 where
  pub success : Bool
  pub error_info : Text
  pub file : Option (FileStream × Text)

-- The frame of the dumps: the file is opened, or the error text names the function that fails.
unfoldable pub write_dump : FileCalls → Text → Text → Bool → Text → Text → Dumped
unfolding create_file_output
write_dump calls function out_file append error_info text =
    elim (create_file_output calls out_file append) [
      | none ↦ record {
        success = false;
        error_info = function << codes " to " << c_str out_file << codes " fails";
        file = none;
      }
      | some f ↦ record { success = true; error_info = error_info; file = some (f, text) }
    ]
