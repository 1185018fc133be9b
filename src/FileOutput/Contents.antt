-- ===== src/FileOutput/Contents.antt =====
-- The contents of the files that are opened for output.
use zombie_finder.Base.{
  ℕ, ◌≡◌, refl, Bool, true, false, not, ◌&&◌, ◌==◌, if◌then◌else◌, Option, none, some, [], ◌∷◌,
  ◌++◌,
}
use zombie_finder.Base.Text.{Text, c_str}
use zombie_finder.FileOutput.{FileCalls, FileStream, appends, create_file_output, imbue_stream_utf8}

-- The byte order mark.
abbrev pub byte_order_mark : ℕ
byte_order_mark = 0xfeff

-- A text with the mark in front of its first character, if it has one.
abbrev with_mark : Text → Text
with_mark [] = []
with_mark (c ∷ t) = byte_order_mark ∷ c ∷ t

-- What a stream leaves in a file that held `old`, if it was one: `std::generate_header` in the locale
-- puts the mark in front of the first character that is written.
abbrev pub contents_after : Option Text → FileStream → Text → Text
contents_after old stream written =
    let kept : Text = elim old [ none ↦ [] | some t ↦ if stream.append then t else [] ] in
    kept ++ (if stream.generate_header then with_mark written else written)

-- The answers of the system for a file with these contents, or for a missing one.
pub data Answers (calls : FileCalls) (name : Text) : Option Text → Type 0 where
  missing : calls.attributes name ≡ none → calls.last_error ≡ 2 → Answers calls name none
  empty : calls.attributes name ≡ some (0, 0) → Answers calls name (some [])
  filled :
      {high low : ℕ} {c : ℕ} {t : Text}
      → calls.attributes name ≡ some (high, low)
      → (high == 0 && low == 0) ≡ false
      → Answers calls name (some (c ∷ t))

-- What was there and is to stay.
abbrev kept_text : Bool → Option Text → Text
kept_text append none = []
kept_text false (some t) = []
kept_text true (some t) = t

-- A text behind another one; if it begins the file, the mark stands in front of it.
abbrev joined : Text → Text → Text
joined [] [] = []
joined [] (d ∷ written) = byte_order_mark ∷ d ∷ written
joined (c ∷ t) written = (c ∷ t) ++ written

-- What a file should hold.
abbrev pub marked : Bool → Option Text → Text → Text
marked append old written = joined (kept_text append old) written

begins : (written : Text) → with_mark written ≡ joined [] written
begins [] = refl
begins (d ∷ written) = refl

abbrev opened_for : Bool → FileStream
opened_for append = record { append = append; generate_header = not append }

created :
    (calls : FileCalls) (filename : Text) (append mode : Bool)
    → (if append then appends calls (c_str filename) else false) ≡ mode
    → calls.opens (c_str filename) mode ≡ true
    → create_file_output calls filename append ≡ some (opened_for mode)
unfolding create_file_output imbue_stream_utf8
created calls filename append mode e opens = rw (e, opens, create_file_output) refl

-- If the system answers for a file as it is, `CreateFileOutput` succeeds when the file can be opened in
-- the mode that the answers lead to, and what is then written follows the old contents of a file that
-- is appended to and not empty; in all other cases it makes up the file, with one byte order mark in
-- front of it, and the file is empty if nothing is written.
pub create_file_output-contents :
    (calls : FileCalls) (filename : Text) (append : Bool) (old : Option Text) (written : Text)
    → Answers calls (c_str filename) old
    → ((mode : Bool) → calls.opens (c_str filename) mode ≡ true)
    → (stream : FileStream) × ((create_file_output calls filename append ≡ some stream)
        × (contents_after old stream written ≡ marked append old written))
unfolding appends
create_file_output-contents calls filename append old written answers opens =
    by_cases append old answers
  where
    by_cases :
        (append : Bool) (old : Option Text)
        → Answers calls (c_str filename) old
        → (stream : FileStream) × ((create_file_output calls filename append ≡ some stream)
            × (contents_after old stream written ≡ marked append old written))
    by_cases false none a =
        (opened_for false, (created calls filename false false refl (opens false), begins written))
    by_cases false (some []) a =
        (opened_for false, (created calls filename false false refl (opens false), begins written))
    by_cases false (some (c ∷ t)) a =
        (opened_for false, (created calls filename false false refl (opens false), begins written))
    by_cases true none (missing e e2) = (
      opened_for false,
      (created calls filename true false (rw (appends, e, e2) refl) (opens false), begins written),
    )
    by_cases true (some []) (empty e) = (
      opened_for false,
      (created calls filename true false (rw (appends, e) refl) (opens false), begins written),
    )
    by_cases true (some (c ∷ t)) (filled e e2) = (
      opened_for true,
      (created calls filename true true (rw (appends, e, e2) refl) (opens true), refl),
    )
