-- ===== src/Outputs/Rows.antt =====
-- Tables of texts: printed with tabs and line ends, and read back by `SplitStringToVector`.
use zombie_finder.Base.{
  ℕ, ◌≡◌, ◌≢◌, refl, ap, ap₂, sym, ◌∙◌, Bool, true, not, ◌&&◌, List, [], ◌∷◌, ◌++◌, map, arith,
  ◌==◌, length, all, append_assoc, ◌≤◌,
}
use zombie_finder.Base.Text.{Text}
use zombie_finder.Base.Text.Digits.{all-append}
use zombie_finder.Strings.Split.{split_string_to_vector, join, lacks, split_string_to_vector-fields}

-- Neither a tab nor a line break.
abbrev pub is_plain : ℕ → Bool
is_plain c = not (c == b'\t') && not (c == b'\n')

abbrev pub plain : Text → Bool
plain t = all is_plain t

-- The fields of a row with tabs between them, and the end of the line.
abbrev pub print_row : List Text → Text
print_row [] = b'\n' ∷ []
print_row (f ∷ []) = f ++ b'\n' ∷ []
print_row (f ∷ g ∷ fs) = f ++ b'\t' ∷ print_row (g ∷ fs)

abbrev pub print_rows : List (List Text) → Text
print_rows [] = []
print_rows (r ∷ rows) = print_row r ++ print_rows rows

-- What a reader of the text makes of it: the lines, split at the tabs.
abbrev pub read_table : Text → List (List Text)
read_table t = map (λ line. split_string_to_vector line b'\t') (split_string_to_vector t b'\n')

-- A row of so many fields that hold no tab and no line break.
abbrev pub clean_row : ℕ → List Text → Bool
clean_row n r = (length r == n) && all plain r

pub print_rows-append :
    (xs ys : List (List Text)) → print_rows (xs ++ ys) ≡ print_rows xs ++ print_rows ys
print_rows-append [] ys = refl
print_rows-append (x ∷ xs) ys =
    ap (λ t. print_row x ++ t) (print_rows-append xs ys)
    ∙ sym (append_assoc (print_row x) (print_rows xs) (print_rows ys))

print_row-join : (r : List Text) → print_row r ≡ join b'\t' r ++ b'\n' ∷ []
print_row-join [] = refl
print_row-join (f ∷ []) = refl
print_row-join (f ∷ g ∷ fs) =
    ap (λ t. f ++ b'\t' ∷ t) (print_row-join (g ∷ fs))
    ∙ sym (append_assoc f (b'\t' ∷ join b'\t' (g ∷ fs)) (b'\n' ∷ []))

-- The lines of a table, and the empty text behind the last line end.
abbrev lines : List (List Text) → List Text
lines rows = map (join b'\t') rows ++ [] ∷ []

join-lines :
    (f : Text) (rows : List (List Text))
    → join b'\n' (f ∷ lines rows) ≡ f ++ b'\n' ∷ join b'\n' (lines rows)
join-lines f [] = refl
join-lines f (r ∷ rows) = refl

print_rows-join : (rows : List (List Text)) → print_rows rows ≡ join b'\n' (lines rows)
print_rows-join [] = refl
print_rows-join (r ∷ rows) =
    ap₂ (λ s t. s ++ t) (print_row-join r) (print_rows-join rows)
    ∙ append_assoc (join b'\t' r) (b'\n' ∷ []) (join b'\n' (lines rows))
    ∙ sym (join-lines (join b'\t' r) rows)

plain-lacks-tab : (t : Text) → plain t ≡ true → lacks b'\t' t ≡ true
plain-lacks-tab [] h = refl
plain-lacks-tab (c ∷ t) h = ground (arith, plain-lacks-tab t)

plain-lacks-line : (t : Text) → plain t ≡ true → lacks b'\n' t ≡ true
plain-lacks-line [] h = refl
plain-lacks-line (c ∷ t) h = ground (arith, plain-lacks-line t)

fields-lack-tab : (r : List Text) → all plain r ≡ true → all (lacks b'\t') r ≡ true
fields-lack-tab [] h = refl
fields-lack-tab (f ∷ r) h = ground (arith, plain-lacks-tab f, fields-lack-tab r)

lacks-join : (r : List Text) → all plain r ≡ true → lacks b'\n' (join b'\t' r) ≡ true
lacks-join [] h = refl
lacks-join (f ∷ []) h = ground (arith, plain-lacks-line f)
lacks-join (f ∷ g ∷ fs) h =
    all-append (λ c. not (c == b'\n')) f (b'\t' ∷ join b'\t' (g ∷ fs))
      (plain-lacks-line f (ground arith)) (lacks-join (g ∷ fs) (ground arith))

append-ne-nil : (f : Text) (c : ℕ) (t : Text) → f ++ c ∷ t ≢ []
append-ne-nil [] c t e = cc
append-ne-nil (d ∷ f) c t e = cc

join-ne-nil : (r : List Text) → 2 ≤ length r → join b'\t' r ≢ []
join-ne-nil [] h = absurd (omega (arith, h))
join-ne-nil (f ∷ []) h = absurd (omega (arith, h))
join-ne-nil (f ∷ g ∷ fs) h = append-ne-nil f b'\t' (join b'\t' (g ∷ fs))

module _ (n : ℕ) where
  lacks-lines :
      (rows : List (List Text))
      → all (clean_row n) rows ≡ true
      → all (lacks b'\n') (lines rows) ≡ true
  lacks-lines [] h = refl
  lacks-lines (r ∷ rows) h = ground (arith, lacks-join r, lacks-lines rows)

  read_lines :
      (rows : List (List Text))
      → 2 ≤ n
      → all (clean_row n) rows ≡ true
      → map (λ line. split_string_to_vector line b'\t') (lines rows) ≡ rows ++ [] ∷ []
  unfolding split_string_to_vector
  read_lines [] wide h = refl
  read_lines (r ∷ rows) wide h =
      ap₂ (λ x xs. x ∷ xs)
        (split_string_to_vector-fields r b'\t' (fields-lack-tab r (ground arith))
          (join-ne-nil r (ground arith)))
        (read_lines rows wide (ground arith))

  -- A printed table of clean rows with at least two fields is read back, with an empty last line.
  pub read_table-print_rows :
      (r : List Text) (rows : List (List Text))
      → 2 ≤ n
      → all (clean_row n) (r ∷ rows) ≡ true
      → read_table (print_rows (r ∷ rows)) ≡ (r ∷ rows) ++ [] ∷ []
  read_table-print_rows r rows wide h =
      ap read_table (print_rows-join (r ∷ rows))
      ∙ ap (map (λ line. split_string_to_vector line b'\t')) (
          split_string_to_vector-fields (lines (r ∷ rows)) b'\n' (lacks-lines (r ∷ rows) h) (λ e.
            append-ne-nil (join b'\t' r) b'\n' (join b'\n' (lines rows))
              (sym (join-lines (join b'\t' r) rows) ∙ e)))
      ∙ read_lines (r ∷ rows) wide h

  pub clean-length :
      (rows : List (List Text))
      → all (clean_row n) rows ≡ true
      → all (λ r. length r == n) rows ≡ true
  clean-length [] h = refl
  clean-length (r ∷ rows) h = ground (arith, clean-length rows)
