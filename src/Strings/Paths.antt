-- ===== src/Strings/Paths.antt =====
-- `SplitFilePath` (StringUtils.cpp): the parts of a path.
use zombie_finder.Strings.Parent.{
  get_directory_name_from_file_path-before_last, before_last, has_parent,
}
use zombie_finder.Strings.Directory.{get_directory_name_from_file_path}
use zombie_finder.Base.{
  ℕ, suc, ◌≡◌, refl, ap, ◌∙◌, Bool, true, none, some, [], ◌∷◌, ◌++◌, inl, inr, arith, ◌==◌,
  if◌then◌else◌, length, take, drop, Option-cases, ◌⊎◌, append-nil, subst, ==_iff,
}
use zombie_finder.Base.Text.{Text, codes}
use zombie_finder.Strings.Last.{lacks, find_last_of-none, find_last_of-IsFound}
use zombie_finder.Strings.{find_last_of, is_path_separator, get_file_name_from_file_path}

pub record PathParts : Type 0 where
  pub directory : Text
  pub filename_no_ext : Text
  pub extension : Text

abbrev pub is_dot : ℕ → Bool
is_dot c = c == b'.'

-- The directory and the file name.
unfoldable pub split_directory : Text → Text × Text
split_directory full_path = elim (find_last_of is_path_separator full_path) [
  | none ↦ ([], full_path)
  | some ix ↦ (take ix full_path, drop (suc ix) full_path)
]

-- The file name without its extension, and the extension.
unfoldable pub split_extension : Text → Text × Text
split_extension filename = elim (find_last_of is_dot filename) [
  | none ↦ (filename, [])
  | some ix ↦
      let extension = drop (suc ix) filename in
      (take ix filename ++ (if length extension == 0 then codes "." else []), extension)
]

unfoldable pub split_file_path : Text → PathParts
unfolding split_directory split_extension
split_file_path full_path =
    let (directory, filename) = split_directory full_path in
    let (name, extension) = split_extension filename in
    record { directory = directory; filename_no_ext = name; extension = extension }

-- A file name and its extension, put together; a name that ends with a dot holds it already.
abbrev pub join_extension : Text → Text → Text
join_extension name [] = name
join_extension name (c ∷ extension) = name ++ b'.' ∷ c ∷ extension

dot-joins :
    (name : Text) (c : ℕ) (extension : Text)
    → is_dot c ≡ true
    → name ++ c ∷ extension
      ≡ join_extension (name ++ (if length extension == 0 then codes "." else [])) extension
dot-joins name c [] dot = ap (λ k. name ++ k ∷ []) ((==_iff c b'.').0 dot)
dot-joins name c (d ∷ extension) dot =
    let is : c ≡ b'.' = (==_iff c b'.').0 dot in
    ap (λ k. name ++ k ∷ d ∷ extension) is ∙ ground (arith, append-nil name)

split_extension-join :
    (filename : Text)
    → filename ≡ join_extension (split_extension filename).0 (split_extension filename).1
unfolding split_extension
split_extension-join filename = elim (Option-cases (find_last_of is_dot filename)) [
  | inl e ↦ rw (e, split_extension) refl
  | inr (ix, e) ↦
      let f = find_last_of-IsFound is_dot filename ix e in
      rw (e, split_extension)
        (f.parts ∙ dot-joins (take ix filename) f.at (drop (suc ix) filename) f.matches)
]

split_extension-last : (filename : Text) → lacks is_dot (split_extension filename).1 ≡ true
unfolding split_extension
split_extension-last filename = elim (Option-cases (find_last_of is_dot filename)) [
  | inl e ↦ rw (e, split_extension) refl
  | inr (ix, e) ↦ rw (e, split_extension) (find_last_of-IsFound is_dot filename ix e).last
]

split_directory-last :
    (full_path : Text) → lacks is_path_separator (split_directory full_path).1 ≡ true
unfolding split_directory
split_directory-last full_path = elim (Option-cases (find_last_of is_path_separator full_path)) [
  | inl e ↦ rw (e, split_directory) (find_last_of-none is_path_separator full_path e)
  | inr (ix, e) ↦
      rw (e, split_directory) (find_last_of-IsFound is_path_separator full_path ix e).last
]

split_directory-join :
    (full_path : Text)
    → let (directory, filename) = split_directory full_path in
      ((full_path ≡ filename) × (directory ≡ []))
      ⊎ ((separator : ℕ) × (is_path_separator separator ≡ true)
          × (full_path ≡ directory ++ separator ∷ filename))
unfolding split_directory
split_directory-join full_path = elim (Option-cases (find_last_of is_path_separator full_path)) [
  | inl e ↦ rw (e, split_directory) (inl (refl, refl))
  | inr (ix, e) ↦
      let f = find_last_of-IsFound is_path_separator full_path ix e in
      rw (e, split_directory) (inr (f.at, f.matches, f.parts))
]

get_file_name_from_file_path-split_directory :
    (full_path : Text) → get_file_name_from_file_path full_path ≡ (split_directory full_path).1
unfolding get_file_name_from_file_path split_directory
get_file_name_from_file_path-split_directory full_path =
    elim (Option-cases (find_last_of is_path_separator full_path)) [
      | inl e ↦ rw (e, get_file_name_from_file_path, split_directory) refl
      | inr (ix, e) ↦ rw (e, get_file_name_from_file_path, split_directory) refl
    ]

split_directory-before_last :
    (full_path : Text) → before_last full_path ≡ (split_directory full_path).0
unfolding split_directory
split_directory-before_last full_path =
    elim (Option-cases (find_last_of is_path_separator full_path)) [
      | inl e ↦ rw (e, before_last, split_directory) refl
      | inr (ix, e) ↦ rw (e, before_last, split_directory) refl
    ]

-- The path is its file name, if no separator stands in it; otherwise it is the directory, a
-- separator and the file name. The file name is the name and the extension that the function gives;
-- it holds no separator, and the extension holds no dot. `GetFileNameFromFilePath` gives the same file
-- name. `GetDirectoryNameFromFilePath` gives the same directory if something stands behind the root of
-- the path, which is the first separator, or for a UNC path the one behind its share, and otherwise
-- nothing.
pub split_file_path-join :
    (full_path : Text)
    → let r = split_file_path full_path in
      let filename = join_extension r.filename_no_ext r.extension in
      (((full_path ≡ filename) × (r.directory ≡ []))
        ⊎ ((separator : ℕ) × (is_path_separator separator ≡ true)
            × (full_path ≡ r.directory ++ separator ∷ filename)))
      × (lacks is_path_separator filename ≡ true)
      × (lacks is_dot r.extension ≡ true)
      × (get_file_name_from_file_path full_path ≡ filename)
      × (get_directory_name_from_file_path full_path
          ≡ (if has_parent full_path then r.directory else []))
unfolding split_file_path
split_file_path-join full_path =
    let (directory, filename) = split_directory full_path in
    let joined = split_extension-join filename in
    let (name, extension) = split_extension filename in
    (
      subst
          (λ t.
            ((full_path ≡ t) × (directory ≡ []))
            ⊎ ((separator : ℕ) × (is_path_separator separator ≡ true)
                × (full_path ≡ directory ++ separator ∷ t)))
          joined (split_directory-join full_path),
      subst (λ t. lacks is_path_separator t ≡ true) joined (split_directory-last full_path),
      split_extension-last filename,
      get_file_name_from_file_path-split_directory full_path ∙ joined,
      get_directory_name_from_file_path-before_last full_path
          ∙ ap (λ t. if has_parent full_path then t else [])
              (split_directory-before_last full_path),
    )
