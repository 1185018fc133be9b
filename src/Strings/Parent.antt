-- ===== src/Strings/Parent.antt =====
-- What `GetDirectoryNameFromFilePath` (StringUtils.cpp) gives.
use zombie_finder.Base.{
  ℕ, zero, suc, ◌+◌, ◌-◌, ◌<◌, ◌≡◌, refl, ap, sym, ◌∙◌, Bool, false, ◌&&◌, ◌||◌, Option, none, some,
  [], ◌∷◌, ltb, ◌==◌, inl, inr, arith, length, take, drop, Option-cases, Bool-cases, subst,
  if◌then◌else◌, if_keeps,
}
use zombie_finder.Base.Text.{Text, codes}
use zombie_finder.Strings.{find_first_of, find_last_of, is_path_separator, to_lower}
use zombie_finder.Strings.Directory.{
  find_first_from, share_end, root_end, get_directory_name_from_file_path,
}
use zombie_finder.Strings.Prefix.{starts_with, wcsnicmp, compare_up_to}
use zombie_finder.Strings.Replace.Ending.{length-drop}

-- The text behind the first separator, if there is one.
abbrev behind_separator : Text → Option Text
behind_separator [] = none
behind_separator (c ∷ s) = if is_path_separator c then some s else behind_separator s

abbrev is_pair : ℕ → Text → Bool
is_pair k [] = false
is_pair k (c ∷ []) = false
is_pair k (c ∷ d ∷ s) = c == k && d == k

-- The text behind the root: behind the separator that follows the server and the share of a UNC path,
-- and behind the first separator of another one.
abbrev behind_root : Text → Option Text
behind_root path =
    if is_pair b'\\' path || is_pair b'/' path
    then elim (behind_separator (drop 2 path)) [ none ↦ none | some share ↦ behind_separator share ]
    else behind_separator path

-- Something stands behind the root.
abbrev pub has_parent : Text → Bool
has_parent path = elim (behind_root path) [ none ↦ false | some rest ↦ ltb 0 (length rest) ]

-- An index, and the text behind it.
abbrev IsBehind : Text → Option ℕ → Option Text → Type 0
IsBehind path none none = Unit
IsBehind path none (some t) = ⊥
IsBehind path (some ix) none = ⊥
IsBehind path (some ix) (some t) = (drop (suc ix) path ≡ t) × (ix < length path)

later-IsBehind :
    (c : ℕ) (s : Text) (o : Option ℕ) (t : Option Text)
    → IsBehind s o t
    → IsBehind (c ∷ s) (elim o [ none ↦ none | some ix ↦ some (suc ix) ]) t
later-IsBehind c s none none h = tt
later-IsBehind c s none (some t) h = h
later-IsBehind c s (some ix) none h = h
later-IsBehind c s (some ix) (some t) h = (h.0, omega (arith, h.1))

find_first_of-IsBehind :
    (s : Text) → IsBehind s (find_first_of is_path_separator s) (behind_separator s)
unfolding find_first_of
find_first_of-IsBehind [] = tt
find_first_of-IsBehind (c ∷ s) = elim (Bool-cases (is_path_separator c)) [
  | inl e ↦ rw (e, find_first_of) (refl, omega arith)
  | inr e ↦
      rw (e, find_first_of)
        (later-IsBehind c s (find_first_of is_path_separator s) (behind_separator s)
          (find_first_of-IsBehind s))
]

drop-nil : (n : ℕ) → drop {A = ℕ} n [] ≡ []
drop-nil zero = refl
drop-nil (suc n) = refl

drop-drop : (n m : ℕ) (s : Text) → drop (n + m) s ≡ drop m (drop n s)
drop-drop zero m s = let same : 0 + m ≡ m = omega arith in ap (λ k. drop k s) same
drop-drop (suc n) m [] = drop-nil (suc n + m) ∙ sym (drop-nil m)
drop-drop (suc n) m (c ∷ s) =
    let same : suc n + m ≡ suc (n + m) = omega arith in
    ap (λ k. drop k (c ∷ s)) same ∙ drop-drop n m s

shifted-IsBehind :
    (path : Text) (n : ℕ) (o : Option ℕ) (t : Option Text)
    → IsBehind (drop n path) o t
    → IsBehind path (elim o [ none ↦ none | some ix ↦ some (n + ix) ]) t
shifted-IsBehind path n none none h = tt
shifted-IsBehind path n none (some t) h = h
shifted-IsBehind path n (some ix) none h = h
shifted-IsBehind path n (some ix) (some t) h = (
  ap (λ k. drop k path) {x = suc (n + ix)} {y = n + suc ix} (omega arith)
      ∙ drop-drop n (suc ix) path
      ∙ h.0,
  omega (arith, h.1, length-drop n path),
)

find_first_from-IsBehind :
    (path : Text) (n : ℕ)
    → IsBehind path (find_first_from is_path_separator path n) (behind_separator (drop n path))
unfolding find_first_from
find_first_from-IsBehind path n =
    shifted-IsBehind path n (find_first_of is_path_separator (drop n path))
      (behind_separator (drop n path)) (find_first_of-IsBehind (drop n path))

share-IsBehind :
    (path : Text) (o : Option ℕ) (t : Option Text)
    → IsBehind path o t
    → IsBehind path
        (elim o [ none ↦ none | some ix ↦ find_first_from is_path_separator path (suc ix) ])
        (elim t [ none ↦ none | some share ↦ behind_separator share ])
share-IsBehind path none none h = tt
share-IsBehind path none (some t) h = absurd h
share-IsBehind path (some ix) none h = absurd h
share-IsBehind path (some ix) (some t) h =
    subst
      (λ s. IsBehind path (find_first_from is_path_separator path (suc ix)) (behind_separator s))
      h.0 (find_first_from-IsBehind path (suc ix))

-- The test for the last character, and what it means.
last-IsBehind :
    (path directory : Text) (o : Option ℕ) (t : Option Text)
    → IsBehind path o t
    → (elim o as (λ x. Text) [
      | none ↦ []
      | some ix ↦ if length path - 1 == ix then [] else directory
    ])
      ≡ (if elim t [ none ↦ false | some rest ↦ ltb 0 (length rest) ] then directory else [])
last-IsBehind path directory none none h = refl
last-IsBehind path directory none (some t) h = absurd h
last-IsBehind path directory (some ix) none h = absurd h
last-IsBehind path directory (some ix) (some t) h =
    let rest : length t ≡ length path - suc ix = ap length (sym h.0) ∙ length-drop (suc ix) path in
    ground (arith, rest, h.1)

starts_with-is_pair :
    (path : Text)
    → (starts_with path (codes "\\\\") false ≡ is_pair b'\\' path)
      × (starts_with path (codes "//") false ≡ is_pair b'/' path)
unfolding starts_with wcsnicmp compare_up_to to_lower
starts_with-is_pair [] = (refl, refl)
starts_with-is_pair (c ∷ []) = (ground arith, ground arith)
starts_with-is_pair (c ∷ d ∷ s) = (ground arith, ground arith)

root_end-IsBehind : (path : Text) → IsBehind path (root_end path) (behind_root path)
unfolding root_end share_end
root_end-IsBehind path =
    let (back, forward) = starts_with-is_pair path in
    elim (Bool-cases (is_pair b'\\' path || is_pair b'/' path)) [
      | inl e ↦
          rw (back, forward, e, root_end, share_end)
            (share-IsBehind path (find_first_from is_path_separator path 2)
              (behind_separator (drop 2 path)) (find_first_from-IsBehind path 2))
      | inr e ↦ rw (back, forward, e, root_end) (find_first_of-IsBehind path)
    ]

-- What stands in front of the last separator.
abbrev pub before_last : Text → Text
before_last path = elim (find_last_of is_path_separator path) [ none ↦ [] | some ix ↦ take ix path ]

-- `GetDirectoryNameFromFilePath` gives the path in front of its last separator, if something stands
-- behind the root of the path, and nothing otherwise.
pub get_directory_name_from_file_path-before_last :
    (path : Text)
    → get_directory_name_from_file_path path ≡ (if has_parent path then before_last path else [])
unfolding get_directory_name_from_file_path
get_directory_name_from_file_path-before_last path =
    elim (Option-cases (find_last_of is_path_separator path)) [
      | inl e ↦
          rw (e, get_directory_name_from_file_path, before_last)
            (if_keeps (λ (t : Text). [] ≡ t) (has_parent path) {x = []} {y = []} refl refl)
      | inr (last, e) ↦
          rw (e, get_directory_name_from_file_path, before_last)
            (last-IsBehind path (take last path) (root_end path) (behind_root path)
              (root_end-IsBehind path))
    ]
