-- ===== src/Strings/Replace/Ending.antt =====
-- The rounds of the loop of `replaceStringAll` (StringUtils.h).
use zombie_finder.Base.{
  ℕ, zero, suc, ◌+◌, ◌-◌, ◌≤◌, ◌<◌, ◌≡◌, refl, true, Option, none, some, [], ◌∷◌, ◌++◌, arith, leb,
  ◌==◌, is_some, length, take, drop, length-append, length-take, Bool-cases, Option-cases, inl, inr,
  subst,
}
use zombie_finder.Base.Text.{Text}
use zombie_finder.Strings.Replace.{is_prefix, find_in, find_text, replace_loop, replace_string_all}

pub length-drop : (n : ℕ) (s : Text) → length (drop n s) ≡ length s - n
length-drop zero s = omega arith
length-drop (suc n) [] = omega arith
length-drop (suc n) (c ∷ s) = omega (arith, length-drop n s)

prefix-length : (t s : Text) → is_prefix t s ≡ true → length t ≤ length s
unfolding is_prefix
prefix-length [] s h = omega arith
prefix-length (c ∷ t) [] h = ground (arith, h)
prefix-length (c ∷ t) (d ∷ s) h = ground (arith, h, prefix-length t s)

-- What is found from an index on stands between it and the end.
abbrev IsWithin : ℕ → ℕ → Text → Option ℕ → Type 0
IsWithin first size t none = Unit
IsWithin first size t (some ix) = (first ≤ ix) × (ix + length t ≤ size)

later-IsWithin :
    (t : Text) (n : ℕ) (o : Option ℕ)
    → IsWithin 0 n t o
    → IsWithin 0 (suc n) t (elim o [ none ↦ none | some ix ↦ some (suc ix) ])
later-IsWithin t n none h = tt
later-IsWithin t n (some ix) h = (omega arith, omega (arith, h.1))

find_in-IsWithin : (t s : Text) → IsWithin 0 (length s) t (find_in t s)
unfolding find_in
find_in-IsWithin t [] = elim (Bool-cases (length t == 0)) [
  | inl e ↦ rw (e, find_in) (omega arith, ground (arith, e))
  | inr e ↦ rw (e, find_in) tt
]
find_in-IsWithin t (d ∷ s) = elim (Bool-cases (is_prefix t (d ∷ s))) [
  | inl e ↦ rw (e, find_in) (omega arith, omega (arith, prefix-length t (d ∷ s) e))
  | inr e ↦ rw (e, find_in) (later-IsWithin t (length s) (find_in t s) (find_in-IsWithin t s))
]

shifted-IsWithin :
    (t : Text) (pos n size : ℕ) (o : Option ℕ)
    → pos + n ≤ size
    → IsWithin 0 n t o
    → IsWithin pos size t (elim o [ none ↦ none | some ix ↦ some (pos + ix) ])
shifted-IsWithin t pos n size none fits h = tt
shifted-IsWithin t pos n size (some ix) fits h = (omega arith, omega (arith, h.1, fits))

find_text-IsWithin : (str t : Text) (pos : ℕ) → IsWithin pos (length str) t (find_text str t pos)
unfolding find_text
find_text-IsWithin str t pos = elim (Bool-cases (leb pos (length str))) [
  | inl e ↦
      rw (e, find_text)
        (shifted-IsWithin t pos (length (drop pos str)) (length str) (find_in t (drop pos str))
          (ground (arith, e, length-drop pos str)) (find_in-IsWithin t (drop pos str)))
  | inr e ↦ rw (e, find_text) tt
]

-- What is left behind the position after a round.
length-rest :
    (str t with_text : Text) (ix : ℕ)
    → ix + length t ≤ length str
    → length (take ix str ++ (with_text ++ drop (ix + length t) str)) - (ix + length with_text)
      ≡ length str - (ix + length t)
length-rest str t with_text ix fits = omega (
  arith,
  fits,
  length-append (take ix str) (with_text ++ drop (ix + length t) str),
  length-append with_text (drop (ix + length t) str),
  length-drop (ix + length t) str,
  length-take ix str,
)

module _ (t with_text : Text) (some_text : 0 < length t) where
  replace_loop-ends :
      (rounds : ℕ) (str : Text) (pos : ℕ)
      → length str - pos ≤ rounds
      → is_some (replace_loop rounds t with_text str pos) ≡ true
  unfolding replace_loop
  replace_loop-ends zero str pos enough = elim (Option-cases (find_text str t pos)) [
    | inl e ↦ rw (e, replace_loop) refl
    | inr (ix, e) ↦
        let within : IsWithin pos (length str) t (some ix) =
          subst (IsWithin pos (length str) t) e (find_text-IsWithin str t pos) in
        absurd (omega (arith, within.0, within.1, some_text, enough))
  ]
  replace_loop-ends (suc rounds) str pos enough = elim (Option-cases (find_text str t pos)) [
    | inl e ↦ rw (e, replace_loop) refl
    | inr (ix, e) ↦
        let within : IsWithin pos (length str) t (some ix) =
          subst (IsWithin pos (length str) t) e (find_text-IsWithin str t pos) in
        rw (e, replace_loop)
          (replace_loop-ends rounds (take ix str ++ (with_text ++ drop (ix + length t) str))
            (ix + length with_text)
            (omega (arith, within.0, some_text, enough, length-rest str t with_text ix within.1)))
  ]

-- `replaceStringAll` ends for every text, search text and replacement: its loop makes at most as many
-- rounds as the text has characters.
pub replace_string_all-ends :
    (str replace with_text : Text) → is_some (replace_string_all str replace with_text) ≡ true
unfolding replace_string_all
replace_string_all-ends str replace with_text = elim (Bool-cases (length replace == 0)) [
  | inl e ↦ rw e refl
  | inr e ↦
      rw e
        (replace_loop-ends replace with_text (ground (arith, e)) (length str) str 0 (omega arith))
]
