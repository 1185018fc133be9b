-- ===== src/Strings/Replace/Nul.antt =====
-- `escapeCrLfTabNul` and `replaceEmbeddedNuls` (StringUtils.h).
use zombie_finder.Base.{
  ℕ, zero, suc, ◌≡◌, refl, sym, ap, ◌∙◌, Bool, true, false, not, ◌&&◌, ◌==◌, ltb, some, [], ◌∷◌,
  ◌++◌, length, Bool-cases, inl, inr, if◌then◌else◌, all, arith,
}
use zombie_finder.Base.Text.{Text, codes}
use zombie_finder.Strings.Replace.{replace_embedded_nuls, escape_cr_lf_tab_nul}
use zombie_finder.Strings.Replace.Escaped.{escaped, escape_each, escape_cr_lf_tab-escape_each}

-- The text without the NUL at its end, if there is one.
abbrev pub without_last_nul : Text → Text
without_last_nul [] = []
without_last_nul (c ∷ s) = if c == 0 && not (ltb 0 (length s)) then [] else c ∷ without_last_nul s

-- The four kinds of characters escaped in one pass.
abbrev pub escape_with_nul : Text → Text
escape_with_nul [] = []
escape_with_nul (c ∷ s) = (if c == 0 then codes "\\0" else escaped c) ++ escape_with_nul s

abbrev is_printed : ℕ → Bool
is_printed c = not (c == 13) && not (c == 10) && not (c == 9) && not (c == 0)

all_printed : (s : Text) → all is_printed (escape_with_nul s) ≡ true
all_printed [] = refl
all_printed (c ∷ s) = ground (arith, all_printed s)

some_escaped : (s : Text) → ltb 0 (length (escape_each s)) ≡ ltb 0 (length s)
some_escaped [] = refl
some_escaped (c ∷ s) = ground arith

suc-ne-zero : (k : ℕ) → (suc k == 0) ≡ false
suc-ne-zero k = ground arith

is_followed : (d : ℕ) (s : Text) → ltb 0 (length (d ∷ s)) ≡ true
is_followed d s = ground arith

-- What stands for a character that is not NUL holds no NUL.
replace_embedded_nuls-escaped :
    (k : ℕ) (t : Text)
    → replace_embedded_nuls (escaped (suc k) ++ t) ≡ escaped (suc k) ++ replace_embedded_nuls t
unfolding replace_embedded_nuls
replace_embedded_nuls-escaped k t = elim (Bool-cases (suc k == 13)) [
  | inl e ↦ rw e refl
  | inr e ↦ elim (Bool-cases (suc k == 10)) [
    | inl e2 ↦ rw (e, e2) refl
    | inr e2 ↦ elim (Bool-cases (suc k == 9)) [
      | inl e3 ↦ rw (e, e2, e3) refl
      | inr e3 ↦ rw (e, e2, e3, suc-ne-zero k) refl
    ]
  ]
]

escape_with_nul-kept :
    (k : ℕ) (s : Text)
    → escape_with_nul (without_last_nul (suc k ∷ s))
      ≡ escaped (suc k) ++ escape_with_nul (without_last_nul s)
escape_with_nul-kept k s =
    let kept : without_last_nul (suc k ∷ s) ≡ suc k ∷ without_last_nul s =
      rw (suc-ne-zero k) refl in
    let first : escape_with_nul (suc k ∷ without_last_nul s)
        ≡ escaped (suc k) ++ escape_with_nul (without_last_nul s) =
      ap (λ b. (if b then codes "\\0" else escaped (suc k)) ++ escape_with_nul (without_last_nul s))
        (suc-ne-zero k) in
    ap escape_with_nul kept ∙ first

replace_embedded_nuls-escape_each :
    (s : Text) → replace_embedded_nuls (escape_each s) ≡ escape_with_nul (without_last_nul s)
unfolding replace_embedded_nuls
replace_embedded_nuls-escape_each [] = refl
replace_embedded_nuls-escape_each (zero ∷ []) = refl
replace_embedded_nuls-escape_each (zero ∷ d ∷ s) =
    rw (some_escaped (d ∷ s), is_followed d s)
      (ap (λ t. codes "\\0" ++ t) (replace_embedded_nuls-escape_each (d ∷ s)))
replace_embedded_nuls-escape_each (suc k ∷ s) =
    let rest = replace_embedded_nuls-escape_each s in
    replace_embedded_nuls-escaped k (escape_each s)
    ∙ ap (λ t. escaped (suc k) ++ t) rest
    ∙ sym (escape_with_nul-kept k s)

-- `escapeCrLfTabNul` ends and gives the text without the NUL at its end, if there is one, in which each
-- carriage return, line feed, tab and NUL has been replaced by its escape sequence in one pass; no such
-- character is left.
pub escape_cr_lf_tab_nul-escape_with_nul :
    (s : Text)
    → (escape_cr_lf_tab_nul s ≡ some (escape_with_nul (without_last_nul s)))
      × (all
            (λ c. not (c == 13) && not (c == 10) && not (c == 9) && not (c == 0))
            (escape_with_nul (without_last_nul s))
          ≡ true)
unfolding escape_cr_lf_tab_nul
escape_cr_lf_tab_nul-escape_with_nul s = (
  rw (escape_cr_lf_tab-escape_each s).0 (ap some (replace_embedded_nuls-escape_each s)),
  all_printed (without_last_nul s),
)
