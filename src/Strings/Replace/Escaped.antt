-- ===== src/Strings/Replace/Escaped.antt =====
-- `escapeCrLfTab` (StringUtils.h).
use zombie_finder.Base.{
  ℕ, ◌≡◌, refl, ap, Bool, true, not, ◌&&◌, some, [], ◌∷◌, ◌++◌, arith, ◌==◌, if◌then◌else◌, all,
  Bool-cases, inl, inr,
}
use zombie_finder.Base.Text.{Text, codes}
use zombie_finder.Strings.Replace.PutFor.{put_for, replace_string_all-put_for}
use zombie_finder.Strings.Replace.{escape_cr_lf_tab}

-- One character escaped.
abbrev pub escaped : ℕ → Text
escaped c =
    if c == 13
    then codes "\\r"
    else if c == 10
    then codes "\\n"
    else if c == 9
    then codes "\\t"
    else c ∷ []

-- All characters escaped in one pass.
abbrev pub escape_each : Text → Text
escape_each [] = []
escape_each (c ∷ s) = escaped c ++ escape_each s

put_for-escape_each :
    (s : Text)
    → put_for 9 (codes "\\t") (put_for 10 (codes "\\n") (put_for 13 (codes "\\r") s))
      ≡ escape_each s
put_for-escape_each [] = refl
put_for-escape_each (c ∷ s) =
    let rest = put_for-escape_each s in
    elim (Bool-cases (c == 13)) [
      | inl e ↦ rw e (ap (λ t. codes "\\r" ++ t) rest)
      | inr e ↦ elim (Bool-cases (c == 10)) [
        | inl e2 ↦ rw (e, e2) (ap (λ t. codes "\\n" ++ t) rest)
        | inr e2 ↦ elim (Bool-cases (c == 9)) [
          | inl e3 ↦ rw (e, e2, e3) (ap (λ t. codes "\\t" ++ t) rest)
          | inr e3 ↦ rw (e, e2, e3) (ap (λ t. c ∷ t) rest)
        ]
      ]
    ]

abbrev is_escaped : ℕ → Bool
is_escaped c = not (c == 13) && not (c == 10) && not (c == 9)

none_left : (s : Text) → all is_escaped (escape_each s) ≡ true
none_left [] = refl
none_left (c ∷ s) = ground (arith, none_left s)

-- `escapeCrLfTab` ends and gives the text in which each carriage return, line feed and tab has been
-- replaced by its escape sequence in one pass; no such character is left.
pub escape_cr_lf_tab-escape_each :
    (s : Text)
    → (escape_cr_lf_tab s ≡ some (escape_each s))
      × (all (λ c. not (c == 13) && not (c == 10) && not (c == 9)) (escape_each s) ≡ true)
unfolding escape_cr_lf_tab
escape_cr_lf_tab-escape_each s =
    let a = put_for 13 (codes "\\r") s in
    let b = put_for 10 (codes "\\n") a in
    (
      rw
          (
            replace_string_all-put_for 13 (codes "\\r") s,
            replace_string_all-put_for 10 (codes "\\n") a,
            replace_string_all-put_for 9 (codes "\\t") b,
          )
          (ap some (put_for-escape_each s)),
      none_left s,
    )
