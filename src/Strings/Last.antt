-- ===== src/Strings/Last.antt =====
-- `find_last_of` (std::wstring): where it stops, and what lies behind.
use zombie_finder.Base.{
  ℕ, all, not, suc, ◌≡◌, refl, ap, Bool, true, none, some, [], ◌∷◌, ◌++◌, inl, inr, arith, take,
  drop, Option-cases, Bool-cases, subst,
}
use zombie_finder.Base.Text.{Text}
use zombie_finder.Strings.{find_last_of}

some_injective : {n m : ℕ} → some n ≡ some m → n ≡ m
some_injective e = cc

-- No character of a text satisfies the test.
abbrev pub lacks : (ℕ → Bool) → Text → Bool
lacks p s = all (λ c. not (p c)) s

-- What stands in front of the place that `find_last_of` gives, at it, and behind it.
pub record IsFound (p : ℕ → Bool) (s : Text) (ix : ℕ) : Type 0 where
  pub at : ℕ
  pub matches : p at ≡ true
  pub parts : s ≡ take ix s ++ at ∷ drop (suc ix) s
  pub last : lacks p (drop (suc ix) s) ≡ true

pub find_last_of-none : (p : ℕ → Bool) (s : Text) → find_last_of p s ≡ none → lacks p s ≡ true
unfolding find_last_of
find_last_of-none p [] h = refl
find_last_of-none p (c ∷ s) h = elim (Option-cases (find_last_of p s)) [
  | inr (j, e) ↦ ground (arith, rw (e, find_last_of) at h)
  | inl e ↦ elim (Bool-cases (p c)) [
    | inl match ↦ ground (arith, rw (e, match, find_last_of) at h)
    | inr other ↦ rw other (find_last_of-none p s e)
  ]
]

here-IsFound :
    (p : ℕ → Bool) (c : ℕ) (s : Text) → p c ≡ true → lacks p s ≡ true → IsFound p (c ∷ s) 0
here-IsFound p c s match last = record { at = c; matches = match; parts = refl; last = last }

later-IsFound :
    (p : ℕ → Bool) (c : ℕ) (s : Text) (ix : ℕ) → IsFound p s ix → IsFound p (c ∷ s) (suc ix)
later-IsFound p c s ix f = record {
  at = f.at;
  matches = f.matches;
  parts = ap (λ t. c ∷ t) f.parts;
  last = f.last;
}

pub find_last_of-IsFound :
    (p : ℕ → Bool) (s : Text) (ix : ℕ) → find_last_of p s ≡ some ix → IsFound p s ix
unfolding find_last_of
find_last_of-IsFound p [] ix h = ground arith
find_last_of-IsFound p (c ∷ s) ix h = elim (Option-cases (find_last_of p s)) [
  | inr (j, e) ↦
      subst (IsFound p (c ∷ s)) (some_injective (rw (e, find_last_of) at h))
        (later-IsFound p c s j (find_last_of-IsFound p s j e))
  | inl e ↦ elim (Bool-cases (p c)) [
    | inl match ↦
        subst (IsFound p (c ∷ s)) (some_injective (rw (e, match, find_last_of) at h))
          (here-IsFound p c s match (find_last_of-none p s e))
    | inr other ↦ ground (arith, rw (e, other, find_last_of) at h)
  ]
]
