-- ===== src/Strings/Split.antt =====
-- `SplitStringToVector` (StringUtils.cpp), and the joining of fields that it undoes.
use zombie_finder.Base.{
  ℕ, zero, suc, ◌≡◌, ◌≢◌, ◌≤◌, ◌<◌, refl, ap, sym, ◌∙◌, Bool, true, not, Option, none, some, List,
  [], ◌∷◌, ◌++◌, arith, ◌==◌, if◌then◌else◌, length, all, inl, inr, Bool-cases, length-append,
  ==_iff, Option-cases,
}
use zombie_finder.Base.Text.{Text}

-- `std::getline`: the characters in front of the delimiter, and what stands behind it; `none` is the
-- end of the stream.
unfoldable pub get_line : ℕ → Text → Text × Option Text
get_line delim [] = ([], none)
get_line delim (c ∷ s) =
    let (item, rest) = get_line delim s in if c == delim then ([], some s) else (c ∷ item, rest)

-- The `do` loop; the first argument bounds its rounds.
unfoldable pub split_loop : ℕ → ℕ → Text → List Text
unfolding get_line
split_loop zero delim s = []
split_loop (suc rounds) delim s = elim (get_line delim s).1 [
  | none ↦ (get_line delim s).0 ∷ []
  | some rest ↦ (get_line delim s).0 ∷ split_loop rounds delim rest
]

-- Each round but the last reads a delimiter.
unfoldable pub split_string_to_vector : Text → ℕ → List Text
unfolding split_loop
split_string_to_vector [] delim = []
split_string_to_vector (c ∷ s) delim = split_loop (suc (length (c ∷ s))) delim (c ∷ s)

-- The fields with the delimiter between them.
abbrev pub join : ℕ → List Text → Text
join delim [] = []
join delim (f ∷ []) = f
join delim (f ∷ g ∷ fs) = f ++ delim ∷ join delim (g ∷ fs)

-- The delimiter does not stand in the text.
abbrev pub lacks : ℕ → Text → Bool
lacks delim t = all (λ c. not (c == delim)) t

get_line-lacks :
    (delim : ℕ) (f s : Text) → lacks delim f ≡ true → get_line delim (f ++ delim ∷ s) ≡ (f, some s)
unfolding get_line
get_line-lacks delim [] s h = ground arith
get_line-lacks delim (c ∷ f) s h = ground (arith, get_line-lacks delim f s)

get_line_last : (delim : ℕ) (f : Text) → lacks delim f ≡ true → get_line delim f ≡ (f, none)
unfolding get_line
get_line_last delim [] h = refl
get_line_last delim (c ∷ f) h = ground (arith, get_line_last delim f)

split_loop-join :
    (rounds delim : ℕ) (f : Text) (fs : List Text)
    → all (lacks delim) (f ∷ fs) ≡ true
    → length fs < rounds
    → split_loop rounds delim (join delim (f ∷ fs)) ≡ f ∷ fs
unfolding split_loop
split_loop-join zero delim f fs h enough = elim enough [ ]
split_loop-join (suc rounds) delim f [] h enough =
    let e : get_line delim (join delim (f ∷ [])) ≡ (f, none) =
      get_line_last delim f (ground (arith, h)) in
    rw (e, split_loop) (ap (λ p. p.0 ∷ []) e)
split_loop-join (suc rounds) delim f (g ∷ fs) h enough =
    let e : get_line delim (join delim (f ∷ g ∷ fs)) ≡ (f, some (join delim (g ∷ fs))) =
      get_line-lacks delim f (join delim (g ∷ fs)) (ground (arith, h)) in
    rw (e, split_loop)
      (ap (λ p. p.0 ∷ split_loop rounds delim (join delim (g ∷ fs))) e
        ∙ ap (λ l. f ∷ l)
            (split_loop-join rounds delim g fs (ground (arith, h)) (omega (arith, enough))))

-- What a call of `std::getline` read.
abbrev reread : ℕ → Text → Option Text → Text
reread delim item none = item
reread delim item (some rest) = item ++ delim ∷ rest

reread-get_line :
    (delim : ℕ) (s : Text) → reread delim (get_line delim s).0 (get_line delim s).1 ≡ s
unfolding get_line
reread-get_line delim [] = refl
reread-get_line delim (c ∷ s) = elim (Bool-cases (c == delim)) [
  | inl e ↦ rw (e, get_line) (ap (λ k. k ∷ s) (sym ((==_iff c delim).0 e)))
  | inr e ↦
      rw (e, get_line) (later c (get_line delim s).0 (get_line delim s).1 (reread-get_line delim s))
]
  where
    later :
        (k : ℕ) (item : Text) (rest : Option Text)
        → reread delim item rest ≡ s
        → reread delim (k ∷ item) rest ≡ k ∷ s
    later k item none h = ap (λ t. k ∷ t) h
    later k item (some rest) h = ap (λ t. k ∷ t) h

get_line-item-lacks : (delim : ℕ) (s : Text) → lacks delim (get_line delim s).0 ≡ true
unfolding get_line
get_line-item-lacks delim [] = refl
get_line-item-lacks delim (c ∷ s) = ground (arith, get_line-item-lacks delim s)

length-reread :
    (delim : ℕ) (s item : Text) (rest : Text)
    → reread delim item (some rest) ≡ s
    → length rest < length s
length-reread delim s item rest h = omega (arith, ap length h, length-append item (delim ∷ rest))

-- What the loop leaves of a text, for enough rounds.
record IsSplit (delim : ℕ) (s : Text) (fields : List Text) : Type 0 where
  joins : join delim fields ≡ s
  clean : all (lacks delim) fields ≡ true
  some_field : fields ≢ []

cons-IsSplit :
    (delim : ℕ) (s item rest : Text) (fields : List Text)
    → reread delim item (some rest) ≡ s
    → lacks delim item ≡ true
    → IsSplit delim rest fields
    → IsSplit delim s (item ∷ fields)
cons-IsSplit delim s item rest [] e l h = absurd (h.some_field refl)
cons-IsSplit delim s item rest (f ∷ fs) e l h = record {
  joins = ap (λ t. item ++ delim ∷ t) h.joins ∙ e;
  clean = ground (arith, h.clean);
  some_field = λ z. cc;
}

split_loop-IsSplit :
    (rounds delim : ℕ) (s : Text) → length s < rounds → IsSplit delim s (split_loop rounds delim s)
unfolding split_loop
split_loop-IsSplit zero delim s enough = elim enough [ ]
split_loop-IsSplit (suc rounds) delim s enough = elim (Option-cases (get_line delim s).1) [
  | inl e ↦
      rw (e, split_loop)
        (record {
          joins = rw e at (reread-get_line delim s);
          clean = ground (arith, get_line-item-lacks delim s);
          some_field = λ z. cc;
        })
  | inr (rest, e) ↦
      rw (e, split_loop)
        (let read : reread delim (get_line delim s).0 (some rest) ≡ s =
            rw e at (reread-get_line delim s) in
          cons-IsSplit delim s (get_line delim s).0 rest (split_loop rounds delim rest) read
            (get_line-item-lacks delim s)
            (split_loop-IsSplit rounds delim rest
              (omega (arith, enough, length-reread delim s (get_line delim s).0 rest read))))
]

-- `SplitStringToVector` gives fields without the delimiter that, joined by it, are the text; there are
-- none if and only if the text is empty.
pub split_string_to_vector-join :
    (s : Text) (delim : ℕ)
    → (join delim (split_string_to_vector s delim) ≡ s)
      × (all (lacks delim) (split_string_to_vector s delim) ≡ true)
      × ((length (split_string_to_vector s delim) == 0) ≡ (length s == 0))
unfolding split_string_to_vector
split_string_to_vector-join [] delim = (refl, refl, refl)
split_string_to_vector-join (c ∷ s) delim =
    let i = split_loop-IsSplit (suc (length (c ∷ s))) delim (c ∷ s) (omega arith) in
    (i.joins, i.clean, some_fields (split_loop (suc (length (c ∷ s))) delim (c ∷ s)) i.some_field)
  where
    some_fields : (fields : List Text) → fields ≢ [] → (length fields == 0) ≡ (suc (length s) == 0)
    some_fields [] ne = absurd (ne refl)
    some_fields (f ∷ fs) ne = ground arith

split-ne-nil :
    (s : Text) (delim : ℕ)
    → s ≢ []
    → split_string_to_vector s delim ≡ split_loop (suc (length s)) delim s
unfolding split_string_to_vector
split-ne-nil [] delim h = absurd (h refl)
split-ne-nil (c ∷ s) delim h = refl

length-join : (delim : ℕ) (f : Text) (fs : List Text) → length fs ≤ length (join delim (f ∷ fs))
length-join delim f [] = omega arith
length-join delim f (g ∷ fs) =
    omega (arith, length-append f (delim ∷ join delim (g ∷ fs)), length-join delim g fs)

-- It gives back fields that do not hold the delimiter from the text that joins them, unless that text
-- is empty.
pub split_string_to_vector-fields :
    (fields : List Text) (delim : ℕ)
    → all (lacks delim) fields ≡ true
    → join delim fields ≢ []
    → split_string_to_vector (join delim fields) delim ≡ fields
split_string_to_vector-fields [] delim h ne = absurd (ne refl)
split_string_to_vector-fields (f ∷ fs) delim h ne =
    split-ne-nil (join delim (f ∷ fs)) delim ne
    ∙ split_loop-join (suc (length (join delim (f ∷ fs)))) delim f fs h
        (omega (arith, length-join delim f fs))
