-- ===== src/Strings/Replace/PutFor.antt =====
-- `replaceStringAll` for a text of one character (StringUtils.h).
use zombie_finder.Base.{
  ℕ, zero, suc, ◌+◌, ◌≤◌, ◌≡◌, refl, ap, sym, ◌∙◌, true, false, Option, none, some, [], ◌∷◌, ◌++◌,
  arith, leb, ◌==◌, if◌then◌else◌, length, take, drop, length-append, append_assoc, append-nil,
  Bool-cases, inl, inr, ap₂,
}
use zombie_finder.Base.Text.{Text}
use zombie_finder.Strings.Replace.{is_prefix, find_in, find_text, replace_loop, replace_string_all}

-- Each character `c` replaced.
abbrev pub put_for : ℕ → Text → Text → Text
put_for c with_text [] = []
put_for c with_text (d ∷ s) = (if d == c then with_text else d ∷ []) ++ put_for c with_text s

drop-length : (done s : Text) → drop (length done) (done ++ s) ≡ s
drop-length [] s = refl
drop-length (c ∷ done) s = drop-length done s

take-length : (done s : Text) → take (length done) (done ++ s) ≡ done
take-length [] s = refl
take-length (c ∷ done) s = ap (λ t. c ∷ t) (take-length done s)

found_from : ℕ → Option ℕ → Option ℕ
found_from pos none = none
found_from pos (some ix) = some (pos + ix)

find_text-here :
    (done s t : Text)
    → find_text (done ++ s) t (length done) ≡ found_from (length done) (find_in t s)
unfolding find_text found_from
find_text-here done s t =
    let inside : leb (length done) (length (done ++ s)) ≡ true =
      ground (arith, length-append done s) in
    rw (inside, drop-length done s) (same (find_in t s))
  where
    same :
        (o : Option ℕ)
        → (elim o [ none ↦ none | some ix ↦ some (length done + ix) ]) ≡ found_from (length done) o
    same none = refl
    same (some ix) = refl

-- The loop depends on the position only by what is found from there on.
same_place :
    (rounds : ℕ) (t with_text str : Text) (pos pos' : ℕ)
    → find_text str t pos ≡ find_text str t pos'
    → replace_loop rounds t with_text str pos ≡ replace_loop rounds t with_text str pos'
unfolding replace_loop
same_place zero t with_text str pos pos' e = rw (e, replace_loop) refl
same_place (suc rounds) t with_text str pos pos' e = rw (e, replace_loop) refl

module _ (c : ℕ) (with_text : Text) where
  miss :
      (s : Text) (d n m : ℕ)
      → (d == c) ≡ false
      → m ≡ suc n
      → found_from n (find_in (c ∷ []) (d ∷ s)) ≡ found_from m (find_in (c ∷ []) s)
  unfolding find_in found_from is_prefix
  miss s d n m e next =
      let other : (c == d) ≡ false = ground (arith, e) in
      rw (other, find_in) (shifted (find_in (c ∷ []) s))
    where
      shifted :
          (o : Option ℕ)
          → found_from n (elim o [ none ↦ none | some ix ↦ some (suc ix) ]) ≡ found_from m o
      shifted none = refl
      shifted (some ix) = ap some (omega (arith, next))

  find_text-next :
      (done s : Text) (d : ℕ)
      → (d == c) ≡ false
      → find_text (done ++ d ∷ s) (c ∷ []) (length done)
        ≡ find_text (done ++ d ∷ s) (c ∷ []) (length (done ++ d ∷ []))
  find_text-next done s d e =
      find_text-here done (d ∷ s) (c ∷ [])
      ∙ miss s d (length done) (length (done ++ d ∷ [])) e
          (omega (arith, length-append done (d ∷ [])))
      ∙ sym (find_text-here (done ++ d ∷ []) s (c ∷ []))
      ∙ ap (λ t. find_text t (c ∷ []) (length (done ++ d ∷ []))) (append_assoc done (d ∷ []) s)

  find_text-hit :
      (done s : Text) (d : ℕ)
      → (d == c) ≡ true
      → find_text (done ++ d ∷ s) (c ∷ []) (length done) ≡ some (length done)
  unfolding find_in found_from is_prefix
  find_text-hit done s d e =
      let same : (c == d) ≡ true = ground (arith, e) in
      find_text-here done (d ∷ s) (c ∷ []) ∙ rw (same, find_in) (ap some (omega arith))

  find_text-end : (done : Text) → find_text (done ++ []) (c ∷ []) (length done) ≡ none
  unfolding find_in found_from
  find_text-end done = find_text-here done [] (c ∷ [])

  drop-next : (done s : Text) (d : ℕ) → drop (length done + 1) (done ++ d ∷ s) ≡ s
  drop-next done s d =
      let e : length done + 1 ≡ length (done ++ d ∷ []) =
        omega (arith, length-append done (d ∷ [])) in
      rw e (
        ap (λ t. drop (length (done ++ d ∷ [])) t) (sym (append_assoc done (d ∷ []) s))
        ∙ drop-length (done ++ d ∷ []) s)

  -- What is done, then the rest.
  abbrev loop_from : ℕ → Text → Text → Option Text
  loop_from rounds done s = replace_loop rounds (c ∷ []) with_text (done ++ s) (length done)

  loop_ends : (rounds : ℕ) (done : Text) → loop_from rounds done [] ≡ some done
  unfolding replace_loop
  loop_ends zero done = rw (find_text-end done, replace_loop, append-nil done) refl
  loop_ends (suc rounds) done = rw (find_text-end done, replace_loop, append-nil done) refl

  loop_misses :
      (rounds : ℕ) (done s : Text) (d : ℕ)
      → (d == c) ≡ false
      → loop_from rounds done (d ∷ s) ≡ loop_from rounds (done ++ d ∷ []) s
  loop_misses rounds done s d e =
      same_place rounds (c ∷ []) with_text (done ++ d ∷ s) (length done) (length (done ++ d ∷ []))
        (find_text-next done s d e)
      ∙ ap (λ t. replace_loop rounds (c ∷ []) with_text t (length (done ++ d ∷ [])))
          (sym (append_assoc done (d ∷ []) s))

  loop_hits :
      (rounds : ℕ) (done s : Text) (d : ℕ)
      → (d == c) ≡ true
      → loop_from (suc rounds) done (d ∷ s) ≡ loop_from rounds (done ++ with_text) s
  unfolding replace_loop
  loop_hits rounds done s d e =
      rw (find_text-hit done s d e, replace_loop)
        (ap₂ (λ t n. replace_loop rounds (c ∷ []) with_text t n)
          (ap₂ (λ x y. x ++ (with_text ++ y)) (take-length done (d ∷ s)) (drop-next done s d)
            ∙ sym (append_assoc done with_text s))
          (sym (length-append done with_text)))

  replace_loop-put_for :
      (rounds : ℕ) (done s : Text)
      → length s ≤ rounds
      → loop_from rounds done s ≡ some (done ++ put_for c with_text s)
  replace_loop-put_for rounds done [] enough =
      loop_ends rounds done ∙ ap some (sym (append-nil done))
  replace_loop-put_for zero done (d ∷ s) enough = absurd (omega (arith, enough))
  replace_loop-put_for (suc rounds) done (d ∷ s) enough = elim (Bool-cases (d == c)) [
    | inl e ↦
        loop_hits rounds done s d e
        ∙ replace_loop-put_for rounds (done ++ with_text) s (omega (arith, enough))
        ∙ rw e (ap some (append_assoc done with_text (put_for c with_text s)))
    | inr e ↦
        loop_misses (suc rounds) done s d e
        ∙ replace_loop-put_for (suc rounds) (done ++ d ∷ []) s (omega (arith, enough))
        ∙ rw e (ap some (append_assoc done (d ∷ []) (put_for c with_text s)))
  ]

  pub replace_string_all-put_for :
      (s : Text) → replace_string_all s (c ∷ []) with_text ≡ some (put_for c with_text s)
  unfolding replace_string_all
  replace_string_all-put_for s = replace_loop-put_for (length s) [] s (omega arith)
