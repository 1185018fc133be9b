-- ===== src/Base/Same.antt =====
-- Two maps with the same value for each key hold the same entries.
use Prim.Native.Nat.{ℕ}
use mathlib.Core.Path.{◌≡◌, refl, sym, ap, ◌∙◌}
use mathlib.Core.Logic.{inl, inr}
use mathlib.Core.List.Permᴰ
use mathlib.Core.List.{[], ◌∷◌, Permᴰ}
use mathlib.Core.Option.{some, none}
use native.Mathlib.Omega.{arith}
use zombie_finder.Base.Map.{Map, find, erase, find-erase, erase-Distinct, Distinct}
use zombie_finder.Base.Tests.{◌==◌, ==_iff, Bool-cases}

module _ {ℓ} {V : Type ℓ} where
  -- The map holds the values for each key.
  abbrev pub SameFinds : Map V → Map V → Type ℓ
  SameFinds m n = (k : ℕ) → find k m ≡ find k n

  erase-absent : (k : ℕ) (m : Map V) → find k m ≡ none → erase k m ≡ m
  unfolding find erase
  erase-absent k [] h = refl
  erase-absent k ((j, v) ∷ m) h = ground (arith, erase-absent k m)

  -- The entry of a key can stand in front.
  erase-Perm :
      (k : ℕ) (v : V) (m : Map V) → Distinct m → find k m ≡ some v → Permᴰ ((k, v) ∷ erase k m) m
  unfolding find erase
  erase-Perm k v [] d h = absurd (cc h)
  erase-Perm k v ((j, w) ∷ m) d h = elim (Bool-cases (j == k)) [
    | inl e ↦
        let key : j ≡ k = (==_iff j k).0 e in
        let value : w ≡ v = ground arith in
        let rest : erase k m ≡ m = erase-absent k m (ap (λ i. find i m) (sym key) ∙ d.0) in
        rw (e, rest) (Permᴰ.cons (cc) (Permᴰ.refl m))
    | inr e ↦
        rw e (
          Permᴰ.trans (Permᴰ.swap refl refl)
            (Permᴰ.cons refl (erase-Perm k v m d.1 (ground arith))))
  ]

  pub SameFinds-Perm : (m n : Map V) → Distinct m → Distinct n → SameFinds m n → Permᴰ m n
  unfolding find erase
  SameFinds-Perm [] [] dm dn h = Permᴰ.nil
  SameFinds-Perm [] ((k, v) ∷ n) dm dn h = absurd (ground (arith, h k))
  SameFinds-Perm ((k, v) ∷ m) n dm dn h =
      let here : find k n ≡ some v = ground (arith, h k) in
      Permᴰ.trans
        (Permᴰ.cons refl (
          SameFinds-Perm m (erase k n) dm.1 (erase-Distinct k n dn)
            (λ j. ground (arith, h j, dm.0, find-erase k j n))))
        (erase-Perm k v n dn here)
