-- ===== src/Base/Ordered.antt =====
-- std::map with a number for a key: an association list in the ascending order of the keys, which is
-- the order of its iterators.
use Prim.Native.Nat.{ℕ, ◌<◌}
use mathlib.Core.Path.{◌≡◌, refl}
use mathlib.Core.List.{[], ◌∷◌}
use mathlib.Core.Option.{some}
use native.Mathlib.Omega.{arith}
use zombie_finder.Base.Map.{Map, find}
use zombie_finder.Base.Tests.{ltb, ◌==◌, if◌then◌else◌}

module _ {ℓ} {V : Type ℓ} where
  -- `m[k] = v`
  unfoldable pub put_in_order : ℕ → V → Map V → Map V
  put_in_order k v [] = (k, v) ∷ []
  put_in_order k v ((j, w) ∷ m) =
      if k == j
      then (j, v) ∷ m
      else if ltb k j
      then (k, v) ∷ (j, w) ∷ m
      else (j, w) ∷ put_in_order k v m

  -- The key is smaller than those of the map.
  abbrev pub Below : ℕ → Map V → Type 0
  Below k [] = Unit
  Below k ((j, v) ∷ m) = (k < j) × Below k m

  abbrev pub IsAscending : Map V → Type 0
  IsAscending [] = Unit
  IsAscending ((k, v) ∷ m) = Below k m × IsAscending m

  pub find-put_in_order :
      (k j : ℕ) (v : V) (m : Map V)
      → find j (put_in_order k v m) ≡ (if k == j then some v else find j m)
  unfolding find put_in_order
  find-put_in_order k j v [] = refl
  find-put_in_order k j v ((i, w) ∷ m) = ground (arith, find-put_in_order k j v m)

  Below-trans : (k j : ℕ) (m : Map V) → k < j → Below j m → Below k m
  Below-trans k j [] lt h = tt
  Below-trans k j ((i, w) ∷ m) lt h = (omega arith, Below-trans k j m lt h.1)

  put-Below : (i k : ℕ) (v : V) (m : Map V) → i < k → Below i m → Below i (put_in_order k v m)
  unfolding put_in_order
  put-Below i k v [] lt h = (lt, tt)
  put-Below i k v ((j, w) ∷ m) lt h = ground (arith, put-Below i k v m lt h.1)

  pub put-IsAscending :
      (k : ℕ) (v : V) (m : Map V) → IsAscending m → IsAscending (put_in_order k v m)
  unfolding put_in_order
  put-IsAscending k v [] h = (tt, tt)
  put-IsAscending k v ((j, w) ∷ m) h =
      ground (arith, put-IsAscending k v m h.1, put-Below j k v m, Below-trans k j m)
