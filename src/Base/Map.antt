-- ===== src/Base/Map.antt =====
-- std::unordered_map with a number for a key, as an association list. `put` is `m[k] = v`, `erase`
-- removes every entry of the key. The order of the entries is that of their first insertion.
use Prim.Native.Nat.{ℕ, suc, ◌+◌}
use mathlib.Core.Path.{◌≡◌, refl}
use mathlib.Core.Bool.{Bool}
use mathlib.Core.List.{List, [], ◌∷◌, ◌++◌}
use mathlib.Core.Option.{Option, none, some}
use native.Mathlib.Omega.{arith}
use zombie_finder.Base.Lists.{length}
use zombie_finder.Base.Tests.{◌==◌, if◌then◌else◌, is_some}

abbrev pub Map {ℓ} : Type ℓ → Type ℓ
Map V = List (ℕ × V)

module _ {ℓ} {V : Type ℓ} where
  unfoldable pub find : ℕ → Map V → Option V
  find k [] = none
  find k ((j, v) ∷ m) = if j == k then some v else find k m

  unfoldable pub put : ℕ → V → Map V → Map V
  put k v [] = (k, v) ∷ []
  put k v ((j, w) ∷ m) = if j == k then (j, v) ∷ m else (j, w) ∷ put k v m

  unfoldable pub erase : ℕ → Map V → Map V
  erase k [] = []
  erase k ((j, v) ∷ m) = if j == k then erase k m else (j, v) ∷ erase k m

  unfoldable pub contains : ℕ → Map V → Bool
  unfolding find
  contains k m = is_some (find k m)

  -- How many entries have the key.
  unfoldable pub count_key : ℕ → Map V → ℕ
  count_key k [] = 0
  count_key k ((j, v) ∷ m) = (if j == k then 1 else 0) + count_key k m

  -- No key stands in two entries.
  abbrev pub Distinct : Map V → Type ℓ
  Distinct [] = Unit
  Distinct ((k, v) ∷ m) = (find k m ≡ none) × Distinct m

  pub find-put :
      (k j : ℕ) (v : V) (m : Map V) → find j (put k v m) ≡ (if k == j then some v else find j m)
  unfolding find put
  find-put k j v [] = refl
  find-put k j v ((i, w) ∷ m) = ground (arith, find-put k j v m)

  pub find-erase : (k j : ℕ) (m : Map V) → find j (erase k m) ≡ (if k == j then none else find j m)
  unfolding find erase
  find-erase k j [] = ground arith
  find-erase k j ((i, w) ∷ m) = ground (arith, find-erase k j m)

  pub put-Distinct : (k : ℕ) (v : V) (m : Map V) → Distinct m → Distinct (put k v m)
  unfolding put find
  put-Distinct k v [] d = (refl, tt)
  put-Distinct k v ((i, w) ∷ m) d = ground (arith, put-Distinct k v m d.1, find-put k i v m)

  pub erase-Distinct : (k : ℕ) (m : Map V) → Distinct m → Distinct (erase k m)
  unfolding erase
  erase-Distinct k [] d = tt
  erase-Distinct k ((i, w) ∷ m) d = ground (arith, erase-Distinct k m d.1, find-erase k i m)

  pub length-put :
      (k : ℕ) (v : V) (m : Map V)
      → length (put k v m) ≡ (if is_some (find k m) then length m else suc (length m))
  unfolding put find
  length-put k v [] = refl
  length-put k v ((i, w) ∷ m) = ground (arith, length-put k v m)

  -- A new key is added at the end.
  pub put-append : (k : ℕ) (v : V) (m : Map V) → find k m ≡ none → put k v m ≡ m ++ (k, v) ∷ []
  unfolding put find
  put-append k v [] h = refl
  put-append k v ((i, w) ∷ m) h = ground (arith, put-append k v m)

  pub count_key-zero : (k : ℕ) (m : Map V) → count_key k m ≡ 0 → find k m ≡ none
  unfolding count_key find
  count_key-zero k [] h = refl
  count_key-zero k ((i, w) ∷ m) h = ground (arith, count_key-zero k m)

  pub count_key-put :
      (k j : ℕ) (v : V) (m : Map V)
      → count_key k m ≡ 0
      → count_key j (put k v m) ≡ (if k == j then 1 else 0) + count_key j m
  unfolding count_key put
  count_key-put k j v [] h = refl
  count_key-put k j v ((i, w) ∷ m) h = ground (arith, count_key-put k j v m)
