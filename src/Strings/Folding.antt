-- ===== src/Strings/Folding.antt =====
-- `_wcsicmp` as an order on texts.
use zombie_finder.Base.{◌≡◌, refl, [], ◌∷◌, arith}
use zombie_finder.Base.Text.{Text, c_str}
use zombie_finder.Strings.{Comparison, less, equal, greater, compare_folded, wcsicmp}

abbrev pub flip : Comparison → Comparison
flip less = greater
flip equal = equal
flip greater = less

compare_folded_refl : (s : Text) → compare_folded s s ≡ equal
unfolding compare_folded
compare_folded_refl [] = refl
compare_folded_refl (c ∷ s) = ground (arith, compare_folded_refl s)

compare_folded-flip : (s t : Text) → compare_folded t s ≡ flip (compare_folded s t)
unfolding compare_folded
compare_folded-flip [] [] = refl
compare_folded-flip [] (d ∷ t) = refl
compare_folded-flip (c ∷ s) [] = refl
compare_folded-flip (c ∷ s) (d ∷ t) = ground (arith, compare_folded-flip s t)

compare_folded_eq :
    (s t u : Text) → compare_folded s t ≡ equal → compare_folded s u ≡ compare_folded t u
unfolding compare_folded
compare_folded_eq [] [] u e = refl
compare_folded_eq [] (d ∷ t) u e = cc
compare_folded_eq (c ∷ s) [] u e = cc
compare_folded_eq (c ∷ s) (d ∷ t) [] e = refl
compare_folded_eq (c ∷ s) (d ∷ t) (f ∷ u) e = ground (arith, compare_folded_eq s t u)

compare_folded_trans :
    (s t u : Text)
    → compare_folded s t ≡ less
    → compare_folded t u ≡ less
    → compare_folded s u ≡ less
unfolding compare_folded
compare_folded_trans [] [] u e f = cc
compare_folded_trans [] (d ∷ t) [] e f = cc
compare_folded_trans [] (d ∷ t) (g ∷ u) e f = refl
compare_folded_trans (c ∷ s) [] u e f = cc
compare_folded_trans (c ∷ s) (d ∷ t) [] e f = cc
compare_folded_trans (c ∷ s) (d ∷ t) (g ∷ u) e f =
    ground (arith, compare_folded_trans s t u, compare_folded_eq s t u)

pub wcsicmp_refl : (a : Text) → wcsicmp a a ≡ equal
unfolding wcsicmp
wcsicmp_refl a = compare_folded_refl (c_str a)

pub wcsicmp-flip : (a b : Text) → wcsicmp b a ≡ flip (wcsicmp a b)
unfolding wcsicmp
wcsicmp-flip a b = compare_folded-flip (c_str a) (c_str b)

pub wcsicmp_eq : (a b c : Text) → wcsicmp a b ≡ equal → wcsicmp a c ≡ wcsicmp b c
unfolding wcsicmp
wcsicmp_eq a b c = compare_folded_eq (c_str a) (c_str b) (c_str c)

pub wcsicmp_trans : (a b c : Text) → wcsicmp a b ≡ less → wcsicmp b c ≡ less → wcsicmp a c ≡ less
unfolding wcsicmp
wcsicmp_trans a b c = compare_folded_trans (c_str a) (c_str b) (c_str c)
