-- ===== src/Strings/Prefix.antt =====
-- `StartsWith` and `EndsWith` (StringUtils.h).
use zombie_finder.Base.{
  ℕ, zero, suc, ◌-◌, Bool, true, false, ◌&&◌, none, some, [], ◌∷◌, ltb, ◌==◌, if◌then◌else◌, length,
  get_elem?,
}
use zombie_finder.Base.Text.{Text, c_str}
use zombie_finder.Strings.{Comparison, less, equal, greater, to_lower}

-- The comparison of two C strings up to so many characters, each mapped first.
unfoldable pub compare_up_to : (ℕ → ℕ) → ℕ → Text → Text → Comparison
compare_up_to fold zero s t = equal
compare_up_to fold (suc n) [] [] = equal
compare_up_to fold (suc n) [] (d ∷ t) = less
compare_up_to fold (suc n) (c ∷ s) [] = greater
compare_up_to fold (suc n) (c ∷ s) (d ∷ t) =
    if ltb (fold c) (fold d)
    then less
    else if ltb (fold d) (fold c)
    then greater
    else compare_up_to fold n s t

-- `wcsncmp` and `_wcsnicmp` of the C strings of two texts.
unfoldable pub wcsncmp : Text → Text → ℕ → Comparison
unfolding compare_up_to
wcsncmp a b n = compare_up_to (λ c. c) n (c_str a) (c_str b)

unfoldable pub wcsnicmp : Text → Text → ℕ → Comparison
unfolding compare_up_to to_lower
wcsnicmp a b n = compare_up_to to_lower n (c_str a) (c_str b)

abbrev is_zero : Comparison → Bool
is_zero equal = true
is_zero less = false
is_zero greater = false

unfoldable pub starts_with : Text → Text → Bool → Bool
unfolding wcsncmp wcsnicmp
starts_with str prefix case_sensitive =
    if case_sensitive
    then is_zero (wcsncmp str prefix (length prefix))
    else is_zero (wcsnicmp str prefix (length prefix))

unfoldable pub ends_with : Text → ℕ → Bool
ends_with str chr =
    ltb 0 (length str) && elim (get_elem? str (length str - 1)) [ none ↦ false | some c ↦ c == chr ]
