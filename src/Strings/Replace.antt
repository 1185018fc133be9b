-- ===== src/Strings/Replace.antt =====
-- The functions of StringUtils.h that replace and escape. The overloads for
-- `std::wstring` and `std::string` differ in the character type only; a text stands for both.
pub mod PutFor
pub mod Escaped
pub mod Ending
pub mod Nul
use zombie_finder.Base.{
  ℕ, zero, suc, ◌+◌, Bool, true, false, ◌&&◌, Option, none, some, [], ◌∷◌, ◌++◌, ltb, leb, ◌==◌,
  if◌then◌else◌, length, take, drop, ◌>>=◌,
}
use zombie_finder.Base.Text.{Text, codes, ◌<<◌}

unfoldable pub is_prefix : Text → Text → Bool
is_prefix [] s = true
is_prefix (c ∷ t) [] = false
is_prefix (c ∷ t) (d ∷ s) = c == d && is_prefix t s

-- The first place where a text stands in another.
unfoldable pub find_in : Text → Text → Option ℕ
unfolding is_prefix
find_in t [] = if length t == 0 then some 0 else none
find_in t (d ∷ s) =
    let later : Option ℕ = elim (find_in t s) [ none ↦ none | some ix ↦ some (suc ix) ] in
    if is_prefix t (d ∷ s) then some 0 else later

-- `str.find(t, pos)`.
unfoldable pub find_text : Text → Text → ℕ → Option ℕ
unfolding find_in
find_text str t pos =
    if leb pos (length str)
    then elim (find_in t (drop pos str)) [ none ↦ none | some ix ↦ some (pos + ix) ]
    else none

-- The loop; the first argument bounds its rounds, and `none` is a loop that they do not end.
unfoldable pub replace_loop : ℕ → Text → Text → Text → ℕ → Option Text
unfolding find_text
replace_loop zero replace with_text str pos = elim (find_text str replace pos) [
  | none ↦ some str
  | some ix ↦ none
]
replace_loop (suc rounds) replace with_text str pos = elim (find_text str replace pos) [
  | none ↦ some str
  | some ix ↦
      replace_loop rounds replace with_text
        (take ix str ++ (with_text ++ drop (ix + length replace) str)) (ix + length with_text)
]

-- Each round takes at least one character from what is left of the text.
unfoldable pub replace_string_all : Text → Text → Text → Option Text
unfolding replace_loop
replace_string_all str replace with_text =
    if length replace == 0 then some str else replace_loop (length str) replace with_text str 0

unfoldable pub replace_embedded_nuls : Text → Text
replace_embedded_nuls [] = []
replace_embedded_nuls (c ∷ s) =
    (if c == 0 then (if ltb 0 (length s) then codes "\\0" else []) else c ∷ [])
    << replace_embedded_nuls s

unfoldable pub escape_cr_lf_tab : Text → Option Text
unfolding replace_string_all
escape_cr_lf_tab str = do
  a ← replace_string_all str (codes "\r") (codes "\\r")
  b ← replace_string_all a (codes "\n") (codes "\\n")
  replace_string_all b (codes "\t") (codes "\\t")

unfoldable pub escape_cr_lf_tab_nul : Text → Option Text
unfolding escape_cr_lf_tab replace_embedded_nuls
escape_cr_lf_tab_nul str = do s ← escape_cr_lf_tab str; some (replace_embedded_nuls s)
