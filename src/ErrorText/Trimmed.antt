-- ===== src/ErrorText/Trimmed.antt =====
-- The texts of SysErrorMessage.cpp.
use zombie_finder.Base.{
  ℕ, zero, suc, ◌++◌, ◌≡◌, refl, ap, sym, ◌∙◌, Bool, true, false, ◌||◌, not, none, some, [], ◌∷◌,
  ◌==◌, if◌then◌else◌, take, length, all, arith, inl, inr, Option-cases, append-nil, append_assoc,
  subst,
}
use zombie_finder.Base.Text.{Text, codes, c_str, decimal}
use zombie_finder.ErrorText.{
  FormatMessage, char_at, crlf_loop, remove_trailing_crlf, sys_error_message_impl,
  sys_error_message, sys_error_message_with_code,
}
use zombie_finder.Hex.{hex}

-- A carriage return or a line feed.
abbrev is_cr_lf : ℕ → Bool
is_cr_lf c = c == 13 || c == 10

-- The text without the carriage returns and line feeds at its end.
abbrev pub without_line_ends : Text → Text
without_line_ends [] = []
without_line_ends (c ∷ s) = elim (without_line_ends s) [
  | [] ↦ if is_cr_lf c then [] else c ∷ []
  | d ∷ t ↦ c ∷ d ∷ t
]

-- The first character stays whatever it is.
abbrev pub trimmed : Text → Text
trimmed [] = []
trimmed (c ∷ s) = c ∷ without_line_ends s

abbrev no_nul : Text → Bool
no_nul s = all (λ c. not (c == 0)) s

c_str-no_nul : (s : Text) → no_nul (c_str s) ≡ true
c_str-no_nul [] = refl
c_str-no_nul (c ∷ s) = ground (arith, c_str-no_nul s)

-- A text of one character more has a last one.
snoc :
    (n : ℕ) (s : Text)
    → length s ≡ suc n
    → (t : Text) × (c : ℕ) × (s ≡ t ++ c ∷ []) × (length t ≡ n)
snoc n [] h = absurd (omega (arith, h))
snoc zero (c ∷ []) h = ([], c, refl, refl)
snoc zero (c ∷ d ∷ s) h = absurd (omega (arith, h))
snoc (suc n) (c ∷ s) h =
    let (t, d, e, k) = snoc n s (omega (arith, h)) in (c ∷ t, d, ap (λ x. c ∷ x) e, ap suc k)

without_line_ends-snoc :
    (s : Text) (c : ℕ)
    → without_line_ends (s ++ c ∷ []) ≡ (if is_cr_lf c then without_line_ends s else s ++ c ∷ [])
without_line_ends-snoc [] c = refl
without_line_ends-snoc (d ∷ []) c = ground arith
without_line_ends-snoc (d ∷ x ∷ s) c = ground (arith, without_line_ends-snoc (x ∷ s) c)

char_at-snoc : (s : Text) (c : ℕ) → char_at (s ++ c ∷ []) (length s) ≡ c
char_at-snoc [] c = refl
char_at-snoc (d ∷ s) c = char_at-snoc s c

take-snoc : (s t : Text) → take (length s) (s ++ t) ≡ s
take-snoc [] t = refl
take-snoc (d ∷ s) t = ap (λ x. d ∷ x) (take-snoc s t)

char_at-end : (s : Text) → char_at s (length s) ≡ 0
char_at-end [] = refl
char_at-end (d ∷ s) = char_at-end s

take-length : (s : Text) → take (length s) s ≡ s
take-length [] = refl
take-length (d ∷ s) = ap (λ x. d ∷ x) (take-length s)

no_nul-snoc :
    (s : Text) (c : ℕ) → no_nul (s ++ c ∷ []) ≡ true → (no_nul s ≡ true) × ((c == 0) ≡ false)
no_nul-snoc [] c h = ground arith
no_nul-snoc (d ∷ s) c h = ground (arith, no_nul-snoc s c)

crlf_loop-snoc :
    (c x : ℕ) (t : Text)
    → (x == 0) ≡ false
    → crlf_loop (length t) (c ∷ t) ≡ c ∷ without_line_ends t
    → crlf_loop (suc (length t)) (c ∷ t ++ x ∷ []) ≡ c ∷ without_line_ends (t ++ x ∷ [])
unfolding crlf_loop
crlf_loop-snoc c x t not_nul shorter =
    ground
      (arith, char_at-snoc t x, take-snoc t (x ∷ []), without_line_ends-snoc t x, shorter, not_nul)

crlf_loop-trimmed :
    (n c : ℕ) (s : Text)
    → length s ≡ n
    → no_nul s ≡ true
    → crlf_loop n (c ∷ s) ≡ c ∷ without_line_ends s
unfolding crlf_loop
crlf_loop-trimmed zero c [] h clean = refl
crlf_loop-trimmed zero c (d ∷ s) h clean = absurd (omega (arith, h))
crlf_loop-trimmed (suc n) c s h clean =
    let (t, x, e, k) = snoc n s h in
    let (clean', not_nul) = no_nul-snoc t x (subst (λ u. no_nul u ≡ true) e clean) in
    let shorter : crlf_loop (length t) (c ∷ t) ≡ c ∷ without_line_ends t =
      ap (λ m. crlf_loop m (c ∷ t)) k ∙ crlf_loop-trimmed n c t k clean' in
    ap (λ m. crlf_loop (suc m) (c ∷ s)) (sym k)
    ∙ ap (λ u. crlf_loop (suc (length t)) (c ∷ u)) e
    ∙ crlf_loop-snoc c x t not_nul shorter
    ∙ ap (λ u. c ∷ without_line_ends u) (sym e)

-- `RemoveTrailingCRLF`, on a text that holds no NUL.
remove_trailing_crlf-trimmed : (s : Text) → no_nul s ≡ true → remove_trailing_crlf s ≡ trimmed s
unfolding remove_trailing_crlf
remove_trailing_crlf-trimmed [] clean = refl
remove_trailing_crlf-trimmed (c ∷ s) clean =
    ground (arith, char_at-end s, take-length s, crlf_loop-trimmed (length s) c s refl)

-- "Error # " with the code in decimal, and in hexadecimal with eight digits in upper case.
abbrev pub number_text : ℕ → Text
number_text code =
    codes "Error # " ++ decimal code ++ codes " (" ++ hex 4 code 8 true true ++ codes ")"

-- `SysErrorMessage` gives the system's text for the code up to its first NUL, without the line ends at
-- its end but with its first character in any case, or the number if the system has no text;
-- `SysErrorMessageWithCode` the text, a space and the number, or the number.
pub sys_error_message-trimmed :
    (format_message : FormatMessage) (code : ℕ) (nt_status : Bool)
    → let message = format_message nt_status code in
      (sys_error_message format_message code nt_status
        ≡ elim message [ none ↦ number_text code | some s ↦ trimmed (c_str s) ])
      × (sys_error_message_with_code format_message code nt_status ≡ elim message [
        | none ↦ number_text code
        | some s ↦ trimmed (c_str s) ++ codes " " ++ number_text code
      ])
unfolding sys_error_message sys_error_message_with_code sys_error_message_impl
sys_error_message-trimmed format_message code nt_status =
    elim (Option-cases (format_message nt_status code)) [
      | inl e ↦ rw e (refl, refl)
      | inr (s, e) ↦
          let trims = remove_trailing_crlf-trimmed (c_str s) (c_str-no_nul s) in
          rw e (simp (trims, append-nil), simp (trims, append_assoc))
    ]
