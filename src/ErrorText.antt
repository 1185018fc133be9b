-- ===== src/ErrorText.antt =====
-- SysErrorMessage.cpp: the text of a Windows error code. `FormatMessageW` is not part of the
-- program: it is the argument `format_message`, which takes `bNtStatus` and the code, and gives
-- `none` where the call returns 0.
pub mod Trimmed
use zombie_finder.Base.{
  ℕ, zero, suc, ◌++◌, Bool, true, false, not, ◌||◌, Option, none, some, ◌==◌, if◌then◌else◌,
  is_some, [], take, get_elem?,
}
use zombie_finder.Base.Text.{Text, codes, c_str, decimal}
use zombie_finder.Hex.{hex}

abbrev pub FormatMessage : Type 0
FormatMessage = Bool → ℕ → Option Text

-- `psz[k]`; at the end of the text stands the terminator.
abbrev char_at : Text → ℕ → ℕ
char_at s k = elim (get_elem? s k) [ none ↦ 0 | some c ↦ c ]

-- `*pszEnd == L'\0' || *pszEnd == L'\r' || *pszEnd == L'\n'`
abbrev is_line_end : ℕ → Bool
is_line_end c = c == 0 || c == 13 || c == 10

-- The loop of `RemoveTrailingCRLF`: the argument is `pszEnd - psz`. Writing a terminator at `k`
-- cuts the text there.
crlf_loop : ℕ → Text → Text
crlf_loop zero s = s
crlf_loop (suc k) s = elim (is_line_end (char_at s (suc k))) [
  | true ↦ crlf_loop k (take (suc k) s)
  | false ↦ s
]

-- `wcschr(psz, L'\0')` is the end of the text.
unfoldable pub remove_trailing_crlf : Text → Text
unfolding crlf_loop
remove_trailing_crlf s = crlf_loop (zombie_finder.Base.length s) s

unfoldable pub sys_error_message_impl : FormatMessage → ℕ → Bool → Bool → Text
unfolding remove_trailing_crlf hex decimal
sys_error_message_impl format_message code with_code nt_status =
    let message = format_message nt_status code in
    (elim message [
      | none ↦ []
      | some s ↦ remove_trailing_crlf (c_str s) ++ (if with_code then codes " " else [])
    ])
    ++ (if not (is_some message) || with_code
        then codes "Error # " ++ decimal code ++ codes " (" ++ hex 4 code 8 true true ++ codes ")"
        else [])

unfoldable pub sys_error_message : FormatMessage → ℕ → Bool → Text
unfolding sys_error_message_impl
sys_error_message format_message code nt_status =
    sys_error_message_impl format_message code false nt_status

unfoldable pub sys_error_message_with_code : FormatMessage → ℕ → Bool → Text
unfolding sys_error_message_impl
sys_error_message_with_code format_message code nt_status =
    sys_error_message_impl format_message code true nt_status
