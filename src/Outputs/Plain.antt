-- ===== src/Outputs/Plain.antt =====
-- Texts without tabs and line breaks, among them what the output functions print of numbers and times.
use zombie_finder.Base.{
  ℕ, ◌≡◌, refl, Bool, true, false, ◌||◌, Option, none, some, List, [], ◌∷◌, ◌++◌, arith, length,
  ◌==◌, ltb, all, if◌then◌else◌,
}
use zombie_finder.Base.Text.{Text, codes, ◌<<◌, decimal, hexadecimal, pad_left}
use zombie_finder.Base.Text.Digits.{
  all-append, all-decimal, all-hexadecimal, all-pad_left, is_decimal_digit,
}
use zombie_finder.Hex.{hex, to_u64}
use zombie_finder.Outputs.{service_names, services_text, parent_text}
use zombie_finder.Outputs.Rows.{is_plain, plain}
use zombie_finder.Processes.Ago.{ago, ago_text, ago_parts, Parts}
use zombie_finder.Services.{ServiceList}
use zombie_finder.Strings.Times.{
  TimeCalls, SystemTime, file_time_to_w_string, system_time_to_w_string, swprintf, time_text,
  filled,
}

plain-append : (s t : Text) → plain s ≡ true → plain t ≡ true → plain (s ++ t) ≡ true
plain-append = all-append is_plain

digit-plain : (c : ℕ) → is_decimal_digit c ≡ true → is_plain c ≡ true
digit-plain c h = ground (arith, h)

pub plain-decimal : (n : ℕ) → plain (decimal n) ≡ true
plain-decimal = all-decimal is_plain digit-plain

plain-pad_left : (width : ℕ) (s : Text) → plain s ≡ true → plain (pad_left b'0' width s) ≡ true
plain-pad_left width s h = all-pad_left is_plain digit-plain b'0' width s refl h

pub plain-if :
    (b : Bool) (s t : Text) → plain s ≡ true → plain t ≡ true → plain (if b then s else t) ≡ true
plain-if true s t hs ht = hs
plain-if false s t hs ht = ht

pub plain-hex :
    (size num width : ℕ) (upcase prefix : Bool) → plain (hex size num width upcase prefix) ≡ true
unfolding hex
plain-hex size num width upcase prefix =
    plain-append (if prefix then codes "0x" else [])
      (pad_left b'0' width (hexadecimal upcase (to_u64 size num)))
      (plain-if prefix (codes "0x") [] refl refl)
      (plain-pad_left width (hexadecimal upcase (to_u64 size num))
        (all-hexadecimal is_plain digit-plain (λ c h. ground (arith, h)) upcase (to_u64 size num)))

-- The names of the services are plain.
abbrev pub plain_services : Option ServiceList → Bool
plain_services none = true
plain_services (some services) = all (λ s. plain s.service_name) services

plain-service_names :
    (services : ServiceList)
    → all (λ s. plain s.service_name) services ≡ true
    → plain (service_names services) ≡ true
unfolding service_names
plain-service_names [] h = refl
plain-service_names (s ∷ services) h =
    plain-append s.service_name (b' ' ∷ service_names services) (ground (arith, h))
      (plain-service_names services (ground (arith, h)))

pub plain-services_text :
    (services : Option ServiceList)
    → plain_services services ≡ true
    → plain (services_text [] services) ≡ true
unfolding services_text
plain-services_text none h = refl
plain-services_text (some services) h = plain-service_names services h

pub plain-parent_text : (path : Text) → plain path ≡ true → plain (parent_text path) ≡ true
unfolding parent_text
plain-parent_text path h = plain-if (ltb 0 (length path)) path (codes "(exited)") h refl

-- Texts written one after the other.
abbrev written : List Text → Text
written [] = []
written (t ∷ []) = t
written (t ∷ u ∷ ts) = t << written (u ∷ ts)

plain-written : (ts : List Text) → all plain ts ≡ true → plain (written ts) ≡ true
plain-written [] h = refl
plain-written (t ∷ []) h = ground (arith, h)
plain-written (t ∷ u ∷ ts) h =
    plain-append t (written (u ∷ ts)) (ground (arith, h))
      (plain-written (u ∷ ts) (ground (arith, h)))

plain-filled : (width n : ℕ) → plain (filled width n) ≡ true
unfolding filled
plain-filled width n = plain-pad_left width (decimal n) (plain-decimal n)

plain-time_text : (st : SystemTime) → plain (time_text st false false) ≡ true
unfolding time_text
plain-time_text st =
    plain-written
      (filled 4 st.year
        ∷ codes "-"
        ∷ filled 2 st.month
        ∷ codes "-"
        ∷ filled 2 st.day
        ∷ codes " "
        ∷ filled 2 st.hour
        ∷ codes ":"
        ∷ filled 2 st.minute
        ∷ codes ":"
        ∷ filled 2 st.second
        ∷ [])
      (ground (
        arith,
        plain-filled 4 st.year,
        plain-filled 2 st.month,
        plain-filled 2 st.day,
        plain-filled 2 st.hour,
        plain-filled 2 st.minute,
        plain-filled 2 st.second,
      ))

pub plain-file_time_to_w_string :
    (calls : TimeCalls) (ft : ℕ)
    → ((size : ℕ) (t : Text) → plain t ≡ true → plain (calls.overflow size t) ≡ true)
    → plain (file_time_to_w_string calls ft false (some [])) ≡ true
unfolding file_time_to_w_string system_time_to_w_string swprintf
plain-file_time_to_w_string calls ft h =
    let t = time_text (calls.to_system_time ft) false false in
    let fits = plain-time_text (calls.to_system_time ft) in
    plain-if (ft == 0) [] (if ltb (length t) 32 then t else calls.overflow 32 t) refl
      (plain-if (ltb (length t) 32) t (calls.overflow 32 t) fits (h 32 t fits))

plain-amount :
    (shown : Bool) (n : ℕ) (unit : Text)
    → plain unit ≡ true
    → plain (if shown then decimal n ++ unit else []) ≡ true
plain-amount shown n unit h =
    plain-if shown (decimal n ++ unit) [] (plain-append (decimal n) unit (plain-decimal n) h) refl

plain-ago_text : (p : Parts) → plain (ago_text p) ≡ true
unfolding ago_text
plain-ago_text p =
    let some_hours = ltb 0 p.days || ltb 0 p.hours in
    let day_unit = if p.days == 1 then codes " day " else codes " days " in
    let hour_unit = if p.hours == 1 then codes " hour " else codes " hrs " in
    let days = if ltb 0 p.days then decimal p.days ++ day_unit else [] in
    let hours = if some_hours then decimal p.hours ++ hour_unit else [] in
    let minutes =
      if some_hours || ltb 0 p.minutes then decimal p.minutes ++ codes " min " else [] in
    plain-append (days ++ hours ++ minutes ++ decimal p.seconds) (codes " secs")
      (plain-append (days ++ hours ++ minutes) (decimal p.seconds)
        (plain-append (days ++ hours) minutes
          (plain-append days hours
            (plain-amount (ltb 0 p.days) p.days day_unit
              (plain-if (p.days == 1) (codes " day ") (codes " days ") refl refl))
            (plain-amount some_hours p.hours hour_unit
              (plain-if (p.hours == 1) (codes " hour ") (codes " hrs ") refl refl)))
          (plain-amount (some_hours || ltb 0 p.minutes) p.minutes (codes " min ") refl))
        (plain-decimal p.seconds))
      refl

pub plain-ago : (n : ℕ) → plain (ago n) ≡ true
unfolding ago
plain-ago n = plain-ago_text (ago_parts n)
