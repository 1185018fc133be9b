-- ===== src/Strings/Times/Sorted.antt =====
-- The order of the date and time texts.
use zombie_finder.Base.{
  ◌<◌, ◌≡◌, refl, ap, ◌∙◌, Bool, true, false, [], ◌∷◌, arith, if◌then◌else◌, length, ap₂, List, all,
  sym, lt→ltb,
}
use zombie_finder.Strings.{Comparison, less, equal, greater}
use zombie_finder.Strings.Order.{compare_texts, compare_numbers, and_then}
use zombie_finder.Strings.Times.{
  SystemTime, TimeCalls, time_text, swprintf, system_time_to_w_string,
}
use zombie_finder.Strings.Times.Parts.{
  Part, separator, number, fits, first, second, order, compare_parts, width, length-first,
}

-- The ranges of the fields that the formats have room for.
pub record IsShort (st : SystemTime) : Type 0 where
  pub year : st.year < 10000
  pub month : st.month < 100
  pub day : st.day < 100
  pub hour : st.hour < 100
  pub minute : st.minute < 100
  pub second : st.second < 100
  pub milliseconds : st.milliseconds < 1000

-- The order of two times.
abbrev pub compare_times : Bool → SystemTime → SystemTime → Comparison
compare_times milliseconds a b = and_then (compare_numbers a.year b.year) (
    and_then (compare_numbers a.month b.month) (
      and_then (compare_numbers a.day b.day) (
        and_then (compare_numbers a.hour b.hour) (
          and_then (compare_numbers a.minute b.minute) (
            and_then (compare_numbers a.second b.second)
              (if milliseconds then compare_numbers a.milliseconds b.milliseconds else equal))))))

and_then-equal : (c : Comparison) → and_then c equal ≡ c
and_then-equal less = refl
and_then-equal equal = refl
and_then-equal greater = refl

-- The parts of the four formats.
parts : Bool → Bool → SystemTime → SystemTime → List Part
parts true true a b =
    number 3 a.year b.year
    ∷ number 1 a.month b.month
    ∷ number 1 a.day b.day
    ∷ separator b'_'
    ∷ number 1 a.hour b.hour
    ∷ number 1 a.minute b.minute
    ∷ number 1 a.second b.second
    ∷ separator b'_'
    ∷ number 2 a.milliseconds b.milliseconds
    ∷ []
parts true false a b =
    number 3 a.year b.year
    ∷ separator b'-'
    ∷ number 1 a.month b.month
    ∷ separator b'-'
    ∷ number 1 a.day b.day
    ∷ separator b' '
    ∷ number 1 a.hour b.hour
    ∷ separator b':'
    ∷ number 1 a.minute b.minute
    ∷ separator b':'
    ∷ number 1 a.second b.second
    ∷ separator b'.'
    ∷ number 2 a.milliseconds b.milliseconds
    ∷ []
parts false true a b =
    number 3 a.year b.year
    ∷ number 1 a.month b.month
    ∷ number 1 a.day b.day
    ∷ separator b'_'
    ∷ number 1 a.hour b.hour
    ∷ number 1 a.minute b.minute
    ∷ number 1 a.second b.second
    ∷ []
parts false false a b =
    number 3 a.year b.year
    ∷ separator b'-'
    ∷ number 1 a.month b.month
    ∷ separator b'-'
    ∷ number 1 a.day b.day
    ∷ separator b' '
    ∷ number 1 a.hour b.hour
    ∷ separator b':'
    ∷ number 1 a.minute b.minute
    ∷ separator b':'
    ∷ number 1 a.second b.second
    ∷ []

module _ (a b : SystemTime) where
  parts-fits : (ms fs : Bool) → IsShort a → IsShort b → all fits (parts ms fs a b) ≡ true
  unfolding parts
  parts-fits true true ha hb = ground (arith, ha, hb)
  parts-fits true false ha hb = ground (arith, ha, hb)
  parts-fits false true ha hb = ground (arith, ha, hb)
  parts-fits false false ha hb = ground (arith, ha, hb)

  first-parts : (ms fs : Bool) → first (parts ms fs a b) ≡ time_text a ms fs
  unfolding parts time_text
  first-parts true true = refl
  first-parts true false = refl
  first-parts false true = refl
  first-parts false false = refl

  second-parts : (ms fs : Bool) → second (parts ms fs a b) ≡ time_text b ms fs
  unfolding parts time_text
  second-parts true true = refl
  second-parts true false = refl
  second-parts false true = refl
  second-parts false false = refl

  order-parts : (ms fs : Bool) → order (parts ms fs a b) ≡ compare_times ms a b
  unfolding parts
  order-parts true true = rw (and_then-equal (compare_numbers a.milliseconds b.milliseconds)) refl
  order-parts true false = rw (and_then-equal (compare_numbers a.milliseconds b.milliseconds)) refl
  order-parts false true = refl
  order-parts false false = refl

  width-parts : (ms fs : Bool) → width (parts ms fs a b) < 32
  unfolding parts
  width-parts true true = omega arith
  width-parts true false = omega arith
  width-parts false true = omega arith
  width-parts false false = omega arith

length-time_text : (st : SystemTime) (ms fs : Bool) → IsShort st → length (time_text st ms fs) < 32
length-time_text st ms fs h = omega (
  arith,
  ap length (first-parts st st ms fs),
  length-first (parts ms fs st st) (parts-fits st st ms fs h h),
  width-parts st st ms fs,
)

system_time_to_w_string-fits :
    (calls : TimeCalls) (st : SystemTime) (ms fs : Bool)
    → IsShort st
    → system_time_to_w_string calls st ms fs ≡ time_text st ms fs
unfolding system_time_to_w_string swprintf
system_time_to_w_string-fits calls st ms fs h =
    rw (lt→ltb (length (time_text st ms fs)) 32 (length-time_text st ms fs h)) refl

-- For times with a year of at most four digits, a month, day, hour, minute and second of at most two
-- and milliseconds of at most three, the texts fit the buffer of `SystemTimeToWString`, and they are
-- sorted like the times: by year, month, day, hour, minute and second, and by the milliseconds if
-- the text has them.
pub compare_texts-system_time_to_w_string :
    (calls : TimeCalls) (milliseconds for_file_system : Bool) (a b : SystemTime)
    → IsShort a
    → IsShort b
    → (length (system_time_to_w_string calls a milliseconds for_file_system) < 32)
      × (compare_texts
            (system_time_to_w_string calls a milliseconds for_file_system)
            (system_time_to_w_string calls b milliseconds for_file_system)
          ≡ compare_times milliseconds a b)
compare_texts-system_time_to_w_string calls ms fs a b ha hb =
    let ea = system_time_to_w_string-fits calls a ms fs ha in
    let eb = system_time_to_w_string-fits calls b ms fs hb in
    (
      omega (arith, ap length ea, length-time_text a ms fs ha),
      ap₂ compare_texts (ea ∙ sym (first-parts a b ms fs)) (eb ∙ sym (second-parts a b ms fs))
          ∙ compare_parts (parts ms fs a b) (parts-fits a b ms fs ha hb)
          ∙ order-parts a b ms fs,
    )
