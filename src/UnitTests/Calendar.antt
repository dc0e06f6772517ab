-- ===== src/UnitTests/Calendar.antt =====
-- A concrete calendar for chrono: unix seconds from the year 0 on, printed and read as RFC 3339.
use bipa_coding_challenge.Common.{
  ℕ, suc, ◌+◌, ◌-◌, ◌*◌, ◌/◌, ◌%◌, ltb, leb, if◌then◌else◌, Option, none, some, Text, List, [], ◌∷◌,
  ◌++◌,
}
use bipa_coding_challenge.Common.Int.{ℤ, pos, negsuc}
use bipa_coding_challenge.Std.Decimal.{decimal, pad_zeros}
use bipa_coding_challenge.Domain.Time.{Chrono}
use bipa_coding_challenge.Tests.Outside.{in_range}

-- 0000-03-01 to 1970-01-01, in days and in seconds.
abbrev epoch_day : ℕ
epoch_day = 719_468

abbrev epoch : ℕ
epoch = epoch_day * 86_400

abbrev pub shifted : ℤ → ℕ
shifted (pos n) = epoch + n
shifted (negsuc n) = epoch - suc n

abbrev unshifted : ℕ → ℤ
unshifted n = if ltb n epoch then negsuc (epoch - n - 1) else pos (n - epoch)

record Date : Type 0 where
  pub year : ℕ
  pub month : ℕ
  pub day : ℕ

-- Years that start in March, so that the leap day is the last one: `month` counts from it.
abbrev days_to : Date → ℕ
days_to d =
    365 * d.year + d.year / 4 - d.year / 100 + d.year / 400 + (153 * d.month + 2) / 5 + d.day

abbrev year_of_era : ℕ → ℕ
year_of_era day = (day - day / 1_460 + day / 36_524 - day / 146_096) / 365

abbrev in_year : ℕ → ℕ → Date
in_year year day =
    let month = (5 * day + 2) / 153 in
    record { year = year; month = month; day = day - (153 * month + 2) / 5 }

abbrev in_era : ℕ → ℕ → Date
in_era era day =
    let year = year_of_era day in
    in_year (400 * era + year) (day - (365 * year + year / 4 - year / 100))

abbrev date_of : ℕ → Date
date_of days = in_era (days / 146_097) (days % 146_097)

-- The usual date, of years that start in January.
abbrev civil : Date → Date
civil d = record {
  year = if ltb d.month 10 then d.year else d.year + 1;
  month = if ltb d.month 10 then d.month + 3 else d.month - 9;
  day = d.day + 1;
}

abbrev uncivil : Date → Date
uncivil d = record {
  year = if leb d.month 2 then d.year - 1 else d.year;
  month = (d.month + 9) % 12;
  day = d.day - 1;
}

abbrev two : ℕ → Text
two n = pad_zeros 2 (decimal n)

abbrev print_date : Date → Text
print_date d = pad_zeros 4 (decimal d.year) ++ b'-' ∷ (two d.month ++ b'-' ∷ two d.day)

abbrev print_time : ℕ → Text
print_time s = two (s / 3_600) ++ b':' ∷ (two (s / 60 % 60) ++ b':' ∷ (two (s % 60) ++ b'Z' ∷ []))

unfoldable pub print : ℤ → Text
unfolding decimal pad_zeros
print t =
    let s = shifted t in print_date (civil (date_of (s / 86_400))) ++ b'T' ∷ print_time (s % 86_400)

-- `Utc.with_ymd_and_hms(…)` for a date and a time that exist
unfoldable pub with_ymd_and_hms : ℕ → ℕ → ℕ → ℕ → ℕ → ℕ → Option ℤ
with_ymd_and_hms year month day hour minute second = some (
    unshifted (
      86_400 * days_to (uncivil (record { year = year; month = month; day = day }))
      + 3_600 * hour
      + 60 * minute
      + second))

abbrev number : List ℕ → ℕ → ℕ
number [] n = n
number (c ∷ s) n = number s (10 * n + (c - b'0'))

unfoldable pub parse : Text → Option ℤ
unfolding with_ymd_and_hms
parse
      (y1 ∷ y2 ∷ y3 ∷ y4 ∷ _ ∷ m1 ∷ m2 ∷ _ ∷ d1 ∷ d2 ∷ _ ∷ h1 ∷ h2 ∷ _ ∷ n1 ∷ n2 ∷ _ ∷ s1 ∷ s2
        ∷ _) =
    with_ymd_and_hms (number (y1 ∷ y2 ∷ y3 ∷ y4 ∷ []) 0) (number (m1 ∷ m2 ∷ []) 0)
      (number (d1 ∷ d2 ∷ []) 0) (number (h1 ∷ h2 ∷ []) 0) (number (n1 ∷ n2 ∷ []) 0)
      (number (s1 ∷ s2 ∷ []) 0)
parse _ = none

abbrev pub calendar : Chrono
calendar = record {
  Instant = ℤ;
  from_timestamp = λ s n. if in_range s then some s else none;
  to_rfc3339_opts = λ t format z. print t;
}
