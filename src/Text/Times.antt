-- ===== src/Text/Times.antt =====
-- Go's `Format(time.RFC3339)` of a time, which is the milliseconds since year 1.
use Prim.Native.String.{◌++◌ as ◌<>◌}
use gitlab_elt.Common.{
  ℕ, ◌+◌, ◌-◌, ◌*◌, ◌/◌, ◌%◌, String, Bool, ◌&&◌, ◌||◌, not, List, [], ◌∷◌, ltb, ◌==◌, nat_eq,
  if◌then◌else◌,
}
use gitlab_elt.Text.{digit}

two_digits : ℕ → String
two_digits n = digit (n / 10) <> digit (n % 10)

four_digits : ℕ → String
unfolding two_digits
four_digits n = two_digits (n / 100) <> two_digits (n % 100)

-- How often a period of `len` days, of which four make a longer one with a day more at its end, is
-- over after `days`.
abbrev periods : ℕ → ℕ → ℕ
periods days len = days / len - days / len / 4

-- The year of a day since the first of January of year 1, and the day of the year from 0.
year_day : ℕ → ℕ × ℕ
year_day day =
    let in_400 = day % 146097 in
    let n100 = periods in_400 36524 in
    let in_100 = in_400 - n100 * 36524 in
    let in_4 = in_100 % 1461 in
    let n1 = periods in_4 365 in
    (day / 146097 * 400 + n100 * 100 + in_100 / 1461 * 4 + n1 + 1, in_4 - n1 * 365)

is_leap : ℕ → Bool
is_leap year = year % 4 == 0 && (not (year % 100 == 0) || year % 400 == 0)

month_lengths : ℕ → List ℕ
unfolding is_leap
month_lengths year =
    31 ∷ (if is_leap year then 29 else 28) ∷ 31 ∷ 30 ∷ 31 ∷ 30 ∷ 31 ∷ 31 ∷ 30 ∷ 31 ∷ 30 ∷ 31 ∷ []

-- The month and the day of the month, both from 1.
month_day : ℕ → ℕ → List ℕ → ℕ × ℕ
month_day month day [] = (month, day + 1)
month_day month day (len ∷ lens) =
    let later = month_day (month + 1) (day - len) lens in
    if ltb day len then (month, day + 1) else later

date : ℕ → String
unfolding four_digits two_digits year_day month_lengths month_day
date day =
    let (year, in_year) = year_day day in
    let (month, in_month) = month_day 1 in_year (month_lengths year) in
    four_digits year <> ("-" <> (two_digits month <> ("-" <> two_digits in_month)))

-- The date and the time of the day.
stamp : ℕ → String
unfolding date two_digits
stamp ms =
    let s = ms / 1000 % 86400 in
    date (ms / 86400000)
    <> ("T"
        <> (two_digits (s / 3600)
            <> (":" <> (two_digits (s / 60 % 60) <> (":" <> two_digits (s % 60))))))

unfoldable pub format_rfc3339 : ℕ → String
unfolding stamp
format_rfc3339 ms = stamp ms <> "Z"

-- How far the clocks of a location are from UTC.
pub record Zone : Type 0 where
  pub east : Bool
  pub minutes : ℕ

abbrev offset : ℕ → String
offset minutes = two_digits (minutes / 60) <> (":" <> two_digits (minutes % 60))

-- The same time in a location.
unfoldable pub format_rfc3339_in : Zone → ℕ → String
unfolding stamp format_rfc3339
format_rfc3339_in z ms =
    if z.minutes == 0
    then format_rfc3339 ms
    else if z.east
    then stamp (ms + z.minutes * 60000) <> ("+" <> offset z.minutes)
    else stamp (ms - z.minutes * 60000) <> ("-" <> offset z.minutes)
