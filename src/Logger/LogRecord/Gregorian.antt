-- ===== src/Logger/LogRecord/Gregorian.antt =====
-- The Gregorian calendar as the C library keeps it, for times from the epoch on: a concrete
-- `gmtime_r` and `timegm`, with which the model of logger/src/LogRecord.cpp runs.
use loggerlib.Logger.LogRecord.Time.RoundTrip.{InRange, IsCalendar}
use loggerlib.Logger.LogRecord.Time.{nanos_per_second, Calendar, Tm}
use loggerlib.Prelude.Int.{negsuc, ◌+ℤ◌, ◌-ℤ◌, ℤ, pos, pos_part}
use loggerlib.Prelude.{
  refl, ◌^◌, none, some, ltb, Option, if◌then◌else◌, ℕ, ◌+◌, ◌-◌, ◌*◌, ◌/◌, ◌%◌, ◌≤◌, ◌<◌, min, ◌≡◌,
  arith,
}

-- Days count from March 1 of the year 0, and years begin in March. A day is taken apart into the
-- cycles of 400, 100, 4 and 1 years.
abbrev day_of_era : ℕ → ℕ
day_of_era z = z % 146097

abbrev centuries : ℕ → ℕ
centuries z = min 3 (day_of_era z / 36524)

abbrev day_of_century : ℕ → ℕ
day_of_century z = day_of_era z - centuries z * 36524

abbrev years : ℕ → ℕ
years z = min 3 (day_of_century z % 1461 / 365)

unfoldable pub march_year : ℕ → ℕ
march_year z = 400 * (z / 146097) + 100 * centuries z + 4 * (day_of_century z / 1461) + years z

unfoldable pub day_of_year : ℕ → ℕ
day_of_year z = day_of_century z % 1461 - years z * 365

-- The day that begins a March year.
unfoldable pub march_first : ℕ → ℕ
march_first y = 365 * y + y / 4 - y / 100 + y / 400

march_first-year : (z : ℕ) → march_first (march_year z) + day_of_year z ≡ z
unfolding march_first march_year day_of_year
march_first-year z = omega arith

day_of_year-le : (z : ℕ) → day_of_year z ≤ 365
unfolding day_of_year
day_of_year-le z = omega arith

-- Months from March on, and the day of the month from 0.
abbrev march_month : ℕ → ℕ
march_month doy = (5 * doy + 2) / 153

abbrev month_first : ℕ → ℕ
month_first mp = (153 * mp + 2) / 5

month_first-le : (doy : ℕ) → month_first (march_month doy) ≤ doy
month_first-le doy = omega arith

mday-lt : (doy : ℕ) → doy - month_first (march_month doy) < 31
mday-lt doy = omega arith

march_month-le : (doy : ℕ) → doy ≤ 365 → march_month doy ≤ 11
march_month-le doy h = omega arith

-- January is month 0; it and February belong to the March year before.
abbrev civil_month : ℕ → ℕ
civil_month mp = if ltb mp 10 then mp + 2 else mp - 10

abbrev civil_year : ℕ → ℕ → ℕ
civil_year y mp = if ltb mp 10 then y else y + 1

-- The day 1970-01-01.
abbrev epoch_day : ℕ
epoch_day = 719468

unfoldable pub parts_at : (day second : ℕ) → Tm
parts_at day second =
    let mp = march_month (day_of_year day) in
    record {
      tm_year = pos (civil_year (march_year day) mp) -ℤ pos 1900;
      tm_mon = pos (civil_month mp);
      tm_mday = pos (day_of_year day - month_first mp + 1);
      tm_hour = pos (second / 3600);
      tm_min = pos (second % 3600 / 60);
      tm_sec = pos (second % 60);
    }

-- Any other parts are carried over into the day that they count to; a negative part counts as 0.
unfoldable pub day_at : Tm → ℕ
day_at p =
    let year = pos_part (p.tm_year +ℤ pos 1900) in
    let month = pos_part p.tm_mon in
    let y = if ltb month 2 then year - 1 else year in
    let mp = if ltb month 2 then month + 10 else month - 2 in
    march_first y + month_first mp + pos_part p.tm_mday - 1

unfoldable pub seconds_at : Tm → ℤ
seconds_at p =
    pos (day_at p * 86400 + pos_part p.tm_hour * 3600 + pos_part p.tm_min * 60 + pos_part p.tm_sec)
    -ℤ pos (epoch_day * 86400)

unfoldable pub gregorian_parts : ℤ → Option Tm
gregorian_parts (pos t) = some (parts_at (t / 86400 + epoch_day) (t % 86400))
gregorian_parts (negsuc t) = none

abbrev pub or_given : Tm → Option Tm → Tm
or_given p none = p
or_given p (some q) = q

abbrev pub gregorian : Calendar
gregorian = record {
  gmtime = gregorian_parts;
  timegm = λ p. (seconds_at p, or_given p (gregorian_parts (seconds_at p)));
}

back_to_year : (y : ℕ) → pos_part (pos y -ℤ pos 1900 +ℤ pos 1900) ≡ y
unfolding ◌+ℤ◌ ◌-ℤ◌
back_to_year y = ground arith

less_1900 : (y : ℕ) → 1900 ≤ y → pos y -ℤ pos 1900 ≡ pos (y - 1900)
unfolding ◌-ℤ◌
less_1900 y h = ground arith

day_at-parts : (day second : ℕ) → 400 ≤ day → day_at (parts_at day second) ≡ day
unfolding day_at parts_at
day_at-parts day second h = ground (
  arith,
  back_to_year (civil_year (march_year day) (march_month (day_of_year day))),
  march_first-year day,
  month_first-le (day_of_year day),
  march_month-le (day_of_year day) (day_of_year-le day),
)

seconds_at-parts : (t : ℕ) → seconds_at (parts_at (t / 86400 + epoch_day) (t % 86400)) ≡ pos t
unfolding seconds_at parts_at ◌-ℤ◌
seconds_at-parts t = ground (arith, day_at-parts (t / 86400 + epoch_day) (t % 86400) (omega arith))

civil_month-le : (mp : ℕ) → mp ≤ 11 → civil_month mp ≤ 11
civil_month-le mp h = ground arith

-- Years of the clock: the March years 1969 to 2262.
march_year-ge : (day : ℕ) → epoch_day ≤ day → 1969 ≤ march_year day
unfolding march_year
march_year-ge day h = omega arith

january-ge :
    (day : ℕ) → epoch_day ≤ day → 1970 ≤ civil_year (march_year day) (march_month (day_of_year day))
unfolding march_year day_of_year
january-ge day h = ground arith

march_year-le : (day : ℕ) → day ≤ epoch_day + 106752 → march_year day ≤ 9000
unfolding march_year
march_year-le day h = omega arith

parts_at-InRange :
    (t : ℕ)
    → t ≤ (2 ^ 63 - 1) / nanos_per_second
    → InRange (parts_at (t / 86400 + epoch_day) (t % 86400))
unfolding parts_at
parts_at-InRange t h =
    let day = t / 86400 + epoch_day in
    let mp = march_month (day_of_year day) in
    let small = march_month-le (day_of_year day) (day_of_year-le day) in
    let bounded = march_year-le day (omega arith) in
    let late = january-ge day (omega arith) in
    record {
      year = civil_year (march_year day) mp - 1900;
      year_is = less_1900 (civil_year (march_year day) mp) (omega arith);
      year_le = ground arith;
      month = civil_month mp;
      month_is = refl;
      month_le = civil_month-le mp small;
      mday = day_of_year day - month_first mp + 1;
      mday_is = refl;
      mday_le = omega (arith, mday-lt (day_of_year day));
      hour = t % 86400 / 3600;
      hour_is = refl;
      hour_le = omega arith;
      min = t % 86400 % 3600 / 60;
      min_is = refl;
      min_le = omega arith;
      sec = t % 86400 % 60;
      sec_is = refl;
      sec_le = omega arith;
    }

inverse_at : (t : ℤ) (p : Tm) → gregorian_parts t ≡ some p → gregorian.timegm p ≡ (t, p)
unfolding gregorian_parts
inverse_at (pos t) p h = ground (arith, seconds_at-parts t)
inverse_at (negsuc t) p h = absurd (ground arith)

-- The calendar does what the round trips of the log assume.
pub gregorian-IsCalendar : IsCalendar gregorian
gregorian-IsCalendar = record {
  answers = λ t h. (
    parts_at (t / 86400 + epoch_day) (t % 86400),
    (unfold gregorian_parts in refl),
    parts_at-InRange t h,
  );
  inverse = inverse_at;
}
