-- ===== src/Logger/LogRecord/Time.antt =====
-- The time stamp of a line, logger/src/LogRecord.cpp. A time is the count of nanoseconds of
-- `system_clock`; the calendar of the C library is a parameter.
pub mod Padded
pub mod RoundTrip
use loggerlib.Common.Text.{is_digit, parse_signed}
use loggerlib.Common.Text.Numbers.{to_string}
use loggerlib.Prelude.Int.{ℤ, pos, negsuc, ◌+ℤ◌, ◌-ℤ◌, ◌≤ℤ◌, ltb_ℤ, eq_ℤ, scale}
use loggerlib.Prelude.Options.{◌>>=◌}
use loggerlib.Prelude.{
  flatten, ℕ, zero, suc, ◌+◌, ◌-◌, ◌*◌, ◌/◌, ◌%◌, ◌^◌, ◌≤◌, ◌<◌, min, max, ◌≡◌, refl, sym, ap, ◌∙◌,
  ◌≢◌, ◌↔◌, ◌⊎◌, inl, inr, Bool, true, false, not, ◌&&◌, ◌||◌, Option, none, some, List, [], ◌∷◌,
  ◌++◌, map, append_assoc, append-nil, arith, Bytes, codes, Lacks, All, All-append, length,
  get_elem?, take, drop, replicate, length-append, take-length, drop-length, drop_past, take_all,
  equal, equal_iff, find, rfind, find_pair, substr, Cut, absent, at, find-Cut, ltb, leb, ◌==◌,
  if◌then◌else◌, ltb→lt, leb→le, ltb→le, lt→ltb, le→ltb, ==_iff, ==_refl, ==_ne, Bool-cases,
  Option-cases, every_below, every_below_at,
}

-- The fields of `std::tm` that the code reads: the year counts from 1900, the month from 0.
pub record Tm : Type 0 where
  pub tm_year : ℤ
  pub tm_mon : ℤ
  pub tm_mday : ℤ
  pub tm_hour : ℤ
  pub tm_min : ℤ
  pub tm_sec : ℤ

-- `gmtime_r` takes seconds since the epoch apart, or fails. `timegm` puts parts together; it
-- returns the seconds, and the parts as it has normalised them.
pub record Calendar : Type 0 where
  pub gmtime : ℤ → Option Tm
  pub timegm : Tm → ℤ × Tm

-- `kUnknownStamp`
abbrev pub unknown_stamp : Bytes
unknown_stamp = codes "0000-00-00 00:00:00.000Z"

-- `kStampSize`
abbrev pub stamp_size : ℕ
stamp_size = 24

-- `%0Nd` of an `int`
unfoldable pub padded : ℕ → ℤ → Bytes
padded width (pos n) = replicate (width - length (to_string n)) b'0' ++ to_string n
padded width (negsuc n) =
    b'-' ∷ (replicate (width - 1 - length (to_string (suc n))) b'0' ++ to_string (suc n))

-- `kFormatString` with the seven numbers
unfoldable pub stamp_text : Tm → ℕ → Bytes
stamp_text parts millis =
    padded 4 (parts.tm_year +ℤ pos 1900)
    ++ (b'-'
        ∷ (padded 2 (parts.tm_mon +ℤ pos 1)
            ++ (b'-'
                ∷ (padded 2 parts.tm_mday
                    ++ (b' '
                        ∷ (padded 2 parts.tm_hour
                            ++ (b':'
                                ∷ (padded 2 parts.tm_min
                                    ++ (b':'
                                        ∷ (padded 2 parts.tm_sec
                                            ++ (b'.'
                                                ∷ (padded 3 (pos millis) ++ b'Z' ∷ []))))))))))))

abbrev pub nanos_per_second : ℕ
nanos_per_second = 1_000_000_000

abbrev pub nanos_per_milli : ℕ
nanos_per_milli = 1_000_000

-- `std::chrono::floor<std::chrono::seconds>(time)`
unfoldable pub floor_seconds : ℤ → ℤ
floor_seconds (pos n) = pos (n / nanos_per_second)
floor_seconds (negsuc n) = negsuc (n / nanos_per_second)

-- The milliseconds of `time - seconds`, which is not negative.
unfoldable pub millis_of : ℤ → ℕ
millis_of (pos n) = n % nanos_per_second / nanos_per_milli
millis_of (negsuc n) = (nanos_per_second - 1 - n % nanos_per_second) / nanos_per_milli

-- `snprintf` returns the length of the whole text.
abbrev pub or_unknown : Bytes → Bytes
or_unknown stamp = if length stamp == stamp_size then stamp else unknown_stamp

-- The loop that holds a line against `kUnknownStamp`, character by character.
unfoldable pub matches_shape : Bytes → Bytes → Bool
unfolding is_digit
matches_shape (s ∷ shape) (c ∷ line) =
    (if is_digit s then is_digit c else s == c) && matches_shape shape line
matches_shape _ _ = true

unfoldable pub parse_int : Bytes → Option ℤ
parse_int text = parse_signed (2 ^ 31 - 1) text

-- `kMaxStamp`, in milliseconds
abbrev pub max_stamp : ℕ
max_stamp = (2 ^ 63 - 1) / nanos_per_milli

unfoldable pub same_parts : Tm → Tm → Bool
same_parts p q =
    eq_ℤ p.tm_year q.tm_year
    && (eq_ℤ p.tm_mon q.tm_mon
        && (eq_ℤ p.tm_mday q.tm_mday
            && (eq_ℤ p.tm_hour q.tm_hour && (eq_ℤ p.tm_min q.tm_min && eq_ℤ p.tm_sec q.tm_sec))))

-- The seven numbers of a line that has the shape.
pub record Fields : Type 0 where
  pub requested : Tm
  pub millis : ℤ

unfoldable pub read_fields : Bytes → Option Fields
read_fields line = do
  year ← parse_int (substr 0 4 line)
  month ← parse_int (substr 5 2 line)
  mday ← parse_int (substr 8 2 line)
  hour ← parse_int (substr 11 2 line)
  min ← parse_int (substr 14 2 line)
  sec ← parse_int (substr 17 2 line)
  millis ← parse_int (substr 20 3 line)
  some (record {
    requested = record {
      tm_year = year -ℤ pos 1900;
      tm_mon = month -ℤ pos 1;
      tm_mday = mday;
      tm_hour = hour;
      tm_min = min;
      tm_sec = sec;
    };
    millis = millis;
  })

module _ (calendar : Calendar) where
  -- The stamp that `formatRecord` writes.
  unfoldable pub format_stamp : ℤ → Bytes
  format_stamp time = elim (calendar.gmtime (floor_seconds time)) [
    | none ↦ unknown_stamp
    | some parts ↦ or_unknown (stamp_text parts (millis_of time))
  ]

  -- From the parts to the time: out of range, or a date that does not exist, is refused.
  unfoldable pub to_time : Fields → Option ℤ
  to_time fields =
      let (raw, parts) = calendar.timegm fields.requested in
      let stamp = scale 1000 raw +ℤ fields.millis in
      if ltb_ℤ stamp (pos 0) || ltb_ℤ (pos max_stamp) stamp
      then none
      else if not (same_parts parts fields.requested)
      then none
      else some (scale nanos_per_milli stamp)

  unfoldable pub parse_timestamp : Bytes → Option ℤ
  parse_timestamp line =
      if not (length line == stamp_size)
      then none
      else if not (matches_shape unknown_stamp line)
      then none
      else read_fields line >>= to_time
