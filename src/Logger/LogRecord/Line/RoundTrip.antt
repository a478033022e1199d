-- ===== src/Logger/LogRecord/Line/RoundTrip.antt =====
-- A line that was written is read back: the time to the millisecond, the level and the message.
use loggerlib.Common.Text.{equals_ignore_case}
use loggerlib.Logger.LogLevel.{
  LogLevel, is_valid_level, level_to_string, find_level, string_to_level,
}
use loggerlib.Logger.LogRecord.Escape.{escape_message}
use loggerlib.Logger.LogRecord.Line.{format_record, finish, parse_rest, parse_record}
use loggerlib.Logger.LogRecord.Time.RoundTrip.{IsCalendar, parse-format_stamp}
use loggerlib.Logger.LogRecord.Time.{Calendar, format_stamp, or_unknown, nanos_per_milli}
use loggerlib.Logger.LogRecord.Unescape.{unescape-escape}
use loggerlib.Prelude.Int.{ℤ, pos}
use loggerlib.Prelude.{
  ℕ, ◌*◌, ◌/◌, ◌^◌, ◌<◌, ◌≡◌, inl, inr, true, false, some, ◌++◌, arith, Bytes, codes, length,
  length-append, take_at, drop_at, find, ltb, ◌==◌, le→ltb, ==_iff, Bool-cases,
}

or_unknown_size : (stamp : Bytes) → length (or_unknown stamp) ≡ 24
or_unknown_size stamp = elim (Bool-cases (length stamp == 24)) [
  | inl fits ↦ rw fits ((==_iff (length stamp) 24).0 fits)
  | inr other ↦ rw other
]

-- Every stamp has one length, whether the calendar answers or not.
pub length-format_stamp :
    (calendar : Calendar) (time : ℤ) → length (format_stamp calendar time) ≡ 24
unfolding format_stamp
length-format_stamp calendar time = ground (arith)

parse_rest-format :
    (calendar : Calendar) (time : ℤ) (level : LogLevel) (message : Bytes)
    → is_valid_level level ≡ true
    → parse_rest calendar time
        (codes " [" ++ (level_to_string level ++ (codes "] " ++ escape_message message)))
      ≡ some (record { time = time; level = level; message = message })
unfolding parse_rest finish find string_to_level find_level level_to_string equals_ignore_case
parse_rest-format calendar time LogLevel.count message h = cc
parse_rest-format calendar time (LogLevel.beyond n) message h = absurd (ground arith)
parse_rest-format calendar time _ message h = ground (arith, unescape-escape message)

-- Whatever the message holds, a record of a valid level and a time from the epoch on is read back
-- from its line, with the time cut to the millisecond.
pub parse-format_record :
    (calendar : Calendar) (t : ℕ) (level : LogLevel) (message : Bytes)
    → IsCalendar calendar
    → t < 2 ^ 63
    → is_valid_level level ≡ true
    → parse_record calendar (format_record calendar (pos t) level message)
      ≡ some (record {
        time = pos (t / nanos_per_milli * nanos_per_milli);
        level = level;
        message = message;
      })
unfolding format_record parse_record
parse-format_record calendar t level message c fits valid =
    let stamp = format_stamp calendar (pos t) in
    let rest : Bytes =
      codes " [" ++ (level_to_string level ++ (codes "] " ++ escape_message message)) in
    let size = length-format_stamp calendar (pos t) in
    let long : ltb (length (stamp ++ rest)) 24 ≡ false =
      le→ltb (length (stamp ++ rest)) 24 (omega (arith, length-append stamp rest)) in
    rw
      (
        parse_record,
        long,
        take_at 24 stamp rest size,
        drop_at 24 stamp rest size,
        parse-format_stamp calendar t c fits,
      )
      (parse_rest-format calendar (pos (t / nanos_per_milli * nanos_per_milli)) level message valid)
