-- ===== src/Logger/Tests.antt =====
-- Runs of logger/ on the inputs of tests/test_log_record.cpp and tests/test_log_level.cpp, and the
-- theorems at concrete inputs.
use loggerlib.Logger.Sink.Offers.{multi_write_line_lem, last_world, offers, first_failure, reported}
use loggerlib.Common.Errors.{clear, generic}
use loggerlib.Logger.Sink.{multi_write_line, WriteLine}
use loggerlib.Logger.SinkLogger.{SinkLogger}
use loggerlib.Logger.SinkLogger.Threshold.{log_all-passing, passing, write_all, log_all, Message}
use loggerlib.Common.Text.Numbers.{to_string}
use loggerlib.Logger.LogRecord.Line.RoundTrip.{parse-format_record}
use loggerlib.Prelude.Int.{ℤ, scale, ◌-ℤ◌, ◌+ℤ◌, pos}
use loggerlib.Logger.LogRecord.Gregorian.{
  march_first, day_at, seconds_at, march_year, day_of_year, parts_at, gregorian-IsCalendar,
  gregorian_parts, gregorian,
}
use loggerlib.Logger.LogRecord.Time.{
  same_parts, to_time, parse_int, read_fields, matches_shape, millis_of, padded, stamp_text,
  floor_seconds, nanos_per_milli, format_stamp, parse_timestamp,
}
use loggerlib.Logger.LogRecord.Line.{finish, parse_rest, parse_record, format_record}
use loggerlib.Common.Text.Case.{lower}
use loggerlib.Common.Text.{read_digits, parse_signed, is_digit, equals_ignore_case}
use loggerlib.Logger.LogLevel.Names.{string_to_level_iff}
use loggerlib.Logger.LogLevel.{
  LogLevel, level_to_string, string_to_level, is_valid_level, find_level,
}
use loggerlib.Logger.LogRecord.Escape.{
  escape_message, unescape_message, escape_byte, short_escape, hex_digit, unescape_step, read_hex,
  hex_value,
}
use loggerlib.Logger.LogRecord.Unescape.{IsPrintable, unescape-escape, escape_message-IsPrintable}
use loggerlib.Prelude.{
  zero, suc, map, suc, false, Bytes, List, ℕ, find, ◌*◌, ◌/◌, ◌≡◌, refl, ◌↔◌, true, none, some, [],
  ◌∷◌, arith, codes, All,
}

levels :
    (string_to_level (codes "warn") ≡ some LogLevel.warn)
    × (string_to_level (codes "WARNING") ≡ none)
    × (level_to_string LogLevel.count ≡ codes "UNKNOWN")
unfolding string_to_level find_level equals_ignore_case level_to_string
levels = (refl, refl, refl)

string_to_level_iff_example : (string_to_level (codes "Fatal") ≡ some LogLevel.fatal) ↔ (
    (is_valid_level LogLevel.fatal ≡ true)
    × (lower (codes "Fatal") ≡ lower (level_to_string LogLevel.fatal)))
string_to_level_iff_example = string_to_level_iff (codes "Fatal") LogLevel.fatal

escapes :
    (escape_message (codes "a\tb\\") ≡ codes "a\\tb\\\\")
    × (escape_message (27 ∷ 127 ∷ []) ≡ codes "\\x1B\\x7F")
    × (unescape_message (codes "\\x4a\\q\\") ≡ codes "J\\q\\")
unfolding escape_message escape_byte short_escape hex_digit unescape_message unescape_step read_hex
    hex_value
escapes = (refl, refl, refl)

unescape-escape_example : unescape_message (escape_message (7 ∷ 92 ∷ 10 ∷ [])) ≡ 7 ∷ 92 ∷ 10 ∷ []
unescape-escape_example = unescape-escape (7 ∷ 92 ∷ 10 ∷ [])

escape_message-IsPrintable_example : All IsPrintable (escape_message (7 ∷ 92 ∷ 10 ∷ []))
escape_message-IsPrintable_example = escape_message-IsPrintable (7 ∷ 92 ∷ 10 ∷ [])

stamps :
    (format_record gregorian (pos 123_000_000) LogLevel.info (codes "hello")
      ≡ codes "1970-01-01 00:00:00.123Z [INFO] hello")
    × (format_record gregorian (pos 1_000_000_000_000_000_000) LogLevel.fatal (codes "boom")
        ≡ codes "2001-09-09 01:46:40.000Z [FATAL] boom")
    × (format_record gregorian (pos 0) LogLevel.count (codes "x")
        ≡ codes "1970-01-01 00:00:00.000Z [UNKNOWN] x")
unfolding format_record format_stamp gregorian_parts floor_seconds stamp_text padded ◌+ℤ◌ parts_at
    ◌-ℤ◌ day_of_year march_year to_string millis_of level_to_string escape_message escape_byte
    short_escape
stamps = (refl, refl, refl)

dates :
    (parse_timestamp gregorian (codes "2023-02-29 00:00:00.000Z") ≡ none)
    × (parse_timestamp gregorian (codes "1970-13-01 00:00:00.000Z") ≡ none)
    × (parse_timestamp gregorian (codes "1969-12-31 23:59:59.999Z") ≡ none)
    × (parse_timestamp gregorian (codes "1970-01-01 00:00:00.00aZ") ≡ none)
    × (parse_timestamp gregorian (codes "1970-01-01 23:59:60.000Z") ≡ none)
    × (parse_timestamp gregorian (codes "2001-09-09 01:46:40.123Z")
        ≡ some (pos 1_000_000_000_123_000_000))
unfolding parse_timestamp matches_shape is_digit read_digits read_fields parse_int parse_signed
    to_time same_parts seconds_at day_at march_first gregorian_parts parts_at day_of_year march_year
    ◌+ℤ◌ ◌-ℤ◌ scale
dates = (refl, refl, refl, refl, refl, refl)

broken_lines :
    (parse_record gregorian (codes "1970-01-01 00:00:00.000Z [INFO]text") ≡ none)
    × (parse_record gregorian (codes "1970-01-01 00:00:00.000Z [NOPE] text") ≡ none)
    × (parse_record gregorian (codes "1970-01-01 00:00:00.000Z INFO text") ≡ none)
unfolding parse_record parse_rest finish find string_to_level find_level equals_ignore_case
    parse_timestamp matches_shape is_digit read_digits read_fields parse_int parse_signed to_time
    same_parts seconds_at day_at march_first gregorian_parts parts_at day_of_year march_year ◌+ℤ◌
    ◌-ℤ◌ scale
broken_lines = (refl, refl, refl)

parse-format_record_example :
    parse_record gregorian
      (format_record gregorian (pos 951_782_400_123_456_789) LogLevel.warn (codes "a]\n"))
    ≡ some (record {
      time = pos (951_782_400_123_456_789 / nanos_per_milli * nanos_per_milli);
      level = LogLevel.warn;
      message = codes "a]\n";
    })
unfolding is_valid_level
parse-format_record_example =
    parse-format_record gregorian 951_782_400_123_456_789 LogLevel.warn (codes "a]\n")
      gregorian-IsCalendar (omega arith) refl

-- A sink that is a number: it writes while it is not zero, and counts down.
abbrev countdown : WriteLine ℕ (List Bytes)
countdown zero world line ec = record { ok = false; ec = generic 28; sink = zero; world = world }
countdown (suc n) world line ec = record { ok = true; ec = ec; sink = n; world = line ∷ world }

multi_write_line_lem_example :
    let o = multi_write_line countdown (1 ∷ 0 ∷ 2 ∷ []) [] (codes "x") clear in
    ((o.ok, o.ec)
      ≡ reported clear (first_failure countdown (offers countdown (1 ∷ 0 ∷ 2 ∷ []) [] (codes "x"))))
    × (o.sink ≡ map (λ one. one.sink) (offers countdown (1 ∷ 0 ∷ 2 ∷ []) [] (codes "x")))
    × (o.world ≡ last_world countdown [] (offers countdown (1 ∷ 0 ∷ 2 ∷ []) [] (codes "x")))
multi_write_line_lem_example = multi_write_line_lem countdown (1 ∷ 0 ∷ 2 ∷ []) [] (codes "x") clear

abbrev at_epoch : List Bytes → ℤ
at_epoch world = pos 0

abbrev two_messages : List Message
two_messages = (LogLevel.debug, codes "low") ∷ (LogLevel.error, codes "high") ∷ []

abbrev warn_logger : SinkLogger ℕ
warn_logger = record { sink = 3; level = LogLevel.warn }

log_all-passing_example :
    log_all countdown gregorian at_epoch warn_logger [] two_messages
    ≡ write_all countdown gregorian at_epoch warn_logger.sink []
        (passing warn_logger.level two_messages)
log_all-passing_example = log_all-passing countdown gregorian at_epoch warn_logger [] two_messages
