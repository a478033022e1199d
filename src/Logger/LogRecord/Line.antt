-- ===== src/Logger/LogRecord/Line.antt =====
-- A whole line of the log, logger/src/LogRecord.cpp: `formatRecord` and `parseRecord`.
pub mod RoundTrip
use mathlib.Core.Option
use loggerlib.Logger.LogLevel.{LogLevel, level_to_string, string_to_level}
use loggerlib.Logger.LogRecord.Escape.{escape_message, unescape_message}
use loggerlib.Logger.LogRecord.Time.{Calendar, stamp_size, format_stamp, parse_timestamp}
use loggerlib.Prelude.Int.{ℤ}
use loggerlib.Prelude.Options.{◌>>=◌}
use loggerlib.Prelude.{
  ℕ, zero, suc, ◌+◌, ◌-◌, ◌*◌, ◌/◌, ◌%◌, ◌^◌, ◌≤◌, ◌<◌, min, max, ◌≡◌, refl, sym, ap, ◌∙◌, ◌≢◌, ◌↔◌,
  ◌⊎◌, inl, inr, Bool, true, false, not, ◌&&◌, ◌||◌, Option, none, some, List, [], ◌∷◌, ◌++◌, map,
  append_assoc, append-nil, arith, Bytes, codes, Lacks, All, All-append, length, get_elem?, take,
  drop, replicate, length-append, take-length, drop-length, drop_past, take_all, equal, equal_iff,
  find, rfind, find_pair, substr, Cut, absent, at, find-Cut, ltb, leb, ◌==◌, if◌then◌else◌, ltb→lt,
  leb→le, ltb→le, lt→ltb, le→ltb, ==_iff, ==_refl, ==_ne, Bool-cases, Option-cases, every_below,
  every_below_at,
}

pub record LogRecord : Type 0 where
  pub time : ℤ
  pub level : LogLevel
  pub message : Bytes

-- `text.find(c, pos)`
abbrev pub find_from : ℕ → ℕ → Bytes → Option ℕ
find_from c position text = elim (find c (drop position text)) [
  | none ↦ none
  | some i ↦ some (position + i)
]

-- `text[i] == c`, false where the text is too short
abbrev pub byte_is : Bytes → ℕ → ℕ → Bool
byte_is text i c = elim (get_elem? text i) [ none ↦ false | some x ↦ x == c ]

module _ (calendar : Calendar) where
  unfoldable pub format_record : ℤ → LogLevel → Bytes → Bytes
  format_record time level message =
      format_stamp calendar time
      ++ (codes " [" ++ (level_to_string level ++ (codes "] " ++ escape_message message)))

  -- The level and the message, once the closing bracket is found.
  unfoldable pub finish : ℤ → Bytes → ℕ → Option LogRecord
  finish time rest close =
      if leb (length rest) (close + 1) || not (byte_is rest (close + 1) b' ') then none else do
        level ← string_to_level (substr 2 (close - 2) rest)
        some (record {
          time = time;
          level = level;
          message = unescape_message (drop (close + 2) rest);
        })

  -- What stands behind the stamp, once the time is known.
  unfoldable pub parse_rest : ℤ → Bytes → Option LogRecord
  parse_rest time rest =
      if ltb (length rest) 3 || (not (byte_is rest 0 b' ') || not (byte_is rest 1 b'['))
      then none
      else do close ← find_from b']' 2 rest; finish time rest close

  unfoldable pub parse_record : Bytes → Option LogRecord
  parse_record line = if ltb (length line) stamp_size then none else do
    time ← parse_timestamp calendar (substr 0 stamp_size line)
    parse_rest time (drop stamp_size line)
