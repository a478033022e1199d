-- ===== src/Logger/SinkLogger.antt =====
-- logger/src/SinkLogger.cpp and logger/include/logger/ILogger.hpp: the threshold, the time stamp and
-- the line. The clock is a parameter, and so is the sink.
pub mod Threshold
use loggerlib.Logger.LogRecord.Line.{format_record}
use loggerlib.Common.Errors.{clear, invalid_argument}
use loggerlib.Prelude.Int.{ℤ}
use loggerlib.Logger.LogRecord.Time.{Calendar}
use loggerlib.Logger.Sink.{Outcome, WriteLine}
use loggerlib.Logger.LogLevel.{is_valid_level, index, LogLevel}
use loggerlib.Prelude.{
  ℕ, zero, suc, ◌+◌, ◌-◌, ◌*◌, ◌/◌, ◌%◌, ◌^◌, ◌≤◌, ◌<◌, min, max, ◌≡◌, refl, sym, ap, ◌∙◌, ◌≢◌, ◌↔◌,
  ◌⊎◌, inl, inr, Bool, true, false, not, ◌&&◌, ◌||◌, Option, none, some, List, [], ◌∷◌, ◌++◌, map,
  append_assoc, append-nil, arith, Bytes, codes, Lacks, All, All-append, length, get_elem?, take,
  drop, replicate, length-replicate, modify, flatten, length-append, take-length, take_at, drop_at,
  drop-length, drop_past, take_all, equal, equal_iff, find, rfind, find_pair, substr, Cut, absent,
  at, find-Cut, ltb, leb, ◌==◌, if◌then◌else◌, ltb→lt, leb→le, ltb→le, lt→ltb, le→ltb, ==_iff,
  ==_refl, ==_ne, Bool-cases, Option-cases, every_below, every_below_at,
}

pub record SinkLogger (S : Type 0) : Type 0 where
  pub sink : S
  pub level : LogLevel

-- `ILogger::isEnabled`
unfoldable pub is_enabled : LogLevel → LogLevel → Bool
is_enabled threshold level = leb (index threshold) (index level)

module _ {S : Type 0} {W : Type 0} (write_line : WriteLine S W) (calendar : Calendar)
    (now : W → ℤ) where
  unfoldable pub log : SinkLogger S → W → LogLevel → Bytes → Outcome (SinkLogger S) W
  log logger world level message =
      if not (is_valid_level level)
      then record { ok = false; ec = invalid_argument; sink = logger; world = world }
      else if not (is_enabled logger.level level)
      then record { ok = true; ec = clear; sink = logger; world = world }
      else let line = format_record calendar (now world) level message in
        let o = write_line logger.sink world line clear in
        record {
          ok = o.ok;
          ec = o.ec;
          sink = record { sink = o.sink; level = logger.level };
          world = o.world;
        }

abbrev pub set_level : {S : Type 0} → LogLevel → SinkLogger S → SinkLogger S
set_level level logger = record { sink = logger.sink; level = level }
