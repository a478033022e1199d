-- ===== src/Collector/CollectorApp/Delivery.antt =====
-- What collector/core/CollectorApp.cpp prints and counts of the lines that a logger wrote.
use loggerlib.Logger.LogRecord.Line.RoundTrip.{parse-format_record}
use loggerlib.Collector.Statistics.{add_malformed, word, add}
use loggerlib.Logger.LogRecord.Time.RoundTrip.{IsCalendar}
use loggerlib.Logger.LogLevel.{is_valid_level, LogLevel}
use loggerlib.Prelude.Int.{pos, ℤ}
use loggerlib.Logger.LogRecord.Line.{LogRecord, format_record, parse_record}
use loggerlib.Logger.LogRecord.Time.{nanos_per_milli, Calendar}
use loggerlib.Collector.CollectorApp.{
  accept, add_malformed, count_dropped, LogRecord, reject, word, add, consume, CollectorApp,
  parse_record, ℤ, consume_all, count_ahead,
}
use loggerlib.Prelude.{
  ℕ, zero, suc, ◌+◌, ◌-◌, ◌*◌, ◌/◌, ◌^◌, ◌<◌, max, ◌≡◌, refl, sym, ap, ◌∙◌, inl, inr, true, none,
  some, List, [], ◌∷◌, ◌++◌, append_assoc, append-nil, arith, Bytes, length, Option-cases,
}

count_ahead_lem :
    (n : ℕ) (app : CollectorApp)
    → app.since_report + n < 2 ^ 64
    → app.statistics.malformed + n < 2 ^ 64
    → count_ahead n app ≡ record app {
      statistics = record app.statistics { malformed = app.statistics.malformed + n };
      since_report = app.since_report + n;
      dropped = app.dropped + n;
    }
unfolding count_ahead add_malformed
count_ahead_lem zero app h k = ground arith
count_ahead_lem (suc n) app h k =
    let next : CollectorApp = record {
      statistics = add_malformed app.statistics;
      since_report = word (app.since_report + 1);
      dropped = app.dropped + 1;
      out = app.out;
      err = app.err;
    } in
    ground (arith, count_ahead_lem n next (omega arith) (omega arith))

-- With the counters below their limit, `countDropped` counts each drop of the receiver that was not
-- counted before, once as a malformed line and once towards the next report, and changes nothing else;
-- a receiver that is behind changes nothing.
pub count_dropped_lem :
    (dropped : ℕ) (app : CollectorApp)
    → app.since_report + (dropped - app.dropped) < 2 ^ 64
    → app.statistics.malformed + (dropped - app.dropped) < 2 ^ 64
    → count_dropped dropped app ≡ record app {
      statistics = record app.statistics {
        malformed = app.statistics.malformed + (dropped - app.dropped);
      };
      since_report = app.since_report + (dropped - app.dropped);
      dropped = max dropped app.dropped;
    }
unfolding count_dropped
count_dropped_lem dropped app h k = ground (arith, count_ahead_lem (dropped - app.dropped) app h k)

module _ (calendar : Calendar) where
  -- The text of the lines that are records, each with its newline.
  unfoldable pub printed : List (Bytes × ℤ) → Bytes
  printed [] = []
  printed ((line, now) ∷ lines) = elim (parse_record calendar line) [
    | none ↦ printed lines
    | some entry ↦ line ++ (b'\n' ∷ printed lines)
  ]

  -- The number of the lines that are not empty.
  unfoldable pub filled : List (Bytes × ℤ) → ℕ
  filled [] = 0
  filled (([], now) ∷ lines) = filled lines
  filled ((c ∷ line, now) ∷ lines) = 1 + filled lines

  no_record : parse_record calendar [] ≡ none
  unfolding parse_record
  no_record = refl

  consume_empty : (now : ℤ) (app : CollectorApp) → consume calendar [] now app ≡ app
  unfolding consume
  consume_empty now app = refl

  consume-reject :
      (c : ℕ) (line : Bytes) (now : ℤ) (app : CollectorApp)
      → parse_record calendar (c ∷ line) ≡ none
      → consume calendar (c ∷ line) now app ≡ reject (c ∷ line) app
  unfolding consume
  consume-reject c line now app h = rw (consume, h) refl

  consume-accept :
      (line : Bytes) (entry : LogRecord) (now : ℤ) (app : CollectorApp)
      → parse_record calendar line ≡ some entry
      → consume calendar line now app ≡ accept line entry now app
  unfolding consume
  consume-accept [] entry now app h = absurd (ground (arith, no_record))
  consume-accept (c ∷ line) entry now app h = rw (consume, h) refl

  -- The lines that are records are printed as they came, in order, and nothing else is; and every
  -- line that is not empty counts towards the next report, as long as the counter does not wrap.
  pub consume_all-printed :
      (lines : List (Bytes × ℤ)) (app : CollectorApp)
      → app.since_report + filled lines < 2 ^ 64
      → ((consume_all calendar lines app).out ≡ app.out ++ printed lines)
        × ((consume_all calendar lines app).since_report ≡ app.since_report + filled lines)
  unfolding consume_all printed filled
  consume_all-printed [] app h = (sym (append-nil app.out), omega arith)
  consume_all-printed (([], now) ∷ lines) app h =
      rw (printed, no_record, consume_all, consume_empty now app) (consume_all-printed lines app h)
  consume_all-printed ((c ∷ line, now) ∷ lines) app h =
      elim (Option-cases (parse_record calendar (c ∷ line))) [
        | inl nothing ↦
            let (out, since) = consume_all-printed lines (reject (c ∷ line) app) (omega arith) in
            rw (printed, nothing, consume_all, consume-reject c line now app nothing)
              (out, omega (arith, since))
        | inr (entry, e) ↦
            let (out, since) =
              consume_all-printed lines (accept (c ∷ line) entry now app) (omega arith) in
            rw (printed, e, consume_all, consume-accept (c ∷ line) entry now app e)
              (
                out
                    ∙ append_assoc app.out ((c ∷ line) ++ (b'\n' ∷ [])) (printed lines)
                    ∙ ap (λ s. app.out ++ s) (append_assoc (c ∷ line) (b'\n' ∷ []) (printed lines)),
                omega (arith, since),
              )
      ]

  -- A line that a logger wrote, of a valid level and a time from the epoch on, is printed and counted
  -- with its level and the length of its message.
  pub consume-format_record :
      (t : ℕ) (level : LogLevel) (message : Bytes) (now : ℤ) (app : CollectorApp)
      → IsCalendar calendar
      → t < 2 ^ 63
      → is_valid_level level ≡ true
      → let line = format_record calendar (pos t) level message in
        consume calendar line now app ≡ record {
          statistics = add app.statistics level (length message) now;
          since_report = word (app.since_report + 1);
          dropped = app.dropped;
          out = app.out ++ (line ++ (b'\n' ∷ []));
          err = app.err;
        }
  consume-format_record t level message now app c fits valid =
      consume-accept (format_record calendar (pos t) level message)
        (record {
          time = pos (t / nanos_per_milli * nanos_per_milli);
          level = level;
          message = message;
        })
        now app (parse-format_record calendar t level message c fits valid)
