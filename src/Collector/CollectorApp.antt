-- ===== src/Collector/CollectorApp.antt =====
-- collector/core/CollectorApp.cpp: what the collector does with the lines it receives. The clock's
-- reading is an argument, and what is written to the two streams is kept as text.
pub mod Delivery
pub mod Run
use loggerlib.Prelude.Int.{ℤ}
use loggerlib.Logger.LogRecord.Time.{Calendar}
use loggerlib.Collector.Statistics.{add, word, Statistics, add_malformed}
use loggerlib.Logger.LogRecord.Line.{parse_record, LogRecord}
use loggerlib.Logger.LogRecord.Escape.{escape_message}
use loggerlib.Prelude.{
  ℕ, zero, suc, ◌+◌, ◌-◌, ◌*◌, ◌/◌, ◌%◌, ◌^◌, ◌≤◌, ◌<◌, min, max, ◌≡◌, refl, sym, ap, ◌∙◌, ◌≢◌, ◌↔◌,
  ◌⊎◌, inl, inr, Bool, true, false, not, ◌&&◌, ◌||◌, Option, none, some, List, [], ◌∷◌, ◌++◌, map,
  append_assoc, append-nil, arith, Bytes, codes, Lacks, All, All-append, length, get_elem?, take,
  drop, replicate, length-replicate, modify, flatten, length-append, take-length, take_at, drop_at,
  drop-length, drop_past, take_all, equal, equal_iff, find, rfind, find_pair, substr, Cut, absent,
  at, find-Cut, ltb, leb, ◌==◌, if◌then◌else◌, ltb→lt, leb→le, ltb→le, lt→ltb, le→ltb, ==_iff,
  ==_refl, ==_ne, Bool-cases, Option-cases, every_below, every_below_at,
}

pub record CollectorApp : Type 0 where
  pub statistics : Statistics
  pub since_report : ℕ
  pub dropped : ℕ
  pub out : Bytes
  pub err : Bytes

-- `kPreview`
abbrev pub preview_size : ℕ
preview_size = 80

unfoldable pub preview : Bytes → Bytes
preview line =
    let cut = escape_message (substr 0 preview_size line) in
    if ltb preview_size (length line) then cut ++ codes "..." else cut

-- A line that is not empty and not a record.
abbrev pub reject : Bytes → CollectorApp → CollectorApp
reject line app = record {
  statistics = add_malformed app.statistics;
  since_report = word (app.since_report + 1);
  dropped = app.dropped;
  out = app.out;
  err = app.err ++ (codes "not a record: " ++ (preview line ++ b'\n' ∷ []));
}

-- A line that is read as a record.
abbrev pub accept : Bytes → LogRecord → ℤ → CollectorApp → CollectorApp
accept line entry now app = record {
  statistics = add app.statistics entry.level (length entry.message) now;
  since_report = word (app.since_report + 1);
  dropped = app.dropped;
  out = app.out ++ (line ++ b'\n' ∷ []);
  err = app.err;
}

-- The loop of `countDropped`; it runs once for each count by which the receiver is ahead.
unfoldable pub count_ahead : ℕ → CollectorApp → CollectorApp
count_ahead zero app = app
count_ahead (suc n) app = count_ahead n (record {
  statistics = add_malformed app.statistics;
  since_report = word (app.since_report + 1);
  dropped = app.dropped + 1;
  out = app.out;
  err = app.err;
})

unfoldable pub count_dropped : ℕ → CollectorApp → CollectorApp
count_dropped dropped app = count_ahead (dropped - app.dropped) app

module _ (calendar : Calendar) where
  abbrev pub consume_read : Bytes → Option LogRecord → ℤ → CollectorApp → CollectorApp
  consume_read line none now app = reject line app
  consume_read line (some entry) now app = accept line entry now app

  unfoldable pub consume : Bytes → ℤ → CollectorApp → CollectorApp
  consume [] now app = app
  consume (c ∷ line) now app = consume_read (c ∷ line) (parse_record calendar (c ∷ line)) now app

  -- The loop over the lines of one call of `receive`, each with the time at which it is counted.
  unfoldable pub consume_all : List (Bytes × ℤ) → CollectorApp → CollectorApp
  consume_all [] app = app
  consume_all ((line, now) ∷ lines) app = consume_all lines (consume line now app)
