-- ===== src/Collector/Tests.antt =====
-- Runs of collector/ and its theorems at concrete inputs.
use loggerlib.Collector.LineReader.Framing.{feed_all-joined}
use loggerlib.Logger.LogRecord.Gregorian.{gregorian-IsCalendar, gregorian}
use loggerlib.Collector.UdpReceiver.Datagram.{split_datagram-joined, unended}
use loggerlib.Logger.LogRecord.Line.{format_record}
use loggerlib.Collector.CollectorApp.Delivery.{
  consume-format_record, consume_all-printed, count_dropped_lem, printed, filled,
}
use loggerlib.Collector.UdpReceiver.{split_datagram}
use loggerlib.Collector.CollectorApp.{consume, consume_all, count_dropped, CollectorApp}
use loggerlib.Collector.Statistics.{add, word, new_statistics, snapshot, nanos_per_minute}
use loggerlib.Logger.LogLevel.{LogLevel, index, is_valid_level}
use loggerlib.Common.Arguments.Invariant.{Ends}
use loggerlib.Collector.Options.{to_millis, parse_options}
use loggerlib.Collector.Options.Sound.{to_millis_iff, parse_options_sound, IsRun}
use loggerlib.Collector.LineReader.Bytewise.{take_bytes, feed-take_bytes}
use loggerlib.Collector.LineReader.Stream.{feed_all, within, lines_from, feed_all-lines}
use loggerlib.Collector.LineReader.{LineReader, new_reader, feed}
use loggerlib.Collector.Statistics.LastHour.{count_recent, last_hour_exact}
use loggerlib.Collector.Statistics.Totals.{Event, add_all, add_all-exact, count_level}
use loggerlib.Prelude.Int.{ℤ, negsuc, pos}
use loggerlib.Prelude.{
  joined, length, ◌^◌, ◌<◌, ◌++◌, ◌-◌, max, ◌+◌, ◌≤◌, ◌↔◌, flatten, ℕ, ◌*◌, ◌/◌, ◌≡◌, refl, true,
  some, List, [], ◌∷◌, arith, Bytes, codes, get_elem?,
}

abbrev chunks : List Bytes
chunks = codes "ab" ∷ codes "c\nlonger\n" ∷ codes "de\nf" ∷ []

feed-take_bytes_example :
    feed (new_reader 4) (codes "ab\ncdefg\nh") []
    ≡ some (
        take_bytes
          (record { reader = new_reader 4; lines = []; complete = true })
          (codes "ab\ncdefg\nh"))
feed-take_bytes_example =
    feed-take_bytes (new_reader 4) (codes "ab\ncdefg\nh") []
      (record { fits = omega arith; empty = λ h. refl })

feed_all-lines_example :
    (r : LineReader) × (feed_all (new_reader 4) chunks []
      ≡ some (r, within 4 (lines_from [] (flatten chunks))))
feed_all-lines_example = feed_all-lines 4 chunks

two_lines : within 4 (lines_from [] (flatten chunks)) ≡ codes "abc" ∷ codes "de" ∷ []
two_lines = refl

abbrev first : Event
first = record { level = LogLevel.warn; len = 7; now = pos 0 }

abbrev later : Event
later = record { level = LogLevel.info; len = 3; now = pos (61 * nanos_per_minute) }

add_all-exact_example :
    let t = add_all new_statistics (first ∷ later ∷ []) in
    (t.total ≡ 2)
    × (t.malformed ≡ 0)
    × (t.total_length ≡ 10)
    × (t.min_length ≡ 3)
    × (t.max_length ≡ 7)
    × ((level : LogLevel)
        → is_valid_level level ≡ true
        → get_elem? t.by_level (index level)
          ≡ some (count_level (index level) (first ∷ later ∷ [])))
add_all-exact_example = add_all-exact first (later ∷ []) (omega arith) (omega arith)

last_hour_exact_example :
    (snapshot {Double = ℕ} 0
      (λ a b. a / b)
      (add_all new_statistics (first ∷ later ∷ []))
      (pos (61 * nanos_per_minute))).last_hour
    ≡ count_recent 61 (first ∷ later ∷ [])
last_hour_exact_example =
    last_hour_exact 0 (λ a b. a / b) (first ∷ later ∷ []) (61 * nanos_per_minute)
      (0, refl, omega arith, (61 * nanos_per_minute, refl, omega arith, omega arith)) (omega arith)
      (omega arith)

parse_options_sound_example : Ends IsRun (parse_options (codes "[::1]:55" ∷ codes "10" ∷ []))
parse_options_sound_example = parse_options_sound (codes "[::1]:55" ∷ codes "10" ∷ [])

to_millis_iff_example :
    (to_millis 9223372036854776 ≡ pos (9223372036854776 * 1000))
    ↔ (9223372036854776 ≤ 9223372036854775)
to_millis_iff_example = to_millis_iff 9223372036854776 (omega arith)

-- The shortest timeout that goes wrong counts as a negative one.
long_timeout : to_millis 9223372036854776 ≡ negsuc 9223372036854775615
unfolding to_millis
long_timeout = refl

abbrev new_app : CollectorApp
new_app = record { statistics = new_statistics; since_report = 0; dropped = 2; out = []; err = [] }

count_dropped_lem_example : count_dropped 5 new_app ≡ record new_app {
  statistics = record new_app.statistics { malformed = 0 + (5 - 2) };
  since_report = 0 + (5 - 2);
  dropped = max 5 2;
}
count_dropped_lem_example = count_dropped_lem 5 new_app (omega arith) (omega arith)

abbrev mixed_lines : List (Bytes × ℤ)
mixed_lines =
    (codes "1970-01-01 00:00:00.000Z [INFO] up", pos 5) ∷ ([], pos 6) ∷ (codes "noise", pos 7) ∷ []

few_lines : new_app.since_report + filled gregorian mixed_lines < 2 ^ 64
unfolding filled
few_lines = omega arith

consume_all-printed_example :
    ((consume_all gregorian mixed_lines new_app).out ≡ new_app.out ++ printed gregorian mixed_lines)
    × ((consume_all gregorian mixed_lines new_app).since_report
        ≡ new_app.since_report + filled gregorian mixed_lines)
consume_all-printed_example = consume_all-printed gregorian mixed_lines new_app few_lines

consume-format_record_example :
    let line = format_record gregorian (pos 951_782_400_123_456_789) LogLevel.warn (codes "a\nb") in
    consume gregorian line (pos 9) new_app ≡ record {
      statistics = add new_app.statistics LogLevel.warn (length (codes "a\nb")) (pos 9);
      since_report = word (new_app.since_report + 1);
      dropped = new_app.dropped;
      out = new_app.out ++ (line ++ (b'\n' ∷ []));
      err = new_app.err;
    }
unfolding is_valid_level
consume-format_record_example =
    consume-format_record gregorian 951_782_400_123_456_789 LogLevel.warn (codes "a\nb") (pos 9)
      new_app gregorian-IsCalendar (omega arith) refl

split_datagram-joined_example :
    split_datagram (joined (codes "a" ∷ [] ∷ []) ++ codes "b") (codes "z" ∷ [])
    ≡ some ((codes "z" ∷ []) ++ ((codes "a" ∷ [] ∷ []) ++ unended (codes "b")))
split_datagram-joined_example =
    split_datagram-joined (codes "a" ∷ [] ∷ []) (codes "b") (codes "z" ∷ [])
      (((λ e. absurd (omega arith)), tt), (tt, tt)) ((λ e. absurd (omega arith)), tt)

feed_all-joined_example :
    (r : LineReader) × (feed_all (new_reader 3) (codes "a" ∷ codes "b\n\nc" ∷ codes "\n" ∷ []) []
      ≡ some (r, codes "ab" ∷ [] ∷ codes "c" ∷ []))
unfolding joined
feed_all-joined_example =
    feed_all-joined 3 (codes "a" ∷ codes "b\n\nc" ∷ codes "\n" ∷ [])
      (codes "ab" ∷ [] ∷ codes "c" ∷ [])
      (
        ((λ e. absurd (omega arith)), ((λ e. absurd (omega arith)), tt)),
        (tt, (((λ e. absurd (omega arith)), tt), tt)),
      )
      (omega arith, (omega arith, (omega arith, tt))) refl
