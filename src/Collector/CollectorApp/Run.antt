-- ===== src/Collector/CollectorApp/Run.antt =====
-- The loop of collector/core/CollectorApp.cpp. The receiver, the clock and the flag that asks to stop
-- are parameters, each call of which may change the world `S`. Times do not overflow here, which is
-- so in the code for timeouts of less than 290 years.
pub mod Waits
pub mod Ends
pub mod Stops
mod Tests
use loggerlib.Prelude.Int.{◌+ℤ◌, ◌-ℤ◌, scale, negsuc, ltb_ℤ, leb_ℤ, ℤ, pos}
use loggerlib.Common.Errors.{clear, ErrorCode}
use loggerlib.Common.Text.Numbers.{to_string}
use loggerlib.Collector.Options.{Run}
use loggerlib.Collector.Statistics.{new_statistics, snapshot}
use loggerlib.Collector.Statistics.Report.{format_report}
use loggerlib.Collector.CollectorApp.{ℤ, CollectorApp, consume, count_dropped}
use loggerlib.Logger.LogRecord.Line.{parse_record}
use loggerlib.Logger.LogRecord.Time.{Calendar}
use loggerlib.Prelude.{
  ℕ, zero, suc, ◌+◌, ◌/◌, Bool, true, false, not, Option, none, some, List, [], ◌∷◌, ◌++◌, Bytes,
  codes, ltb, leb, if◌then◌else◌,
}

pub data ExitCode : Type 0 where
  success : ExitCode
  usage : ExitCode
  listen_failed : ExitCode
  receive_failed : ExitCode
  internal_error : ExitCode

-- What `receive` gives when it is called with no lines: its result, `ec` and the lines.
pub record Input : Type 0 where
  pub ok : Bool
  pub ec : ErrorCode
  pub lines : List Bytes

-- The surroundings of the loop. A wait is in milliseconds, the clock in nanoseconds. The texts of
-- error codes and the arithmetic of the report are no calls that change anything.
pub record Surroundings (S Double : Type 0) : Type 0 where
  pub receive : ℤ → ErrorCode → S → Input × S
  pub dropped : S → ℕ
  pub now : S → ℤ × S
  pub stopping : S → Bool × S
  pub message_of_code : ErrorCode → Bytes
  pub zero_double : Double
  pub divide : ℕ → ℕ → Double
  pub fixed : Double → Bytes

abbrev pub new_app : CollectorApp
new_app = record { statistics = new_statistics; since_report = 0; dropped = 0; out = []; err = [] }

-- The quotient rounded up; `steady_clock` counts nanoseconds.
unfoldable pub ceil_millis : ℤ → ℤ
ceil_millis (pos n) = pos ((n + 999_999) / 1_000_000)
ceil_millis (negsuc n) = pos 0 -ℤ pos (suc n / 1_000_000)

-- `std::clamp(left, zero, timeout)`
unfoldable pub clamp_wait : ℤ → ℤ → ℤ
clamp_wait left timeout =
    if ltb_ℤ left (pos 0) then pos 0 else if ltb_ℤ timeout left then timeout else left

-- The timeout in the unit of the clock.
abbrev pub to_nanos : ℤ → ℤ
to_nanos timeout = scale 1_000_000 timeout

-- The locals of `run` with the object and the world. `ec` is kept from round to round.
pub record Loop (S : Type 0) : Type 0 where
  pub app : CollectorApp
  pub deadline : ℤ
  pub ec : ErrorCode
  pub world : S

-- What a round of the loop ends with.
pub data Round (S : Type 0) : Type 0 where
  goes_on : Loop S → Round S
  returns : ExitCode → CollectorApp → S → Round S

module _ {S Double : Type 0} (around : Surroundings S Double) where
  unfoldable pub report : Bytes → CollectorApp → S → CollectorApp × S
  report reason app s =
      let (now, s') = around.now s in
      (
        record app {
          out =
              app.out
              ++ format_report around.fixed
                  (snapshot around.zero_double around.divide app.statistics now) reason;
          since_report = 0;
        },
        s',
      )

  -- `TClock::now() + m_settings.timeout`
  unfoldable pub next_deadline : ℤ → S → ℤ × S
  next_deadline timeout s = let (now, s') = around.now s in (now +ℤ to_nanos timeout, s')

  -- The report, if one is due, and the deadline.
  unfoldable pub report_due : Run → Loop S → Loop S
  report_due settings l =
      if leb settings.every l.app.since_report
      then (let (app, s) =
            report (codes "after " ++ (to_string l.app.since_report ++ codes " messages")) l.app
              l.world in
          let (deadline, s') = next_deadline settings.timeout s in
          record l { app = app; deadline = deadline; world = s' })
      else (let (now, s) = around.now l.world in
          if not (leb_ℤ l.deadline now)
          then record l { world = s }
          else (let (app, s') =
                if ltb 0 l.app.since_report
                then report (codes "on timeout") l.app s
                else (l.app, s) in
              let (deadline, s'') = next_deadline settings.timeout s' in
              record l { app = app; deadline = deadline; world = s'' }))

  -- The time that is left until the deadline, as the wait that `receive` is given.
  unfoldable pub wait_left : Run → ℤ → S → ℤ × S
  wait_left settings deadline s =
      let (now, s') = around.now s in
      (clamp_wait (ceil_millis (deadline -ℤ now)) settings.timeout, s')

  -- The branch in which `receive` fails.
  unfoldable pub fail_round : ErrorCode → CollectorApp → S → Round S
  fail_round ec app s =
      let (app', s') =
        report (codes "stopped by a failure")
          (record app {
            err =
                app.err ++ (codes "cannot receive: " ++ (around.message_of_code ec ++ b'\n' ∷ []));
          })
          s in
      returns receive_failed app' s'

module _ {S Double : Type 0} (around : Surroundings S Double) (calendar : Calendar) where
  -- The clock is read for a line that is a record, and for no other.
  unfoldable pub consume_line : Bytes → CollectorApp × S → CollectorApp × S
  consume_line line (app, s) = elim (parse_record calendar line) [
    | none ↦ (consume calendar line (pos 0) app, s)
    | some entry ↦ let (now, s') = around.now s in (consume calendar line now app, s')
  ]

  unfoldable pub consume_lines : List Bytes → CollectorApp × S → CollectorApp × S
  consume_lines [] state = state
  consume_lines (line ∷ lines) state = consume_lines lines (consume_line line state)

  -- One round of the loop, after the flag was read as false.
  unfoldable pub round : Run → Loop S → Round S
  round settings l =
      let (wait, s1) = wait_left around settings l.deadline l.world in
      let (input, s2) = around.receive wait l.ec s1 in
      if not input.ok
      then fail_round around input.ec l.app s2
      else (let (app, s3) = consume_lines input.lines (l.app, s2) in
          goes_on (
            report_due around settings (record {
              app = count_dropped (around.dropped s3) app;
              deadline = l.deadline;
              ec = input.ec;
              world = s3;
            })))

  -- `while (!m_stopping.load())`; `none` means that the fuel ran out.
  unfoldable pub run_loop : ℕ → Run → Loop S → Option (ExitCode × CollectorApp × S)
  run_loop zero settings l = none
  run_loop (suc fuel) settings l =
      let (stop, s) = around.stopping l.world in
      elim stop [
        | true ↦ let (app, s') = report around (codes "final") l.app s in some (success, app, s')
        | false ↦ elim (round settings (record l { world = s })) [
          | returns code app s' ↦ some (code, app, s')
          | goes_on l' ↦ run_loop fuel settings l'
        ]
      ]

  unfoldable pub run : ℕ → Run → S → Option (ExitCode × CollectorApp × S)
  run fuel settings s =
      let (deadline, s') = next_deadline around settings.timeout s in
      run_loop fuel settings (record { app = new_app; deadline = deadline; ec = clear; world = s' })
