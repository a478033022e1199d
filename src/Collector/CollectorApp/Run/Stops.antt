-- ===== src/Collector/CollectorApp/Run/Stops.antt =====
-- The loop of collector/core/CollectorApp.cpp comes to an end once it is asked to.
use loggerlib.Collector.CollectorApp.Run.Ends.{Round-cases}
use loggerlib.Collector.CollectorApp.{count_dropped, CollectorApp}
use loggerlib.Common.Errors.{ErrorCode}
use loggerlib.Prelude.Int.{ℤ}
use loggerlib.Logger.LogRecord.Time.{Calendar}
use loggerlib.Collector.CollectorApp.Run.{
  run, success, goes_on, ExitCode, fail_round, CollectorApp, Loop, wait_left, round, consume_lines,
  consume_line, run_loop, next_deadline, report, report_due, ErrorCode, ℤ, Calendar, Surroundings,
}
use loggerlib.Collector.Options.{Run}
use loggerlib.Prelude.{
  ℕ, zero, suc, ◌≤◌, ◌<◌, ◌≡◌, inl, inr, false, some, List, [], ◌∷◌, arith, Bytes, codes,
  Bool-cases,
}

module _ {S Double : Type 0} (around : Surroundings S Double) (calendar : Calendar)
    (measure : S → ℕ) (now-le : (s : S) → measure (around.now s).1 ≤ measure s)
    (receive-le : (wait : ℤ) (ec : ErrorCode) (s : S)
      → measure (around.receive wait ec s).1 ≤ measure s)
    (stopping-lt : (s : S)
      → (around.stopping s).0 ≡ false
      → measure (around.stopping s).1 < measure s) where
  consume_line-le :
      (line : Bytes) (app : CollectorApp) (s : S)
      → measure (consume_line around calendar line (app, s)).1 ≤ measure s
  unfolding consume_line
  consume_line-le line app s = ground (arith, now-le s)

  consume_lines-le :
      (lines : List Bytes) (state : CollectorApp × S)
      → measure (consume_lines around calendar lines state).1 ≤ measure state.1
  unfolding consume_lines
  consume_lines-le [] state = omega arith
  consume_lines-le (line ∷ lines) (app, s) = omega (
    arith,
    consume_line-le line app s,
    consume_lines-le lines (consume_line around calendar line (app, s)),
  )

  report-le :
      (reason : Bytes) (app : CollectorApp) (s : S)
      → measure (report around reason app s).1 ≤ measure s
  unfolding report
  report-le reason app s = now-le s

  next_deadline-le : (timeout : ℤ) (s : S) → measure (next_deadline around timeout s).1 ≤ measure s
  unfolding next_deadline
  next_deadline-le timeout s = now-le s

  report_due-le :
      (settings : Run) (l : Loop S) → measure (report_due around settings l).world ≤ measure l.world
  unfolding report_due
  report_due-le settings l = grind (arith, report-le, next_deadline-le, now-le)

  wait_left-le :
      (settings : Run) (deadline : ℤ) (s : S)
      → measure (wait_left around settings deadline s).1 ≤ measure s
  unfolding wait_left
  wait_left-le settings deadline s = now-le s

  round-le :
      (settings : Run) (l l' : Loop S)
      → round around calendar settings l ≡ goes_on l'
      → measure l'.world ≤ measure l.world
  unfolding round fail_round
  round-le settings l l' h =
      let s1 = (wait_left around settings l.deadline l.world).1 in
      let wait = (wait_left around settings l.deadline l.world).0 in
      let input = (around.receive wait l.ec s1).0 in
      let s2 = (around.receive wait l.ec s1).1 in
      let state = consume_lines around calendar input.lines (l.app, s2) in
      let next : Loop S = record {
        app = count_dropped (around.dropped state.1) state.0;
        deadline = l.deadline;
        ec = input.ec;
        world = state.1;
      } in
      let first = wait_left-le settings l.deadline l.world in
      let second = receive-le wait l.ec s1 in
      let third = consume_lines-le input.lines (l.app, s2) in
      let last = report_due-le settings next in
      elim (Bool-cases input.ok) [
        | inr bad ↦ absurd (ground arith)
        | inl good ↦
            let same : l' ≡ report_due around settings next = ground arith in rw same (omega arith)
      ]

  run_loop_returns :
      (fuel : ℕ) (settings : Run) (l : Loop S)
      → measure l.world < fuel
      → (code : ExitCode) × (app : CollectorApp) × (s : S) × (run_loop around calendar fuel settings
            l
          ≡ some (code, app, s))
  unfolding run_loop
  run_loop_returns zero settings l h = absurd (omega arith)
  run_loop_returns (suc fuel) settings l h =
      let (stop, s1) = around.stopping l.world in
      elim (Bool-cases stop) [
        | inl asked ↦ (
          success,
          (report around (codes "final") l.app s1).0,
          (report around (codes "final") l.app s1).1,
          ground arith,
        )
        | inr on ↦
            let nearer = stopping-lt l.world on in
            elim (Round-cases (round around calendar settings (record l { world = s1 }))) [
              | inl (l', e) ↦
                  let less = round-le settings (record l { world = s1 }) l' e in
                  let (code, app, s, r) = run_loop_returns fuel settings l' (omega arith) in
                  (code, app, s, ground arith)
              | inr (code, app, s, e) ↦ (code, app, s, ground arith)
            ]
      ]

  -- If each reading of the flag that does not find it set brings the time nearer at which it is, which
  -- nothing else puts off, then the run returns, within as many rounds as the flag can be read.
  pub run_returns :
      (fuel : ℕ) (settings : Run) (s : S)
      → measure s < fuel
      → (code : ExitCode) × (app : CollectorApp) × (s' : S) × (run around calendar fuel settings s
          ≡ some (code, app, s'))
  unfolding run
  run_returns fuel settings s h =
      let next = next_deadline-le settings.timeout s in
      run_loop_returns fuel settings _ (omega arith)
