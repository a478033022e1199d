-- ===== src/App/ConsoleApp/Sequential.antt =====
-- What app/core/ConsoleApp.cpp makes of its input, however the two threads take turns.
use loggerlib.App.EventQueue.{push, pop}
use loggerlib.Common.Errors.{ErrorCode}
use loggerlib.Logger.LogLevel.{LogLevel}
use loggerlib.App.InputParser.{parse_user_input, UserInput}
use loggerlib.App.LogWorker.{new_worker, System, Worker, worker_step, run_worker, ILogger}
use loggerlib.App.ConsoleApp.{
  end_line, new_console, summary, exit_code, new_worker, finish, run, prompt, run_loop, round,
  report_failure, take_up, push, System, set_level_event, Console, write_event, run_worker,
  parse_user_input, work, Worker, push_event, Event, ErrorCode, ILogger, LogLevel, UserInput, Line,
}
use loggerlib.App.LogWorker.Runs.{stop_lem, begins, handle_all, Run, pushes, works}
use loggerlib.Prelude.{
  ap, append_assoc, inl, inr, Bool-cases, append-nil, ℕ, zero, suc, ◌≡◌, refl, ◌∙◌, Bool, true,
  false, List, [], ◌∷◌, ◌++◌, arith, Bytes,
}

-- The event that an input asks for.
abbrev event_of : UserInput → List Event
event_of (UserInput.message level text) = write_event level text ∷ []
event_of (UserInput.level_command level) = set_level_event level ∷ []
event_of _ = []

-- The level that later messages have.
abbrev level_after : UserInput → LogLevel → LogLevel
level_after (UserInput.level_command level) old = level
level_after _ old = old

abbrev goes_on : UserInput → Bool
goes_on UserInput.quit_command = false
goes_on _ = true

-- The events of the lines up to `/quit`, in order.
unfoldable pub events_of : List Line → LogLevel → List Event
events_of [] level = []
events_of (line ∷ lines) level =
    let input = parse_user_input line.text level in
    event_of input
    ++ elim (goes_on input) [ true ↦ events_of lines (level_after input level) | false ↦ [] ]

events_of-more :
    (line : Line) (lines : List Line) (level : LogLevel)
    → goes_on (parse_user_input line.text level) ≡ true
    → events_of (line ∷ lines) level
      ≡ event_of (parse_user_input line.text level)
        ++ events_of lines (level_after (parse_user_input line.text level) level)
unfolding events_of
events_of-more line lines level more = rw more

module _ {L : Type 0} (logger : ILogger L) (message_of_code : ErrorCode → Bytes)
    (show_prompt : Bool) where
  worker_step-closed :
      (s : System logger message_of_code)
      → (worker_step logger message_of_code s).events.closed ≡ s.events.closed
  unfolding worker_step pop
  worker_step-closed s = ground arith

  -- The threads so far: the events were accepted, and the queue is open.
  record Going (start : Worker × L) (done : List Event)
      (c : Console logger message_of_code show_prompt) : Type 0 where
    so_far : Run logger message_of_code start done c.system
    is_open : c.system.events.closed ≡ false

  run_worker-Run :
      (n : ℕ) (start : Worker × L) (done : List Event) (s : System logger message_of_code)
      → Run logger message_of_code start done s
      → Run logger message_of_code start done (run_worker logger message_of_code n s)
  unfolding run_worker
  run_worker-Run zero start done s run = run
  run_worker-Run (suc n) start done s run =
      run_worker-Run n start done (worker_step logger message_of_code s) (works run)

  run_worker-closed :
      (n : ℕ) (s : System logger message_of_code)
      → (run_worker logger message_of_code n s).events.closed ≡ s.events.closed
  unfolding run_worker
  run_worker-closed zero s = refl
  run_worker-closed (suc n) s =
      run_worker-closed n (worker_step logger message_of_code s) ∙ worker_step-closed s

  work-Going :
      (n : ℕ) (start : Worker × L) (done : List Event)
      (c : Console logger message_of_code show_prompt)
      → Going start done c
      → Going start done (work logger message_of_code show_prompt n c)
  unfolding work
  work-Going n start done c g = record {
    so_far = run_worker-Run n start done c.system g.so_far;
    is_open = run_worker-closed n c.system ∙ g.is_open;
  }

  push_event-Going :
      (event : Event) (start : Worker × L) (done : List Event)
      (c : Console logger message_of_code show_prompt)
      → Going start done c
      → ((push_event logger message_of_code show_prompt event c).0 ≡ true)
        × Going start (done ++ event ∷ []) (push_event logger message_of_code show_prompt event c).1
  unfolding push_event
  push_event-Going event start done c g =
      let accepted : (push event c.system.events).0 ≡ true =
        unfold push in ground (arith, g.is_open) in
      (
        accepted,
        record {
          so_far = pushes event g.so_far accepted;
          is_open = unfold push in ground (arith, g.is_open);
        },
      )

  same-Going :
      (start : Worker × L) (done : List Event) (c c' : Console logger message_of_code show_prompt)
      → Going start done c
      → c'.system ≡ c.system
      → Going start (done ++ []) c'
  same-Going start done c c' g same = record {
    so_far = rw (append-nil done, same) g.so_far;
    is_open = rw same g.is_open;
  }

  take_up-Going :
      (input : UserInput) (start : Worker × L) (done : List Event)
      (c : Console logger message_of_code show_prompt)
      → Going start done c
      → let next = take_up logger message_of_code show_prompt input c in
        (next.0 ≡ goes_on input)
        × (next.1.level ≡ level_after input c.level)
        × Going start (done ++ event_of input) next.1
  unfolding take_up
  take_up-Going (UserInput.message level text) start done c g =
      let (accepted, next) = push_event-Going (write_event level text) start done c g in
      (accepted, unfold push_event in refl, next)
  take_up-Going (UserInput.level_command level) start done c g =
      let (accepted, next) =
        push_event-Going (set_level_event level) start done (record c { level = level })
          (record { so_far = g.so_far; is_open = g.is_open }) in
      (accepted, unfold push_event in refl, record { so_far = next.so_far; is_open = next.is_open })
  take_up-Going UserInput.help_command start done c g =
      (refl, refl, same-Going start done c _ g refl)
  take_up-Going UserInput.quit_command start done c g =
      (refl, refl, same-Going start done c _ g refl)
  take_up-Going UserInput.empty_line start done c g = (refl, refl, same-Going start done c _ g refl)
  take_up-Going (UserInput.error text) start done c g =
      (refl, refl, same-Going start done c _ g refl)

  report_failure-same :
      (c : Console logger message_of_code show_prompt)
      → let c' = report_failure logger message_of_code show_prompt c in
        (c'.system ≡ c.system) × (c'.level ≡ c.level)
  unfolding report_failure
  report_failure-same c = ground arith

  prompt-same :
      (c : Console logger message_of_code show_prompt)
      → let c' = prompt logger message_of_code show_prompt c in
        (c'.system ≡ c.system) × (c'.level ≡ c.level)
  unfolding prompt
  prompt-same c = ground arith

  same-Going' :
      (start : Worker × L) (done : List Event) (c c' : Console logger message_of_code show_prompt)
      → Going start done c
      → c'.system ≡ c.system
      → Going start done c'
  same-Going' start done c c' g same = record {
    so_far = rw same g.so_far;
    is_open = rw same g.is_open;
  }

  round-Going :
      (line : Line) (start : Worker × L) (done : List Event)
      (c : Console logger message_of_code show_prompt)
      → Going start done c
      → let input = parse_user_input line.text c.level in
        let next = round logger message_of_code show_prompt line c in
        (next.0 ≡ goes_on input)
        × (next.1.level ≡ level_after input c.level)
        × Going start (done ++ event_of input) next.1
  unfolding round work
  round-Going line start done c g =
      let input = parse_user_input line.text c.level in
      let c1 = work logger message_of_code show_prompt line.before c in
      let (on, level, taken) =
        take_up-Going input start done c1 (work-Going line.before start done c g) in
      let c2 = (take_up logger message_of_code show_prompt input c1).1 in
      let c3 = work logger message_of_code show_prompt line.after c2 in
      let (same, kept) = report_failure-same c3 in
      (
        on,
        kept ∙ level,
        same-Going' start (done ++ event_of input) c3 _
            (work-Going line.after start (done ++ event_of input) c2 taken) same,
      )

  round_at :
      (line : Line) (level : LogLevel) (start : Worker × L) (done : List Event)
      (c : Console logger message_of_code show_prompt)
      → c.level ≡ level
      → Going start done c
      → let input = parse_user_input line.text level in
        let next = round logger message_of_code show_prompt line c in
        (next.0 ≡ goes_on input)
        × (next.1.level ≡ level_after input level)
        × Going start (done ++ event_of input) next.1
  round_at line level start done c at_level g = rw (← at_level) (round-Going line start done c g)

  run_loop-more :
      (line : Line) (lines : List Line) (c : Console logger message_of_code show_prompt)
      → (round logger message_of_code show_prompt line
          (prompt logger message_of_code show_prompt c)).0
        ≡ true
      → run_loop logger message_of_code show_prompt (line ∷ lines) c
        ≡ run_loop logger message_of_code show_prompt lines
            (round logger message_of_code show_prompt line
              (prompt logger message_of_code show_prompt c)).1
  unfolding run_loop
  run_loop-more line lines c on = rw (run_loop, on) refl

  run_loop-Run :
      (lines : List Line) (level : LogLevel) (start : Worker × L) (done : List Event)
      (c : Console logger message_of_code show_prompt)
      → c.level ≡ level
      → Going start done c
      → Run logger message_of_code start
          (done ++ events_of lines level)
          (run_loop logger message_of_code show_prompt lines c).1.system
  unfolding run_loop events_of
  run_loop-Run [] level start done c at_level g =
      let (same, kept) = prompt-same c in rw (append-nil done, same) g.so_far
  run_loop-Run (line ∷ lines) level start done c at_level g =
      let c1 = prompt logger message_of_code show_prompt c in
      let (same, kept) = prompt-same c in
      let here : c1.level ≡ level = kept ∙ at_level in
      let input = parse_user_input line.text level in
      let next = round logger message_of_code show_prompt line c1 in
      let (on, then_level, going) =
        round_at line level start done c1 here (same-Going' start done c c1 g same) in
      elim (Bool-cases (goes_on input)) [
        | inr over ↦
            let stops : next.0 ≡ false = on ∙ over in
            rw (run_loop, stops, events_of, over, append-nil (event_of input)) going.so_far
        | inl more ↦
            let continues : next.0 ≡ true = on ∙ more in
            let rest =
              run_loop-Run lines (level_after input level) start (done ++ event_of input) next.1
                then_level going in
            let longer = append_assoc done (event_of input) in
            rw
              (
                events_of-more line lines level more,
                run_loop-more line lines c continues,
                ← longer (events_of lines (level_after input level)),
              )
              rest
      ]

  end_line-same :
      (running : Bool) (c : Console logger message_of_code show_prompt)
      → let c' = end_line logger message_of_code show_prompt running c in c'.system ≡ c.system
  unfolding end_line
  end_line-same running c = ground arith

  finish-Sequential :
      (last : ℕ) (running : Bool) (start : Worker × L) (events : List Event)
      (c : Console logger message_of_code show_prompt)
      → Run logger message_of_code start events c.system
      → let (code, c') = finish logger message_of_code show_prompt last (running, c) in
        let final = handle_all logger message_of_code events start in
        (c'.system.state ≡ final)
        × (code ≡ exit_code final.0)
        × ((before : Bytes) × (c'.err ≡ before ++ summary final.0))
  unfolding finish work
  finish-Sequential last running start events c so_far =
      let c1 = end_line logger message_of_code show_prompt running c in
      let same : c1.system ≡ c.system = end_line-same running c in
      let run1 : Run logger message_of_code start events c1.system = rw same so_far in
      let run2 = run_worker-Run last start events c1.system run1 in
      let ends =
        stop_lem logger message_of_code start events
          (run_worker logger message_of_code last c1.system) run2 in
      let state = ap (λ s. s.state) ends in
      (
        state,
        ap (λ (s : Worker × L). exit_code s.0) state,
        (c1.err, ap (λ (s : Worker × L). c1.err ++ summary s.0) state),
      )

  -- However the two threads take turns, a run ends with every event of the input up to `/quit` handled
  -- in order and once; the exit code and the last line of the error stream are those of the counters
  -- that this gives.
  pub run-Sequential :
      (lines : List Line) (last : ℕ) (l : L)
      → let (code, c) = run logger message_of_code show_prompt lines last l in
        let (worker, l') =
          handle_all logger message_of_code (events_of lines (logger.level_of l)) (new_worker, l) in
        (c.system.state ≡ (worker, l'))
        × (code ≡ exit_code worker)
        × ((before : Bytes) × (c.err ≡ before ++ summary worker))
  unfolding run finish
  run-Sequential lines last l =
      let level = logger.level_of l in
      let begun = new_console logger message_of_code show_prompt l in
      let looped = run_loop logger message_of_code show_prompt lines begun in
      finish-Sequential last looped.0 (new_worker, l) (events_of lines level) looped.1
        (run_loop-Run lines level (new_worker, l) [] begun refl
          (record { so_far = begins; is_open = refl }))
