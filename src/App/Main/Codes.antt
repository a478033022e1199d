-- ===== src/App/Main/Codes.antt =====
-- What a whole run of app/src/main.cpp ends with and writes.
use loggerlib.App.EventQueue.{Event, write_event, set_level_event}
use loggerlib.App.LogWorker.{Worker, write, handle, record_result, new_worker}
use loggerlib.Logger.LogRecord.Line.{format_record}
use loggerlib.Logger.SinkLogger.{is_enabled, SinkLogger, log}
use loggerlib.App.LogWorker.{Worker, record_result, write}
use loggerlib.Logger.LogLevel.{is_valid_level, LogLevel}
use loggerlib.App.ConsoleApp.{exit_code, internal_error, Line}
use loggerlib.Common.Errors.{clear, ErrorCode}
use loggerlib.Prelude.Int.{ℤ}
use loggerlib.Logger.LogRecord.Time.{Calendar}
use loggerlib.Logger.Sink.{WriteLine}
use loggerlib.App.ConsoleApp.Sequential.{events_of, run-Sequential}
use loggerlib.App.ConsoleApp
use loggerlib.App.LogWorker.Runs.{handle_all}
use loggerlib.App.Options
use loggerlib.Logger.LoggerFactory.{create_logger, sink_write_line, LoggerSink, Openers}
use loggerlib.App.Main.{
  create_logger, runs, parse_options, sink_write_line, SinkLogger, log, ErrorCode, ℤ, Calendar,
  WriteLine, run_application, main, sink_logger, Finished,
}
use loggerlib.Prelude.{
  ℕ, ◌≡◌, refl, sym, ap, ◌∙◌, inl, inr, Bool, true, false, ◌&&◌, some, List, [], ◌∷◌, arith, Bytes,
  Bool-cases,
}

module _ {S W : Type 0} (write_line : WriteLine S W) (openers : Openers S W) (calendar : Calendar)
    (now : W → ℤ) (message_of_code : ErrorCode → Bytes) (what : Bytes) where
  -- The sink and the world after some events, from a threshold on: a change of the level changes the
  -- threshold, and a message that it lets through is written as one line with the time.
  unfoldable pub session : LogLevel → LoggerSink S → W → List Event → LoggerSink S × W
  session threshold sink world [] = (sink, world)
  session threshold sink world (set_level_event level ∷ events) = session level sink world events
  session threshold sink world (write_event level text ∷ events) =
      elim (is_valid_level level && is_enabled threshold level) [
        | true ↦
            let o =
              sink_write_line write_line sink world (format_record calendar (now world) level text)
                clear in
            session threshold o.sink o.world events
        | false ↦ session threshold sink world events
      ]

  write-passed :
      (w : Worker) (logger : SinkLogger (LoggerSink S)) (world : W) (level : LogLevel)
      (text : Bytes)
      → (is_valid_level level && is_enabled logger.level level) ≡ true
      → let o =
          sink_write_line write_line logger.sink world
            (format_record calendar (now world) level text)
            clear in
        (write
          (sink_logger write_line openers calendar now message_of_code what)
          message_of_code
          level
          text
          (w, (logger, world))).1
        ≡ (record { sink = o.sink; level = logger.level }, o.world)
  unfolding write record_result log
  write-passed w logger world level text h = ground arith

  write-dropped :
      (w : Worker) (logger : SinkLogger (LoggerSink S)) (world : W) (level : LogLevel)
      (text : Bytes)
      → (is_valid_level level && is_enabled logger.level level) ≡ false
      → (write
          (sink_logger write_line openers calendar now message_of_code what)
          message_of_code
          level
          text
          (w, (logger, world))).1
        ≡ (logger, world)
  unfolding write record_result log
  write-dropped w logger world level text h = ground arith

  session-passed :
      (threshold : LogLevel) (sink : LoggerSink S) (world : W) (level : LogLevel) (text : Bytes)
      (events : List Event)
      → (is_valid_level level && is_enabled threshold level) ≡ true
      → let o =
          sink_write_line write_line sink world
            (format_record calendar (now world) level text)
            clear in
        session threshold sink world (write_event level text ∷ events)
        ≡ session threshold o.sink o.world events
  unfolding session
  session-passed threshold sink world level text events h = rw (session, h) refl

  session-dropped :
      (threshold : LogLevel) (sink : LoggerSink S) (world : W) (level : LogLevel) (text : Bytes)
      (events : List Event)
      → (is_valid_level level && is_enabled threshold level) ≡ false
      → session threshold sink world (write_event level text ∷ events)
        ≡ session threshold sink world events
  unfolding session
  session-dropped threshold sink world level text events h = rw (session, h) refl

  handle_all-session :
      (events : List Event) (w : Worker) (logger : SinkLogger (LoggerSink S)) (world : W)
      → let logger_of = sink_logger write_line openers calendar now message_of_code what in
        let l = (handle_all logger_of message_of_code events (w, (logger, world))).1 in
        (l.0.sink, l.1) ≡ session logger.level logger.sink world events
  unfolding handle_all session handle
  handle_all-session [] w logger world = refl
  handle_all-session (set_level_event level ∷ events) w logger world =
      handle_all-session events w (record { sink = logger.sink; level = level }) world
  handle_all-session (write_event level text ∷ events) w logger world =
      let logger_of = sink_logger write_line openers calendar now message_of_code what in
      let next = write logger_of message_of_code level text (w, (logger, world)) in
      let rest = handle_all-session events next.0 next.1.0 next.1.1 in
      let after = λ (l : SinkLogger (LoggerSink S) × W). session l.0.level l.0.sink l.1 events in
      elim (Bool-cases (is_valid_level level && is_enabled logger.level level)) [
        | inl pass ↦
            rest
            ∙ ap after (write-passed w logger world level text pass)
            ∙ sym (session-passed logger.level logger.sink world level text events pass)
        | inr low ↦
            rest
            ∙ ap after (write-dropped w logger world level text low)
            ∙ sym (session-dropped logger.level logger.sink world level text events low)
      ]

  main-runs :
      (program : Bytes) (arguments : List Bytes) (options : Options.Run) (show_prompt : Bool)
      (lines : List Line) (last : ℕ) (world : W)
      → parse_options arguments ≡ runs options
      → main write_line openers calendar now message_of_code what program arguments show_prompt
          lines last world
        ≡ run_application write_line openers calendar now message_of_code what options show_prompt
            lines last world
  unfolding main
  main-runs program arguments options show_prompt lines last world asked = rw (main, asked) refl

  application-opened :
      (options : Options.Run) (show_prompt : Bool) (lines : List Line) (last : ℕ) (world : W)
      (logger : SinkLogger (LoggerSink S))
      → let opened = create_logger openers options.targets options.level world in
        opened.result ≡ some logger
        → let finished =
            run_application write_line openers calendar now message_of_code what options show_prompt
              lines last world in
          let (code, c) =
            ConsoleApp.run
              (sink_logger write_line openers calendar now message_of_code what)
              message_of_code
              show_prompt
              lines
              last
              (logger, opened.world) in
          (finished.world ≡ c.system.state.1.1) × (finished.code ≡ code)
  unfolding run_application
  application-opened options show_prompt lines last world logger made =
      (rw (run_application, made) refl, rw (run_application, made) refl)

  -- For a command line that asks for a run, when the log can be opened: however the threads take turns,
  -- what the sinks write to is as after the lines of the input taken in order up to `/quit`, each
  -- message that the threshold of the moment lets through written as one line; and the exit code is 3
  -- if the sequential run counts a failure, and 0 otherwise.
  pub main-session :
      (program : Bytes) (arguments : List Bytes) (options : Options.Run) (show_prompt : Bool)
      (lines : List Line) (last : ℕ) (world : W) (logger : SinkLogger (LoggerSink S))
      → parse_options arguments ≡ runs options
      → (create_logger openers options.targets options.level world).result ≡ some logger
      → let opened = create_logger openers options.targets options.level world in
        let events = events_of lines logger.level in
        let finished =
          main write_line openers calendar now message_of_code what program arguments show_prompt
            lines last world in
        let (worker, l) =
          handle_all
            (sink_logger write_line openers calendar now message_of_code what)
            message_of_code
            events
            (new_worker, (logger, opened.world)) in
        (finished.world ≡ (session logger.level logger.sink opened.world events).1)
        × (finished.code ≡ exit_code worker)
  main-session program arguments options show_prompt lines last world logger asked made =
      let opened = create_logger openers options.targets options.level world in
      let events = events_of lines logger.level in
      let whole = main-runs program arguments options show_prompt lines last world asked in
      let (after, code) = application-opened options show_prompt lines last world logger made in
      let (state, exit, printed) =
        run-Sequential (sink_logger write_line openers calendar now message_of_code what)
          message_of_code show_prompt lines last (logger, opened.world) in
      (
        ap (λ (f : Finished W). f.world) whole
            ∙ after
            ∙ ap (λ (s : Worker × (SinkLogger (LoggerSink S) × W)). s.1.1) state
            ∙ ap (λ (t : LoggerSink S × W). t.1)
                (handle_all-session events new_worker logger opened.world),
        ap (λ (f : Finished W). f.code) whole ∙ code ∙ exit,
      )
