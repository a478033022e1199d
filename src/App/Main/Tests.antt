-- ===== src/App/Main/Tests.antt =====
-- The theorems on whole runs of app/, at concrete inputs.
use loggerlib.Common.Text.{equals_ignore_case}
use loggerlib.Logger.LogLevel.{find_level, is_valid_level, string_to_level, LogLevel}
use loggerlib.Prelude.Int.{pos, ℤ}
use loggerlib.App.ConsoleApp.Sequential.{events_of, run-Sequential}
use loggerlib.App.ConsoleApp
use loggerlib.App.ConsoleApp.{Line}
use loggerlib.App.LogWorker.{ILogger, new_worker}
use loggerlib.App.LogWorker.Runs.{handle_all}
use loggerlib.App.Main.{ℤ, main, sink_logger}
use loggerlib.App.Main.Codes.{session, main-session}
use loggerlib.App.Options
use loggerlib.Logger.LoggerFactory.{
  LoggerSink, Openers, file_target, lone, create_logger, open_all, open_sink,
}
use loggerlib.Logger.LogRecord.Gregorian.{gregorian}
use loggerlib.Logger.Sink.{WriteLine}
use loggerlib.Logger.SinkLogger.{SinkLogger}
use loggerlib.Common.Errors.{ErrorCode, generic}
use loggerlib.Common.Arguments.{runs, scan_arguments, read_argument}
use loggerlib.App.Options.{
  parse_options, positional, add_file, build_run, set_level_text, handler_for,
}
use loggerlib.Prelude.{
  ℕ, ◌≡◌, refl, true, false, none, some, List, [], ◌∷◌, ◌++◌, Bytes, codes, equal,
}

-- Every sink is the same file, and what is written to it is the world.
abbrev append : WriteLine ℕ (List Bytes)
append sink world line ec = record { ok = true; ec = ec; sink = sink; world = world ++ line ∷ [] }

abbrev files : Openers ℕ (List Bytes)
files = record {
  open_file = λ world path ec. record { result = some 5; ec = ec; world = world };
  open_tcp = λ world host port ec. record { result = none; ec = generic 111; world = world };
  open_udp = λ world host port ec. record { result = none; ec = generic 111; world = world };
}

abbrev midnight : List Bytes → ℤ
midnight world = pos 0

abbrev code_text : ErrorCode → Bytes
code_text ec = codes "io"

abbrev warn_logger : SinkLogger (LoggerSink ℕ)
warn_logger = record { sink = lone 5; level = LogLevel.warn }

abbrev options : Options.Run
options = record { targets = file_target (codes "log.txt") ∷ []; level = LogLevel.warn }

abbrev line_at : Bytes → ℕ → ℕ → Line
line_at text before after = record { text = text; before = before; after = after }

abbrev typed : List Line
typed =
    line_at (codes "error disk full") 0 1
    ∷ line_at (codes "/level fatal") 0 0
    ∷ line_at (codes "error again") 2 0
    ∷ line_at (codes "/quit") 0 0
    ∷ line_at (codes "fatal never") 1 1
    ∷ []

asked : parse_options (codes "log.txt" ∷ codes "warn" ∷ []) ≡ runs options
unfolding parse_options scan_arguments read_argument equal positional add_file set_level_text
    build_run string_to_level find_level equals_ignore_case
asked = refl

made : (create_logger files options.targets options.level []).result ≡ some warn_logger
unfolding create_logger is_valid_level open_all open_sink
made = refl

abbrev keeper : ILogger (SinkLogger (LoggerSink ℕ) × List Bytes)
keeper = sink_logger append files gregorian midnight code_text []

main-session_example :
    ((main append files gregorian midnight code_text []
        (codes "app")
        (codes "log.txt" ∷ codes "warn" ∷ [])
        true
        typed
        1
        []).world
      ≡ (session append files gregorian midnight code_text [] warn_logger.level warn_logger.sink
          (create_logger files options.targets options.level []).world
          (events_of typed warn_logger.level)).1)
    × ((main append files gregorian midnight code_text []
          (codes "app")
          (codes "log.txt" ∷ codes "warn" ∷ [])
          true
          typed
          1
          []).code
        ≡ ConsoleApp.exit_code
            (handle_all keeper code_text (events_of typed warn_logger.level) (
              new_worker,
              (warn_logger, (create_logger files options.targets options.level []).world),
            )).0)
main-session_example =
    main-session append files gregorian midnight code_text [] (codes "app")
      (codes "log.txt" ∷ codes "warn" ∷ []) options true typed 1 [] warn_logger asked made

run-Sequential_example :
    let events = events_of typed LogLevel.warn in
    let done = ConsoleApp.run keeper code_text false typed 3 (warn_logger, []) in
    let final = handle_all keeper code_text events (new_worker, (warn_logger, [])) in
    (done.1.system.state ≡ (final.0, final.1))
    × (done.0 ≡ ConsoleApp.exit_code final.0)
    × ((before : Bytes) × (done.1.err ≡ before ++ ConsoleApp.summary final.0))
run-Sequential_example = run-Sequential keeper code_text false typed 3 (warn_logger, [])
