-- ===== src/App/Main.antt =====
-- app/src/main.cpp. How sinks are opened and written, the calendar, the clock and the texts of error
-- codes are parameters; a state `W` stands for what they change. `what` is the text of an exception
-- that leaves the parser of the options.
pub mod Codes
mod Tests
use loggerlib.Prelude.Int.{ℤ}
use loggerlib.App.ConsoleApp.{
  Line, ExitCode, success, usage, log_unavailable, write_failed, internal_error,
}
use loggerlib.App.ConsoleApp
use loggerlib.App.LogWorker.{ILogger, returned}
use loggerlib.App.Options.{parse_options}
use loggerlib.App.Options
use loggerlib.App.Usage.{print_usage}
use loggerlib.Common.Arguments.{Options, runs, shows_help, usage_error, throws}
use loggerlib.Common.Errors.{ErrorCode}
use loggerlib.Logger.LoggerFactory.{LoggerSink, Openers, create_logger, sink_write_line}
use loggerlib.Logger.LogRecord.Time.{Calendar}
use loggerlib.Logger.Sink.{WriteLine}
use loggerlib.Logger.SinkLogger.{SinkLogger, log, set_level}
use loggerlib.Prelude.{
  ℕ, zero, suc, ◌+◌, ◌-◌, ◌*◌, ◌/◌, ◌%◌, ◌^◌, ◌≤◌, ◌<◌, min, max, ◌≡◌, refl, sym, ap, ◌∙◌, ◌≢◌, ◌↔◌,
  ◌⊎◌, inl, inr, Bool, true, false, not, ◌&&◌, ◌||◌, Option, none, some, List, [], ◌∷◌, ◌++◌, map,
  append_assoc, append-nil, arith, Bytes, codes, Lacks, All, All-append, length, get_elem?, take,
  drop, replicate, length-replicate, modify, flatten, length-append, take-length, take_at, drop_at,
  drop-length, drop_past, take_all, equal, equal_iff, find, rfind, find_pair, substr, Cut, absent,
  at, find-Cut, ltb, leb, ◌==◌, if◌then◌else◌, ltb→lt, leb→le, ltb→le, lt→ltb, le→ltb, ==_iff,
  ==_refl, ==_ne, Bool-cases, Option-cases, every_below, every_below_at,
}

-- What a process leaves: its exit code, the text of its two streams, and the world.
pub record Finished (W : Type 0) : Type 0 where
  pub code : ExitCode
  pub out : Bytes
  pub err : Bytes
  pub world : W

-- `static_cast<int>(code)`
abbrev pub exit_status : ExitCode → ℕ
exit_status success = 0
exit_status usage = 1
exit_status log_unavailable = 2
exit_status write_failed = 3
exit_status internal_error = 4

module _ {S W : Type 0} (write_line : WriteLine S W) (openers : Openers S W) (calendar : Calendar)
    (now : W → ℤ) (message_of_code : ErrorCode → Bytes) (what : Bytes) where
  -- The logger that `createLogger` gives, behind its interface.
  abbrev pub sink_logger : ILogger (SinkLogger (LoggerSink S) × W)
  sink_logger = record {
    level_of = λ l. l.0.level;
    set_level = λ level l. (set_level level l.0, l.1);
    log = λ level text l.
        let o = log (sink_write_line write_line) calendar now l.0 l.1 level text in
        returned o.ok o.ec (o.sink, o.world);
  }

  -- `show_prompt` is whether the input is a terminal.
  unfoldable pub run_application :
      Options.Run → (show_prompt : Bool) → List Line → ℕ → W → Finished W
  run_application options show_prompt lines last world =
      let opened = create_logger openers options.targets options.level world in
      elim opened.result [
        | none ↦ record {
          code = log_unavailable;
          out = [];
          err = codes "cannot open the log: " ++ (message_of_code opened.ec ++ b'\n' ∷ []);
          world = opened.world;
        }
        | some logger ↦
            let (code, c) =
              ConsoleApp.run sink_logger message_of_code show_prompt lines last
                (logger, opened.world) in
            record { code = code; out = c.out; err = c.err; world = c.system.state.1.1 }
      ]

  -- The program's name, which `main` takes from the arguments, and the arguments behind it.
  unfoldable pub main :
      (program : Bytes) → List Bytes → (show_prompt : Bool) → List Line → ℕ → W → Finished W
  main program arguments show_prompt lines last world = elim (parse_options arguments) [
    | runs options ↦ run_application options show_prompt lines last world
    | shows_help ↦ record { code = success; out = print_usage program; err = []; world = world }
    | usage_error text ↦ record {
      code = usage;
      out = [];
      err = text ++ (b'\n' ∷ print_usage program);
      world = world;
    }
    | throws ↦ record {
      code = internal_error;
      out = [];
      err = codes "internal error: " ++ (what ++ b'\n' ∷ []);
      world = world;
    }
  ]
