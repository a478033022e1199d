-- ===== src/App/ConsoleApp.antt =====
-- app/core/ConsoleApp.hpp and app/core/ConsoleApp.cpp: the loop over the lines of the input, beside
-- the thread of the worker. The input is a list of the lines that `getline` gives, each with the
-- number of rounds that the worker makes before and after what the line asks for; what is written to
-- the two streams is kept as text.
pub mod Sequential
use loggerlib.App.EventQueue.{Event, write_event, set_level_event, empty_queue, push}
use loggerlib.App.InputParser.{UserInput, parse_user_input}
use loggerlib.App.LogWorker.{ILogger, Worker, System, new_worker, run_worker, stop}
use loggerlib.Common.Errors.{ErrorCode}
use loggerlib.Common.Text.Numbers.{to_string}
use loggerlib.Common.Usage.{print_levels}
use loggerlib.Logger.LogLevel.{LogLevel, level_to_string}
use loggerlib.Prelude.{
  ℕ, Bool, true, false, not, ◌&&◌, List, [], ◌∷◌, ◌++◌, Bytes, codes, flatten, equal, ltb,
  if◌then◌else◌,
}

pub data ExitCode : Type 0 where
  success : ExitCode
  usage : ExitCode
  log_unavailable : ExitCode
  write_failed : ExitCode
  internal_error : ExitCode

-- `printHelp`
unfoldable pub print_help : Bytes
print_help = flatten (
    codes "Type a message and press Enter. An optional first word sets its level.\nLevels: "
    ∷ print_levels
    ∷ codes "\nCommands:\n"
    ∷ codes "  /level <name>  change the level of the running logger\n"
    ∷ codes "  /help          show this text\n"
    ∷ codes "  /quit          stop the application, same as Ctrl-D\n"
    ∷ codes "  //<text>       log a message that starts with a slash\n"
    ∷ [])

abbrev pub is_empty : Bytes → Bool
is_empty [] = true
is_empty (c ∷ text) = false

-- A line of the input, and the rounds of the worker before and after it is taken up.
pub record Line : Type 0 where
  pub text : Bytes
  pub before : ℕ
  pub after : ℕ

-- The line that is printed at the end.
unfoldable pub summary : Worker → Bytes
summary w = flatten (
    codes "processed "
    ∷ to_string w.processed
    ∷ codes " message(s), "
    ∷ to_string w.failed
    ∷ codes " failed"
    ∷ (if ltb 0 w.failed && not (is_empty w.last_error) then codes ": " ++ w.last_error else [])
    ∷ codes "\n"
    ∷ [])

abbrev pub exit_code : Worker → ExitCode
exit_code w = if ltb 0 w.failed then write_failed else success

module _ {L : Type 0} (logger : ILogger L) (message_of_code : ErrorCode → Bytes)
    (show_prompt : Bool) where
  -- The locals of `run`, the two threads, and the text of the two streams.
  pub record Console : Type 0 where
    pub system : System logger message_of_code
    pub level : LogLevel
    pub reported : Bytes
    pub out : Bytes
    pub err : Bytes

  unfoldable pub prompt : Console → Console
  prompt c = if show_prompt then record c { out = c.out ++ codes "> " } else c

  -- `n` rounds of the worker.
  unfoldable pub work : ℕ → Console → Console
  work n c = record c { system = run_worker logger message_of_code n c.system }

  -- `queue.push` with what it returns.
  unfoldable pub push_event : Event → Console → Bool × Console
  push_event event c =
      let (accepted, events) = push event c.system.events in
      (
        accepted,
        record c {
          system = record { events = events; state = c.system.state; ended = c.system.ended };
        },
      )

  -- The visitor; the first part is `running`.
  unfoldable pub take_up : UserInput → Console → Bool × Console
  take_up (UserInput.message level text) c = push_event (write_event level text) c
  take_up (UserInput.level_command level) c =
      let (accepted, c') = push_event (set_level_event level) (record c { level = level }) in
      (
        accepted,
        record c' { out = c'.out ++ (codes "level: " ++ (level_to_string level ++ b'\n' ∷ [])) },
      )
  take_up UserInput.help_command c = (true, record c { out = c.out ++ print_help })
  take_up UserInput.quit_command c = (false, c)
  take_up UserInput.empty_line c = (true, c)
  take_up (UserInput.error text) c = (true, record c { err = c.err ++ (text ++ b'\n' ∷ []) })

  -- A failure of the worker is reported once for each new reason.
  unfoldable pub report_failure : Console → Console
  report_failure c =
      let reason = c.system.state.0.last_error in
      if not (is_empty reason) && not (equal reason c.reported)
      then record c {
        err = c.err ++ (codes "log write failed: " ++ (reason ++ b'\n' ∷ []));
        reported = reason;
      }
      else c

  -- One round of the loop on a line that was read.
  unfoldable pub round : Line → Console → Bool × Console
  round line c =
      let c1 = work line.before c in
      let (running, c2) = take_up (parse_user_input line.text c1.level) c1 in
      (running, report_failure (work line.after c2))

  -- `while (running)`; the input ends where `getline` fails.
  unfoldable pub run_loop : List Line → Console → Bool × Console
  run_loop [] c = (true, prompt c)
  run_loop (line ∷ lines) c =
      let (running, c') = round line (prompt c) in
      elim running [ true ↦ run_loop lines c' | false ↦ (false, c') ]

  -- The end of the line of the last prompt.
  unfoldable pub end_line : Bool → Console → Console
  end_line running c = if show_prompt && running then record c { out = c.out ++ b'\n' ∷ [] } else c

  -- What follows the loop; `last` is the rounds of the worker before `stop`.
  unfoldable pub finish : ℕ → Bool × Console → ExitCode × Console
  finish last (running, c) =
      let c1 = work last (end_line running c) in
      let system = stop logger message_of_code c1.system in
      (
        exit_code system.state.0,
        record c1 { system = system; err = c1.err ++ summary system.state.0 },
      )

  abbrev pub new_console : L → Console
  new_console l = record {
    system = record { events = empty_queue; state = (new_worker, l); ended = false };
    level = logger.level_of l;
    reported = [];
    out = [];
    err = [];
  }

  unfoldable pub run : List Line → ℕ → L → ExitCode × Console
  run lines last l = finish last (run_loop lines (new_console l))
