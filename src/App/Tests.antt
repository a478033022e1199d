-- ===== src/App/Tests.antt =====
-- Runs of app/ on the inputs of its tests, and the theorems at concrete inputs.
use loggerlib.Logger.LoggerFactory.{file_target, socket_target}
use loggerlib.App.Options.{
  parse_options, handler_for, set_protocol, put_protocol, build_run, positional,
}
use loggerlib.Common.Endpoint.{parse_port, split_host_port}
use loggerlib.Common.Arguments.{read_argument, scan_arguments, runs, usage_error}
use loggerlib.Logger.SinkLogger.{is_enabled}
use loggerlib.Common.Text.{
  is_digit, whole, read_digits, from_chars_unsigned, parse_number, to_lower_case, same_letters,
  equals_ignore_case,
}
use loggerlib.Common.Arguments.Invariant.{Ends}
use loggerlib.App.InputParser.Messages.{parse_slashed, parse-IsEntered, parse_leveled, Solid}
use loggerlib.App.InputParser.Trimming.{trim-IsTrimmed, trim_lem, Spaces, IsTrimmed}
use loggerlib.App.InputParser.{
  parse_command, find_first_of, split_first_word, parse_trimmed, empty_line, find_last_not_of,
  error, find_first_not_of, level_command, trim, message, is_space, parse_user_input,
}
use loggerlib.Logger.LogLevel.{find_level, string_to_level, is_valid_level, LogLevel}
use loggerlib.Logger.SocketProtocol.{find_protocol, string_to_protocol, SocketProtocol}
use loggerlib.App.Options.{
  build_run, set_level_text, positional, add_file, put_protocol, set_protocol, add_socket,
  handler_for, parse_options,
}
use loggerlib.App.Options.Sound.{parse_options-Ends, IsRun}
use loggerlib.Common.Errors.{ErrorCode, generic, clear}
use loggerlib.App.EventQueue.{close, write_event, push, set_level_event, Event, pop}
use loggerlib.App.LogWorker.{
  worker_step, handle, new_worker, stop, System, Worker, returned, threw, Logged, ILogger,
}
use loggerlib.App.LogWorker.Counts.{handle_all-counted, outcomes, successes, losses, last_loss}
use loggerlib.App.LogWorker.Runs.{
  stop_lem, Run-IsConsistent, handle_all, Run, IsConsistent, begins, pushes, closes, works,
}
use loggerlib.Prelude.{
  length, ◌+◌, ◌^◌, ◌<◌, ◌≡◌, refl, ◌≢◌, ◌⊎◌, true, false, some, List, [], ◌∷◌, ◌++◌, arith, Bytes,
  codes, equal, find_pair, ◌==◌, if◌then◌else◌,
}

inputs :
    (parse_user_input (codes "  warn  disk full\t") LogLevel.info
      ≡ message LogLevel.warn (codes "disk full"))
    × (parse_user_input (codes "disk full") LogLevel.info
        ≡ message LogLevel.info (codes "disk full"))
    × (parse_user_input (codes "//etc") LogLevel.info ≡ message LogLevel.info (codes "/etc"))
    × (parse_user_input (codes "/level error") LogLevel.info ≡ level_command LogLevel.error)
    × (parse_user_input (codes "error") LogLevel.info ≡ error (codes "message text is missing"))
    × (parse_user_input (codes " \t") LogLevel.info ≡ empty_line)
unfolding parse_user_input trim find_first_not_of find_last_not_of parse_trimmed string_to_level
    find_level equals_ignore_case split_first_word find_first_of parse_command equal
inputs = (refl, refl, refl, refl, refl, refl)

arguments :
    (parse_options (
        codes "--socket"
        ∷ codes "[::1]:55"
        ∷ codes "--proto"
        ∷ codes "udp"
        ∷ codes "--file"
        ∷ codes "-x"
        ∷ codes "warn"
        ∷ [])
      ≡ runs (record {
        targets = socket_target (codes "::1") 55 SocketProtocol.udp ∷ file_target (codes "-x") ∷ [];
        level = LogLevel.warn;
      }))
    × (parse_options (codes "--proto" ∷ codes "tcp" ∷ [])
        ≡ usage_error (codes "--proto requires a preceding --socket"))
    × (parse_options (codes "--" ∷ codes "--help" ∷ [])
        ≡ runs (record { targets = file_target (codes "--help") ∷ []; level = LogLevel.info }))
unfolding parse_options scan_arguments read_argument handler_for add_socket split_host_port
    find_pair parse_port parse_number from_chars_unsigned read_digits whole set_protocol
    string_to_protocol find_protocol equals_ignore_case same_letters to_lower_case put_protocol
    add_file positional set_level_text build_run string_to_level find_level equal is_digit
arguments = (refl, refl, refl)

disk-IsTrimmed : IsTrimmed (codes "disk")
unfolding trim find_first_not_of find_last_not_of is_space
disk-IsTrimmed = trim-IsTrimmed (codes "disk")

slash-IsTrimmed : IsTrimmed (codes "/etc")
unfolding trim find_first_not_of find_last_not_of is_space
slash-IsTrimmed = trim-IsTrimmed (codes "/etc")

warn_named : string_to_level (codes "Warn") ≡ some LogLevel.warn
unfolding string_to_level find_level equals_ignore_case same_letters to_lower_case
warn_named = refl

warn-Solid : Solid (codes "Warn")
unfolding is_space
warn-Solid = (refl, (refl, (refl, (refl, tt))))

tab_space : Spaces (9 ∷ 32 ∷ [])
unfolding is_space
tab_space = (refl, (refl, tt))

trim_lem_example :
    (front : Bytes) × (back : Bytes) × Spaces front
    × Spaces back
    × IsTrimmed (trim (codes " disk\t"))
    × (codes " disk\t" ≡ front ++ (trim (codes " disk\t") ++ back))
trim_lem_example = trim_lem (codes " disk\t")

parse_leveled_example :
    parse_user_input
      ((9 ∷ 32 ∷ []) ++ ((codes "Warn" ++ (9 ∷ ((32 ∷ []) ++ codes "disk"))) ++ (9 ∷ 32 ∷ [])))
      LogLevel.info
    ≡ message LogLevel.warn (codes "disk")
parse_leveled_example =
    parse_leveled LogLevel.info LogLevel.warn (9 ∷ 32 ∷ []) (codes "Warn") (32 ∷ []) (codes "disk")
      (9 ∷ 32 ∷ []) 9 warn_named warn-Solid tab_space tab_space tab_space disk-IsTrimmed
      (λ h. absurd (ground arith))

parse_slashed_example :
    parse_user_input ((9 ∷ 32 ∷ []) ++ ((b'/' ∷ b'/' ∷ codes "etc") ++ (9 ∷ 32 ∷ []))) LogLevel.info
    ≡ message LogLevel.info (b'/' ∷ codes "etc")
parse_slashed_example =
    parse_slashed LogLevel.info (9 ∷ 32 ∷ []) (codes "etc") (9 ∷ 32 ∷ []) tab_space tab_space
      slash-IsTrimmed

disk_message :
    parse_user_input (codes " disk full ") LogLevel.info ≡ message LogLevel.info (codes "disk full")
unfolding parse_user_input trim find_first_not_of find_last_not_of parse_trimmed string_to_level
    find_level equals_ignore_case split_first_word find_first_of
disk_message = refl

parse-IsEntered_example :
    IsTrimmed (codes "disk full")
    × (codes "disk full" ≢ [])
    × ((LogLevel.info ≡ LogLevel.info) ⊎ (is_valid_level LogLevel.info ≡ true))
parse-IsEntered_example =
    parse-IsEntered (codes " disk full ") LogLevel.info LogLevel.info (codes "disk full")
      disk_message

parse_options-Ends_example : Ends IsRun (parse_options (codes "log.txt" ∷ codes "warn" ∷ []))
parse_options-Ends_example = parse_options-Ends (codes "log.txt" ∷ codes "warn" ∷ [])

-- A logger that keeps its lines, and fails and throws on some texts.
abbrev keep : LogLevel → Bytes → LogLevel × List Bytes → Logged (LogLevel × List Bytes)
keep level [] (threshold, lines) = returned false (generic 5) (threshold, lines)
keep level (c ∷ text) (threshold, lines) =
    if c == b'!'
    then threw (codes "bad") (threshold, lines)
    else returned true clear (threshold, (c ∷ text) ∷ lines)

abbrev keeper : ILogger (LogLevel × List Bytes)
keeper = record { level_of = λ s. s.0; set_level = λ level s. (level, s.1); log = keep }

abbrev code_text : ErrorCode → Bytes
code_text ec = codes "io"

abbrev begin : Worker × (LogLevel × List Bytes)
begin = (new_worker, (LogLevel.info, []))

abbrev two_events : List Event
two_events = set_level_event LogLevel.warn ∷ write_event LogLevel.error (codes "!") ∷ []

-- Two events are pushed with a round of the worker between them, and the queue is closed.
abbrev two_state : System keeper code_text
two_state = record {
  events = record { queue = write_event LogLevel.error (codes "!") ∷ []; closed = true };
  state = (new_worker, (LogLevel.warn, []));
  ended = false;
}

two_run : Run keeper code_text begin two_events two_state
unfolding push close worker_step pop handle
two_run = closes (
    pushes (write_event LogLevel.error (codes "!"))
      (works (pushes (set_level_event LogLevel.warn) begins refl)) refl)

Run-IsConsistent_example : IsConsistent keeper code_text begin two_events two_state
Run-IsConsistent_example = Run-IsConsistent keeper code_text begin two_events two_state two_run

stop_lem_example : stop keeper code_text two_state ≡ record {
  events = record { queue = []; closed = true };
  state = handle_all keeper code_text two_events begin;
  ended = true;
}
stop_lem_example = stop_lem keeper code_text begin two_events two_state two_run

abbrev tried : List (Logged (LogLevel × List Bytes))
tried = outcomes keeper code_text two_events (LogLevel.info, [])

processed_fit : new_worker.processed + length tried < 2 ^ 64
unfolding outcomes is_enabled
processed_fit = omega arith

failed_fit : new_worker.failed + length tried < 2 ^ 64
unfolding outcomes is_enabled
failed_fit = omega arith

handle_all-counted_example :
    (handle_all keeper code_text two_events (new_worker, (LogLevel.info, []))).0 ≡ record {
      processed = 0 + successes tried;
      failed = 0 + losses tried;
      last_error = last_loss keeper code_text [] tried;
    }
handle_all-counted_example =
    handle_all-counted keeper code_text two_events new_worker (LogLevel.info, []) processed_fit
      failed_fit
