-- ===== src/Collector/Main.antt =====
-- collector/src/main.cpp. The opening of the receiver is a parameter, and so are the surroundings of
-- the loop, which share its world `S`. `what` is the text of an exception that leaves the parser of
-- the options.
use loggerlib.Prelude.Int.{negsuc, pos, ℤ}
use loggerlib.Collector.CollectorApp.Run.{
  Surroundings, ExitCode, success, usage, listen_failed, receive_failed, internal_error,
}
use loggerlib.Collector.CollectorApp.Run
use loggerlib.Collector.Options.{parse_options}
use loggerlib.Collector.Options
use loggerlib.Collector.Usage.{print_usage}
use loggerlib.Common.Arguments.{runs, shows_help, usage_error, throws}
use loggerlib.Common.Endpoint.{join_host_port}
use loggerlib.Common.Errors.{ErrorCode}
use loggerlib.Common.Text.Numbers.{to_string}
use loggerlib.Logger.LogRecord.Time.{Calendar}
use loggerlib.Logger.SocketProtocol.{SocketProtocol, protocol_to_string}
use loggerlib.Prelude.{
  ℕ, suc, ◌/◌, Option, none, some, List, [], ◌∷◌, ◌++◌, Bytes, codes, flatten, ◌==◌, if◌then◌else◌,
}

-- What a process leaves: its exit code, the text of its two streams, and the world.
pub record Finished (S : Type 0) : Type 0 where
  pub code : ExitCode
  pub out : Bytes
  pub err : Bytes
  pub world : S

-- `static_cast<int>(code)`
abbrev pub exit_status : ExitCode → ℕ
exit_status success = 0
exit_status usage = 1
exit_status listen_failed = 2
exit_status receive_failed = 3
exit_status internal_error = 4

-- The seconds of a timeout as the stream prints them; `duration_cast` rounds towards zero.
unfoldable pub print_seconds : ℤ → Bytes
print_seconds (pos timeout) = to_string (timeout / 1000)
print_seconds (negsuc timeout) =
    let seconds = suc timeout / 1000 in
    (if seconds == 0 then [] else b'-' ∷ []) ++ to_string seconds

-- `openReceiver`: the address and the port that the receiver listens on, or the reason why not.
abbrev pub OpenReceiver : Type 0 → Type 0
OpenReceiver S = Bytes → ℕ → SocketProtocol → S → (Option (Bytes × ℕ) × ErrorCode) × S

-- The line that says what the collector listens on.
unfoldable pub greeting : Options.Run → Bytes × ℕ → Bytes
greeting options (address, port) = flatten (
    codes "listening on "
    ∷ join_host_port address port
    ∷ codes " "
    ∷ protocol_to_string options.protocol
    ∷ codes ", reporting every "
    ∷ to_string options.every
    ∷ codes " messages or "
    ∷ print_seconds options.timeout
    ∷ codes " s\n"
    ∷ [])

module _ {S Double : Type 0} (open_receiver : OpenReceiver S) (around : Surroundings S Double)
    (calendar : Calendar) (what : Bytes) where
  -- `none` means that the fuel of the loop ran out.
  unfoldable pub run_collector : ℕ → Options.Run → S → Option (Finished S)
  run_collector fuel options s =
      let ((found, ec), s') = open_receiver options.host options.port options.protocol s in
      elim found [
        | none ↦ some (record {
          code = listen_failed;
          out = [];
          err = codes "cannot listen: " ++ (around.message_of_code ec ++ b'\n' ∷ []);
          world = s';
        })
        | some listening ↦ elim (Run.run around calendar fuel options s') [
          | none ↦ none
          | some (code, app, s'') ↦ some (record {
            code = code;
            out = greeting options listening ++ app.out;
            err = app.err;
            world = s'';
          })
        ]
      ]

  -- The program's name, which `main` takes from the arguments, and the arguments behind it.
  unfoldable pub main : ℕ → (program : Bytes) → List Bytes → S → Option (Finished S)
  main fuel program arguments s = elim (parse_options arguments) [
    | runs options ↦ run_collector fuel options s
    | shows_help ↦ some (record { code = success; out = print_usage program; err = []; world = s })
    | usage_error text ↦
        some (record {
          code = usage;
          out = [];
          err = text ++ (b'\n' ∷ print_usage program);
          world = s;
        })
    | throws ↦ some (record {
      code = internal_error;
      out = [];
      err = codes "internal error: " ++ (what ++ b'\n' ∷ []);
      world = s;
    })
  ]
