-- ===== src/App/Options.antt =====
-- app/core/Options.cpp: the command line of the console application.
pub mod Targets
pub mod Sound
use loggerlib.Common.Endpoint.{parse_port, split_host_port}
use loggerlib.Logger.LogLevel.{string_to_level, LogLevel}
use loggerlib.Logger.LoggerFactory.{socket_target, file_target, no_target, Target}
use loggerlib.Logger.SocketProtocol.{string_to_protocol, SocketProtocol}
use loggerlib.Common.Arguments.{
  runs, scanned, usage_error, threw, refused, Scanned, scan_arguments, Handler, Options,
}
use mathlib.Core.Option
use loggerlib.Prelude.{
  ℕ, zero, suc, ◌+◌, ◌-◌, ◌*◌, ◌/◌, ◌%◌, ◌^◌, ◌≤◌, ◌<◌, min, max, ◌≡◌, refl, sym, ap, ◌∙◌, ◌≢◌, ◌↔◌,
  ◌⊎◌, inl, inr, Bool, true, false, not, ◌&&◌, ◌||◌, Option, none, some, List, [], ◌∷◌, ◌++◌, map,
  append_assoc, append-nil, arith, Bytes, codes, Lacks, All, All-append, length, get_elem?, take,
  drop, replicate, length-replicate, modify, flatten, length-append, take-length, take_at, drop_at,
  drop-length, drop_past, take_all, equal, equal_iff, find, rfind, find_pair, substr, Cut, absent,
  at, find-Cut, ltb, leb, ◌==◌, if◌then◌else◌, ltb→lt, leb→le, ltb→le, lt→ltb, le→ltb, ==_iff,
  ==_refl, ==_ne, Bool-cases, Option-cases, every_below, every_below_at,
}

-- `SRun`
pub record Run : Type 0 where
  pub targets : List Target
  pub level : LogLevel

-- `SScan`
pub record Scan : Type 0 where
  pub targets : List Target
  pub last_socket : Option ℕ
  pub level_text : Option Bytes
  pub protocol_given : Bool

abbrev pub new_scan : Scan
new_scan = record { targets = []; last_socket = none; level_text = none; protocol_given = false }

unfoldable pub add_file : Handler Scan
add_file [] scan = refused (codes "log file name must not be empty")
add_file (c ∷ path) scan = scanned (record {
  targets = scan.targets ++ file_target (c ∷ path) ∷ [];
  last_socket = scan.last_socket;
  level_text = scan.level_text;
  protocol_given = scan.protocol_given;
})

-- A socket target whose host and port are read.
abbrev pub add_host_port : Bytes → Bytes → Option ℕ → Handler Scan
add_host_port [] port number text scan = refused (codes "host must not be empty")
add_host_port (c ∷ host) port none text scan = refused (codes "bad port: " ++ port)
add_host_port (c ∷ host) port (some number) text scan = scanned (record {
  targets = scan.targets ++ socket_target (c ∷ host) number SocketProtocol.tcp ∷ [];
  last_socket = some (length scan.targets);
  level_text = scan.level_text;
  protocol_given = false;
})

unfoldable pub add_socket : Handler Scan
add_socket text scan = elim (split_host_port text) [
  | none ↦
      refused
        (codes "expected <host:port>, got: " ++ (text ++ codes " (an IPv6 address needs brackets)"))
  | some parts ↦ add_host_port parts.host parts.port (parse_port parts.port) text scan
]

-- `std::get<SSocketTarget>(target).protocol = protocol`; `none` where the target is a file, which
-- throws, and where there is none at the index.
unfoldable pub put_protocol : ℕ → SocketProtocol → List Target → Option (List Target)
put_protocol i protocol [] = none
put_protocol zero protocol (file_target path ∷ targets) = none
put_protocol zero protocol (socket_target host port old ∷ targets) =
    some (socket_target host port protocol ∷ targets)
put_protocol (suc i) protocol (target ∷ targets) =
    Option.map (λ rest. target ∷ rest) (put_protocol i protocol targets)

abbrev pub with_targets : Scan → Option (List Target) → Scanned Scan
with_targets scan none = threw
with_targets scan (some targets) = scanned (record {
  targets = targets;
  last_socket = scan.last_socket;
  level_text = scan.level_text;
  protocol_given = true;
})

unfoldable pub set_protocol : Handler Scan
set_protocol text scan = elim scan.last_socket [
  | none ↦ refused (codes "--proto requires a preceding --socket")
  | some i ↦
      if scan.protocol_given
      then refused (codes "--proto given twice for one --socket")
      else elim (string_to_protocol text) [
        | none ↦ refused (codes "unknown protocol: " ++ text)
        | some protocol ↦ with_targets scan (put_protocol i protocol scan.targets)
      ]
]

unfoldable pub set_level_text : Handler Scan
set_level_text text scan = elim scan.level_text [
  | some given ↦ refused (codes "level given twice: " ++ text)
  | none ↦ scanned (record {
    targets = scan.targets;
    last_socket = scan.last_socket;
    level_text = some text;
    protocol_given = scan.protocol_given;
  })
]

unfoldable pub handler_for : Bytes → Option (Handler Scan)
handler_for argument =
    if equal argument (codes "--file")
    then some add_file
    else if equal argument (codes "--socket")
    then some add_socket
    else if equal argument (codes "--proto")
    then some set_protocol
    else if equal argument (codes "--level")
    then some set_level_text
    else none

-- The first argument without a dash is the file, as long as there is no target; then the level.
unfoldable pub positional : Handler Scan
positional argument scan =
    if no_target scan.targets then add_file argument scan else set_level_text argument scan

abbrev pub run_at : List Target → Bytes → Option LogLevel → Options Run
run_at targets text none = usage_error (codes "unknown level: " ++ text)
run_at targets text (some level) = runs (record { targets = targets; level = level })

unfoldable pub build_run : Scan → Options Run
build_run scan =
    if no_target scan.targets
    then usage_error (codes "a log file or --socket is required")
    else elim scan.level_text [
      | none ↦ runs (record { targets = scan.targets; level = LogLevel.info })
      | some text ↦ run_at scan.targets text (string_to_level text)
    ]

-- The arguments behind the program's name.
unfoldable pub parse_options : List Bytes → Options Run
parse_options arguments =
    scan_arguments positional handler_for build_run arguments false none new_scan
