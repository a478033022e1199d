-- ===== src/Collector/Options.antt =====
-- collector/core/Options.cpp: the command line of the collector.
pub mod Sound
use loggerlib.Common.Arguments.{
  scanned, runs, refused, scan_arguments, Scanned, usage_error, Options, Handler,
}
use loggerlib.Prelude.Int.{negsuc, pos, ℤ}
use loggerlib.Common.Text.{parse_signed, parse_number}
use loggerlib.Logger.SocketProtocol.{string_to_protocol, SocketProtocol}
use loggerlib.Common.Endpoint.{parse_port, split_host_port, HostPort}
use loggerlib.Prelude.{
  ℕ, zero, suc, ◌+◌, ◌-◌, ◌*◌, ◌/◌, ◌%◌, ◌^◌, ◌≤◌, ◌<◌, min, max, ◌≡◌, refl, sym, ap, ◌∙◌, ◌≢◌, ◌↔◌,
  ◌⊎◌, inl, inr, Bool, true, false, not, ◌&&◌, ◌||◌, Option, none, some, List, [], ◌∷◌, ◌++◌, map,
  append_assoc, append-nil, arith, Bytes, codes, Lacks, All, All-append, length, get_elem?, take,
  drop, replicate, length-replicate, modify, flatten, length-append, take-length, take_at, drop_at,
  drop-length, drop_past, take_all, equal, equal_iff, find, rfind, find_pair, substr, Cut, absent,
  at, find-Cut, ltb, leb, ◌==◌, if◌then◌else◌, ltb→lt, leb→le, ltb→le, lt→ltb, le→ltb, ==_iff,
  ==_refl, ==_ne, Bool-cases, Option-cases, every_below, every_below_at,
}

-- `SRun`; the timeout counts milliseconds.
pub record Run : Type 0 where
  pub host : Bytes
  pub port : ℕ
  pub protocol : SocketProtocol
  pub every : ℕ
  pub timeout : ℤ

-- `SScan`
pub record Scan : Type 0 where
  pub listen : Option Bytes
  pub count_text : Option Bytes
  pub timeout_text : Option Bytes
  pub protocol : Option SocketProtocol
  pub position : ℕ

abbrev pub new_scan : Scan
new_scan = record {
  listen = none;
  count_text = none;
  timeout_text = none;
  protocol = none;
  position = 0;
}

unfoldable pub set_listen : Handler Scan
set_listen text scan = elim scan.listen [
  | some given ↦ refused (codes "listening address given twice: " ++ text)
  | none ↦ scanned (record {
    listen = some text;
    count_text = scan.count_text;
    timeout_text = scan.timeout_text;
    protocol = scan.protocol;
    position = scan.position;
  })
]

unfoldable pub set_count : Handler Scan
set_count text scan = elim scan.count_text [
  | some given ↦ refused (codes "count given twice: " ++ text)
  | none ↦ scanned (record {
    listen = scan.listen;
    count_text = some text;
    timeout_text = scan.timeout_text;
    protocol = scan.protocol;
    position = scan.position;
  })
]

unfoldable pub set_timeout : Handler Scan
set_timeout text scan = elim scan.timeout_text [
  | some given ↦ refused (codes "timeout given twice: " ++ text)
  | none ↦ scanned (record {
    listen = scan.listen;
    count_text = scan.count_text;
    timeout_text = some text;
    protocol = scan.protocol;
    position = scan.position;
  })
]

abbrev pub put_protocol : Bytes → Scan → Option SocketProtocol → Scanned Scan
put_protocol text scan none = refused (codes "unknown protocol: " ++ text)
put_protocol text scan (some protocol) = scanned (record {
  listen = scan.listen;
  count_text = scan.count_text;
  timeout_text = scan.timeout_text;
  protocol = some protocol;
  position = scan.position;
})

unfoldable pub set_protocol : Handler Scan
set_protocol text scan = elim scan.protocol [
  | some given ↦ refused (codes "protocol given twice: " ++ text)
  | none ↦ put_protocol text scan (string_to_protocol text)
]

unfoldable pub handler_for : Bytes → Option (Handler Scan)
handler_for argument =
    if equal argument (codes "--listen")
    then some set_listen
    else if equal argument (codes "--proto")
    then some set_protocol
    else if equal argument (codes "--count")
    then some set_count
    else if equal argument (codes "--timeout")
    then some set_timeout
    else none

-- `scan.positional++` with the cases of the switch
abbrev pub at_position : ℕ → Handler Scan
at_position zero text scan = set_listen text scan
at_position (suc zero) text scan = set_count text scan
at_position (suc (suc zero)) text scan = set_timeout text scan
at_position (suc (suc (suc n))) text scan = refused (codes "unexpected argument: " ++ text)

unfoldable pub add_positional : Handler Scan
add_positional text scan = at_position scan.position text (record {
  listen = scan.listen;
  count_text = scan.count_text;
  timeout_text = scan.timeout_text;
  protocol = scan.protocol;
  position = scan.position + 1;
})

-- The count, or `none` for the error; `std::size_t` reaches to 2 ^ 64 - 1.
unfoldable pub read_count : Option Bytes → Option ℕ
read_count none = some 100
read_count (some text) = elim (parse_number (2 ^ 64 - 1) text) [
  | none ↦ none
  | some count ↦ if count == 0 then none else some count
]

-- Seconds as milliseconds in 64 bits: where the product does not fit, it wraps around, as the
-- signed multiplication does on the machines the program is built for.
unfoldable pub to_millis : ℕ → ℤ
to_millis seconds =
    let product = seconds * 1000 % 2 ^ 64 in
    if ltb product (2 ^ 63) then pos product else negsuc (2 ^ 64 - 1 - product)

abbrev positive_millis : ℤ → Option ℤ
positive_millis (pos seconds) = if seconds == 0 then none else some (to_millis seconds)
positive_millis (negsuc seconds) = none

-- The timeout, or `none` for the error; `std::int64_t` reaches to 2 ^ 63 - 1.
unfoldable pub read_timeout : Option Bytes → Option ℤ
read_timeout none = some (pos 10000)
read_timeout (some text) = elim (parse_signed (2 ^ 63 - 1) text) [
  | none ↦ none
  | some seconds ↦ positive_millis seconds
]

abbrev pub given_text : Option Bytes → Bytes
given_text none = []
given_text (some text) = text

abbrev pub protocol_or_tcp : Option SocketProtocol → SocketProtocol
protocol_or_tcp none = SocketProtocol.tcp
protocol_or_tcp (some protocol) = protocol

-- `readCounts`, the count before the timeout
unfoldable pub read_counts : Scan → Bytes → ℕ → Options Run
read_counts scan host port = elim (read_count scan.count_text) [
  | none ↦
      usage_error (codes "count must be a positive number, got: " ++ given_text scan.count_text)
  | some every ↦ elim (read_timeout scan.timeout_text) [
    | none ↦ usage_error (
        codes "timeout must be a positive number of seconds, got: " ++ given_text scan.timeout_text)
    | some timeout ↦ runs (record {
      host = host;
      port = port;
      protocol = protocol_or_tcp scan.protocol;
      every = every;
      timeout = timeout;
    })
  ]
]

abbrev pub run_at : Scan → HostPort → Option ℕ → Options Run
run_at scan parts none = usage_error (codes "bad port: " ++ parts.port)
run_at scan parts (some port) = read_counts scan parts.host port

abbrev pub listen_at : Scan → Bytes → Option HostPort → Options Run
listen_at scan text none =
    usage_error
      (codes "expected <host:port>, got: " ++ (text ++ codes " (an IPv6 address needs brackets)"))
listen_at scan text (some parts) = run_at scan parts (parse_port parts.port)

unfoldable pub build_run : Scan → Options Run
build_run scan = elim scan.listen [
  | none ↦ usage_error (codes "a listening address is required")
  | some text ↦ listen_at scan text (split_host_port text)
]

-- The arguments behind the program's name.
unfoldable pub parse_options : List Bytes → Options Run
parse_options arguments =
    scan_arguments add_positional handler_for build_run arguments false none new_scan
