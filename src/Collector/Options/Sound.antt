-- ===== src/Collector/Options/Sound.antt =====
-- What a command line that collector/core/Options.cpp accepts gives to the collector.
use loggerlib.Logger.SocketProtocol.Names.{string_to_protocol_valid, tcp_valid}
use loggerlib.Common.Endpoint.Ports.{parse_port-bounds}
use loggerlib.Common.Text.Numbers.{parse_number_iff}
use loggerlib.Prelude.Int.{pos}
use loggerlib.Common.Text.{parse_number}
use loggerlib.Common.Arguments.{Handler}
use loggerlib.Logger.SocketProtocol.{string_to_protocol, is_valid_protocol}
use loggerlib.Common.Endpoint.{parse_port, split_host_port}
use mathlib.Core.Path.{subst}
use loggerlib.Common.Arguments.Invariant.{
  scan_arguments-Ends, Keeps, keeps, refuses, Ends, ends_run, ends_usage,
}
use loggerlib.Collector.Options.{
  at_position, read_timeout, parse_number, parse_port, pos, string_to_protocol, set_listen,
  add_positional, to_millis, read_counts, set_count, set_timeout, read_count, split_host_port,
  Handler, Run, Scan, new_scan, build_run, parse_options, handler_for, set_protocol,
  protocol_or_tcp,
}
use loggerlib.Prelude.{
  ℕ, zero, suc, ◌+◌, ◌-◌, ◌*◌, ◌^◌, ◌≤◌, ◌<◌, ◌≡◌, sym, ◌↔◌, ◌⊎◌, inl, inr, true, false, Option,
  none, some, List, arith, Bytes, Option-cases,
}

-- The options that `main` passes to the receiver and the collector.
pub record IsRun (r : Run) : Type 0 where
  pub port_low : 1 ≤ r.port
  pub port_high : r.port ≤ 65535
  pub known_protocol : is_valid_protocol r.protocol ≡ true
  pub every_low : 1 ≤ r.every
  pub every_high : r.every < 2 ^ 64

abbrev IsScan : Scan → Type 0
IsScan scan = is_valid_protocol (protocol_or_tcp scan.protocol) ≡ true

at_listen : (text : Bytes) (s : Scan) → IsScan s → Keeps IsScan (set_listen text s)
unfolding set_listen
at_listen text s p = elim (Option-cases s.listen) [
  | inl nothing ↦ rw (set_listen, nothing) (keeps p)
  | inr (given, e) ↦ rw (set_listen, e) refuses
]

at_count : (text : Bytes) (s : Scan) → IsScan s → Keeps IsScan (set_count text s)
unfolding set_count
at_count text s p = elim (Option-cases s.count_text) [
  | inl nothing ↦ rw (set_count, nothing) (keeps p)
  | inr (given, e) ↦ rw (set_count, e) refuses
]

at_timeout : (text : Bytes) (s : Scan) → IsScan s → Keeps IsScan (set_timeout text s)
unfolding set_timeout
at_timeout text s p = elim (Option-cases s.timeout_text) [
  | inl nothing ↦ rw (set_timeout, nothing) (keeps p)
  | inr (given, e) ↦ rw (set_timeout, e) refuses
]

at_protocol : (text : Bytes) (s : Scan) → IsScan s → Keeps IsScan (set_protocol text s)
unfolding set_protocol
at_protocol text s p = elim (Option-cases s.protocol) [
  | inr (given, e) ↦ rw (set_protocol, e) refuses
  | inl nothing ↦ elim (Option-cases (string_to_protocol text)) [
    | inl unknown ↦ rw (set_protocol, nothing, unknown) refuses
    | inr (protocol, e) ↦
        rw (set_protocol, nothing, e) (keeps (string_to_protocol_valid text protocol e))
  ]
]

at_positional : (text : Bytes) (s : Scan) → IsScan s → Keeps IsScan (add_positional text s)
unfolding add_positional
at_positional text s p =
    positional_at s.position text
      (record {
        listen = s.listen;
        count_text = s.count_text;
        timeout_text = s.timeout_text;
        protocol = s.protocol;
        position = s.position + 1;
      })
      p
  where
    positional_at :
        (position : ℕ) (text : Bytes) (s : Scan)
        → IsScan s
        → Keeps IsScan (at_position position text s)
    positional_at zero text s p = at_listen text s p
    positional_at (suc zero) text s p = at_count text s p
    positional_at (suc (suc zero)) text s p = at_timeout text s p
    positional_at (suc (suc (suc n))) text s p = refuses

handler_for-cases :
    (argument : Bytes) (handler : Handler Scan)
    → handler_for argument ≡ some handler
    → (handler ≡ set_listen)
      ⊎ (handler ≡ set_protocol)
      ⊎ (handler ≡ set_count)
      ⊎ (handler ≡ set_timeout)
unfolding handler_for
handler_for-cases argument handler e = ground arith

handler_for-Keeps :
    (argument : Bytes) (handler : Handler Scan)
    → handler_for argument ≡ some handler
    → (text : Bytes) (s : Scan) → IsScan s
    → Keeps IsScan (handler text s)
handler_for-Keeps argument handler e text s p =
    let at = λ (h : Handler Scan). Keeps IsScan (h text s) in
    elim (handler_for-cases argument handler e) [
      | inl same ↦ subst at (sym same) (at_listen text s p)
      | inr (inl same) ↦ subst at (sym same) (at_protocol text s p)
      | inr (inr (inl same)) ↦ subst at (sym same) (at_count text s p)
      | inr (inr (inr same)) ↦ subst at (sym same) (at_timeout text s p)
    ]

read_count-bounds :
    (text : Option Bytes) (every : ℕ)
    → read_count text ≡ some every
    → (1 ≤ every) × (every < 2 ^ 64)
unfolding read_count
read_count-bounds none every h = ground arith
read_count-bounds (some text) every h = elim (Option-cases (parse_number (2 ^ 64 - 1) text)) [
  | inl nothing ↦ absurd (ground arith)
  | inr (n, e) ↦ ground (arith, ((parse_number_iff (2 ^ 64 - 1) n text).0 e).3)
]

read_counts-Ends :
    (s : Scan) (host : Bytes) (port : ℕ)
    → IsScan s
    → (1 ≤ port) × (port ≤ 65535)
    → Ends IsRun (read_counts s host port)
unfolding read_counts
read_counts-Ends s host port p (low, high) = elim (Option-cases (read_count s.count_text)) [
  | inl nothing ↦ rw (read_counts, nothing) ends_usage
  | inr (every, e) ↦ elim (Option-cases (read_timeout s.timeout_text)) [
    | inl nothing ↦ rw (read_counts, e, nothing) ends_usage
    | inr (timeout, t) ↦
        let (some_every, few) = read_count-bounds s.count_text every e in
        rw (read_counts, e, t)
          (ends_run (record {
            port_low = low;
            port_high = high;
            known_protocol = p;
            every_low = some_every;
            every_high = few;
          }))
  ]
]

build_run-Ends : (s : Scan) → IsScan s → Ends IsRun (build_run s)
unfolding build_run
build_run-Ends s p = elim (Option-cases s.listen) [
  | inl nothing ↦ rw (build_run, nothing) ends_usage
  | inr (text, e) ↦ elim (Option-cases (split_host_port text)) [
    | inl nothing ↦ rw (build_run, e, nothing) ends_usage
    | inr (parts, h) ↦ elim (Option-cases (parse_port parts.port)) [
      | inl nothing ↦ rw (build_run, e, h, nothing) ends_usage
      | inr (port, q) ↦
          rw (build_run, e, h, q)
            (read_counts-Ends s parts.host port p (parse_port-bounds parts.port port q))
    ]
  ]
]

-- Whatever the arguments, the parser returns, and what it gives to `main` is a port from 1 to 65535,
-- a known protocol and a positive count of 64 bits; or the help, or an error text.
pub parse_options_sound : (arguments : List Bytes) → Ends IsRun (parse_options arguments)
unfolding parse_options
parse_options_sound arguments =
    scan_arguments-Ends add_positional handler_for build_run IsScan IsRun at_positional
      handler_for-Keeps build_run-Ends arguments false none new_scan tt tcp_valid

-- The accepted seconds become the milliseconds that they are exactly up to 9223372036854775; from
-- there on the product does not fit in 64 bits.
pub to_millis_iff :
    (seconds : ℕ)
    → seconds < 2 ^ 63
    → (to_millis seconds ≡ pos (seconds * 1000)) ↔ (seconds ≤ 9223372036854775)
unfolding to_millis
to_millis_iff seconds fits = ground arith
