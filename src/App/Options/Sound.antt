-- ===== src/App/Options/Sound.antt =====
-- What a command line that app/core/Options.cpp accepts gives to the logger.
use loggerlib.Logger.SocketProtocol.Names.{tcp_valid, string_to_protocol_valid}
use loggerlib.Common.Endpoint.Ports.{parse_port-bounds}
use loggerlib.App.Options.Targets.{
  SocketAt-end, SocketAt-append, is_socket, info_valid, is_file, SocketAt, IsTarget,
  put_protocol-keeps,
}
use loggerlib.Logger.LogLevel.Names.{string_to_level_iff}
use loggerlib.Common.Arguments.{Handler}
use loggerlib.Logger.LogLevel.{string_to_level, is_valid_level}
use loggerlib.Logger.SocketProtocol.{string_to_protocol, SocketProtocol}
use loggerlib.App.Options.{
  string_to_level, no_target, new_scan, split_host_port, handler_for, with_targets, add_socket,
  string_to_protocol, add_host_port, set_level_text, Handler, set_protocol, add_file, positional,
  parse_options, build_run, socket_target, file_target, Run, SocketProtocol, Scan, put_protocol,
}
use loggerlib.Logger.LoggerFactory.{no_target, Target}
use loggerlib.Common.Endpoint.{split_host_port, HostPort, parse_port}
use mathlib.Core.Path.{subst}
use loggerlib.Common.Arguments.Invariant.{
  scan_arguments-Ends, Keeps, keeps, refuses, Ends, ends_run, ends_usage,
}
use loggerlib.Prelude.{
  ℕ, ◌≡◌, refl, sym, ◌≢◌, ◌⊎◌, inl, inr, Bool, true, false, Option, none, some, List, [], ◌∷◌, ◌++◌,
  arith, Bytes, All, All-append, Bool-cases, Option-cases,
}

-- The options that `main` passes to the factory.
pub record IsRun (r : Run) : Type 0 where
  pub some_target : r.targets ≢ []
  pub each_target : All IsTarget r.targets
  pub valid_level : is_valid_level r.level ≡ true

record IsScan (scan : Scan) : Type 0 where
  each_target : All IsTarget scan.targets
  last_socket : (i : ℕ) → scan.last_socket ≡ some i → SocketAt i scan.targets

add_file-Keeps : (text : Bytes) (s : Scan) → IsScan s → Keeps IsScan (add_file text s)
unfolding add_file
add_file-Keeps [] s p = refuses
add_file-Keeps (c ∷ path) s p = keeps (record {
  each_target =
      All-append IsTarget s.targets (file_target (c ∷ path) ∷ []) p.each_target
        (is_file (λ h. absurd (ground arith)), tt);
  last_socket =
      λ i h. SocketAt-append i s.targets (file_target (c ∷ path) ∷ []) (p.last_socket i h);
})

add_host_port-Keeps :
    (host port : Bytes) (number : Option ℕ) (text : Bytes) (s : Scan)
    → parse_port port ≡ number
    → IsScan s
    → Keeps IsScan (add_host_port host port number text s)
add_host_port-Keeps [] port number text s e p = refuses
add_host_port-Keeps (c ∷ host) port none text s e p = refuses
add_host_port-Keeps (c ∷ host) port (some number) text s e p =
    let (low, high) = parse_port-bounds port number e in
    let target = socket_target (c ∷ host) number SocketProtocol.tcp in
    keeps (record {
      each_target =
          All-append IsTarget s.targets (target ∷ []) p.each_target
            (is_socket (λ h. absurd (ground arith)) low high tcp_valid, tt);
      last_socket = λ i h.
          subst (λ j. SocketAt j (s.targets ++ (target ∷ []))) (ground arith)
            (SocketAt-end s.targets (c ∷ host) number SocketProtocol.tcp);
    })

add_socket-Keeps : (text : Bytes) (s : Scan) → IsScan s → Keeps IsScan (add_socket text s)
unfolding add_socket
add_socket-Keeps text s p = at_parts (split_host_port text) refl
  where
    at_parts :
        (parts : Option HostPort) → split_host_port text ≡ parts → Keeps IsScan (add_socket text s)
    at_parts none e = rw (add_socket, e) refuses
    at_parts (some parts) e =
        rw (add_socket, e)
          (add_host_port-Keeps parts.host parts.port (parse_port parts.port) text s refl p)

put-Keeps :
    (text : Bytes) (i : ℕ) (protocol : SocketProtocol) (s : Scan)
    → string_to_protocol text ≡ some protocol
    → s.last_socket ≡ some i
    → IsScan s
    → Keeps IsScan (with_targets s (put_protocol i protocol s.targets))
put-Keeps text i protocol s e last p =
    let (after, put, all, same) =
      put_protocol-keeps i protocol s.targets (string_to_protocol_valid text protocol e)
        (p.last_socket i last) p.each_target in
    rw put (keeps (record { each_target = all; last_socket = λ j h. same j (p.last_socket j h) }))

abbrev scan_of : List Target → Option ℕ → Option Bytes → Bool → Scan
scan_of targets last_socket level_text protocol_given = record {
  targets = targets;
  last_socket = last_socket;
  level_text = level_text;
  protocol_given = protocol_given;
}

set_protocol_at :
    (text : Bytes) (targets : List Target) (last_socket : Option ℕ) (level_text : Option Bytes)
    (protocol_given : Bool)
    → IsScan (scan_of targets last_socket level_text protocol_given)
    → Keeps IsScan (set_protocol text (scan_of targets last_socket level_text protocol_given))
unfolding set_protocol
set_protocol_at text targets none level_text protocol_given p = refuses
set_protocol_at text targets (some i) level_text true p = refuses
set_protocol_at text targets (some i) level_text false p =
    elim (Option-cases (string_to_protocol text)) [
      | inl nothing ↦ rw nothing refuses
      | inr (protocol, e) ↦
          rw e (put-Keeps text i protocol (scan_of targets (some i) level_text false) e refl p)
    ]

set_protocol-Keeps : (text : Bytes) (s : Scan) → IsScan s → Keeps IsScan (set_protocol text s)
set_protocol-Keeps text s p =
    set_protocol_at text s.targets s.last_socket s.level_text s.protocol_given p

set_level_text_at :
    (text : Bytes) (targets : List Target) (last_socket : Option ℕ) (level_text : Option Bytes)
    (protocol_given : Bool)
    → IsScan (scan_of targets last_socket level_text protocol_given)
    → Keeps IsScan (set_level_text text (scan_of targets last_socket level_text protocol_given))
unfolding set_level_text
set_level_text_at text targets last_socket none protocol_given p =
    keeps (record { each_target = p.each_target; last_socket = p.last_socket })
set_level_text_at text targets last_socket (some given) protocol_given p = refuses

set_level_text-Keeps : (text : Bytes) (s : Scan) → IsScan s → Keeps IsScan (set_level_text text s)
set_level_text-Keeps text s p =
    set_level_text_at text s.targets s.last_socket s.level_text s.protocol_given p

positional-Keeps : (text : Bytes) (s : Scan) → IsScan s → Keeps IsScan (positional text s)
unfolding positional
positional-Keeps text s p = elim (Bool-cases (no_target s.targets)) [
  | inl nothing ↦ rw (positional, nothing) (add_file-Keeps text s p)
  | inr given ↦ rw (positional, given) (set_level_text-Keeps text s p)
]

-- The handlers of the options, each with the invariant.
handler_for-cases :
    (argument : Bytes) (handler : Handler Scan)
    → handler_for argument ≡ some handler
    → (handler ≡ add_file)
      ⊎ (handler ≡ add_socket)
      ⊎ (handler ≡ set_protocol)
      ⊎ (handler ≡ set_level_text)
unfolding handler_for
handler_for-cases argument handler e = ground arith

handler_for-Keeps :
    (argument : Bytes) (handler : Handler Scan)
    → handler_for argument ≡ some handler
    → (text : Bytes) (s : Scan) → IsScan s
    → Keeps IsScan (handler text s)
handler_for-Keeps argument handler e text s p =
    let at = λ (h : Handler Scan). Keeps IsScan (h text s) in
    elim (handler_for-cases argument handler e) [
      | inl same ↦ subst at (sym same) (add_file-Keeps text s p)
      | inr (inl same) ↦ subst at (sym same) (add_socket-Keeps text s p)
      | inr (inr (inl same)) ↦ subst at (sym same) (set_protocol-Keeps text s p)
      | inr (inr (inr same)) ↦ subst at (sym same) (set_level_text-Keeps text s p)
    ]

build_run_at :
    (targets : List Target) (last_socket : Option ℕ) (level_text : Option Bytes)
    (protocol_given : Bool)
    → All IsTarget targets
    → Ends IsRun (build_run (scan_of targets last_socket level_text protocol_given))
unfolding build_run
build_run_at [] last_socket level_text protocol_given all = ends_usage
build_run_at (t ∷ targets) last_socket none protocol_given all = ends_run (record {
  some_target = λ h. absurd (ground arith);
  each_target = all;
  valid_level = info_valid;
})
build_run_at (t ∷ targets) last_socket (some text) protocol_given all =
    elim (Option-cases (string_to_level text)) [
      | inl nothing ↦ rw nothing ends_usage
      | inr (level, e) ↦ rw e (
          ends_run (record {
            some_target = λ h. absurd (ground arith);
            each_target = all;
            valid_level = ((string_to_level_iff text level).0 e).0;
          }))
    ]

build_run-Ends : (s : Scan) → IsScan s → Ends IsRun (build_run s)
build_run-Ends s p =
    build_run_at s.targets s.last_socket s.level_text s.protocol_given p.each_target

-- Whatever the arguments, the parser returns without throwing, and what it gives to `main` is a
-- non-empty list of named files and of sockets with a host, a port from 1 to 65535 and a known
-- protocol, and a valid level; or the help, or an error text.
pub parse_options-Ends : (arguments : List Bytes) → Ends IsRun (parse_options arguments)
unfolding parse_options
parse_options-Ends arguments =
    scan_arguments-Ends positional handler_for build_run IsScan IsRun positional-Keeps
      handler_for-Keeps build_run-Ends arguments false none new_scan tt
      (record { each_target = tt; last_socket = λ i h. absurd (ground arith) })
