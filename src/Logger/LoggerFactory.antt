-- ===== src/Logger/LoggerFactory.antt =====
-- logger/src/LoggerFactory.cpp. How a file, a TCP sink or a UDP sink is opened is a parameter.
use loggerlib.Logger.SinkLogger.{SinkLogger}
use loggerlib.Logger.Sink.{multi_write_line, WriteLine}
use loggerlib.Common.Errors.{clear, invalid_argument, ErrorCode}
use loggerlib.Logger.SocketProtocol.{SocketProtocol}
use loggerlib.Logger.LogLevel.{is_valid_level, LogLevel}
use mathlib.Core.Option
use loggerlib.Prelude.{
  ℕ, Bool, true, false, not, ◌||◌, Option, none, some, List, [], ◌∷◌, Bytes, if◌then◌else◌,
}

pub data Target : Type 0 where
  file_target : Bytes → Target
  socket_target : (host : Bytes) → (port : ℕ) → SocketProtocol → Target

-- What an opening call returns: the sink or `nullptr`, what it leaves in `ec`, and the world.
pub record Opened (T : Type 0) (W : Type 0) : Type 0 where
  pub result : Option T
  pub ec : ErrorCode
  pub world : W

-- `openFileSink`, `openTcpSink` and `openUdpSink`, each with the given `ec`.
pub record Openers (S : Type 0) (W : Type 0) : Type 0 where
  pub open_file : W → Bytes → ErrorCode → Opened S W
  pub open_tcp : W → Bytes → ℕ → ErrorCode → Opened S W
  pub open_udp : W → Bytes → ℕ → ErrorCode → Opened S W

-- The sink of a logger: a lone one, or a `MultiSink`.
pub data LoggerSink (S : Type 0) : Type 0 where
  lone : S → LoggerSink S
  multi : List S → LoggerSink S

-- `sinks.size() == 1 ? sinks.front() : MultiSink`
abbrev pub join_sinks : {S : Type 0} → List S → LoggerSink S
join_sinks (sink ∷ []) = lone sink
join_sinks sinks = multi sinks

module _ {S : Type 0} {W : Type 0} (write_line : WriteLine S W) where
  -- The virtual call of `writeLine`.
  unfoldable pub sink_write_line : WriteLine (LoggerSink S) W
  sink_write_line (lone sink) world line ec =
      let o = write_line sink world line ec in
      record { ok = o.ok; ec = o.ec; sink = lone o.sink; world = o.world }
  sink_write_line (multi sinks) world line ec =
      let o = multi_write_line write_line sinks world line ec in
      record { ok = o.ok; ec = o.ec; sink = multi o.sink; world = o.world }

-- Whether there is no target, `targets.empty()`.
abbrev pub no_target : List Target → Bool
no_target [] = true
no_target (target ∷ targets) = false

module _ {S : Type 0} {W : Type 0} (openers : Openers S W) where
  unfoldable pub open_sink : Target → W → ErrorCode → Opened S W
  open_sink (file_target path) world ec = openers.open_file world path ec
  open_sink (socket_target host port SocketProtocol.tcp) world ec =
      openers.open_tcp world host port ec
  open_sink (socket_target host port SocketProtocol.udp) world ec =
      openers.open_udp world host port ec
  open_sink (socket_target host port _) world ec = record {
    result = none;
    ec = invalid_argument;
    world = world;
  }

  abbrev pub put_front : S → Opened (List S) W → Opened (List S) W
  put_front sink rest = record {
    result = Option.map (λ sinks. sink ∷ sinks) rest.result;
    ec = rest.ec;
    world = rest.world;
  }

  -- The loop over the targets; it ends at the first that cannot be opened.
  unfoldable pub open_all : List Target → W → ErrorCode → Opened (List S) W
  open_all [] world ec = record { result = some []; ec = ec; world = world }
  open_all (target ∷ targets) world ec =
      let one = open_sink target world ec in
      elim one.result [
        | none ↦ record { result = none; ec = one.ec; world = one.world }
        | some sink ↦ put_front sink (open_all targets one.world one.ec)
      ]

  unfoldable pub create_logger : List Target → LogLevel → W → Opened (SinkLogger (LoggerSink S)) W
  create_logger targets level world =
      if no_target targets || not (is_valid_level level)
      then record { result = none; ec = invalid_argument; world = world }
      else let all = open_all targets world clear in
        record {
          result =
              Option.map (λ sinks. record { sink = join_sinks sinks; level = level }) all.result;
          ec = all.ec;
          world = all.world;
        }
