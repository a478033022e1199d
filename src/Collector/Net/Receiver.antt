-- ===== src/Collector/Net/Receiver.antt =====
-- collector/core/IReceiver.hpp, and collector/core/net/Receiver.hpp and Receiver.cpp: the receiver for
-- a protocol.
use loggerlib.Collector.Net.Poll.{Received}
use loggerlib.Prelude.Int.{ℤ}
use loggerlib.Common.Errors.{invalid_argument, ErrorCode}
use loggerlib.Collector.Net.Listener.{Listener}
use loggerlib.Common.Net.Machine.{Environment, M, pure, ◌>>=◌}
use loggerlib.Collector.Net.TcpReceiver.{TcpReceiver, open_tcp_receiver}
use loggerlib.Collector.UdpReceiver.{UdpReceiver, open_udp_receiver}
use loggerlib.Collector.Net.TcpReceiver
use loggerlib.Collector.UdpReceiver
use loggerlib.Logger.SocketProtocol.{SocketProtocol}
use loggerlib.Prelude.{ℕ, Option, none, some, List, Bytes}

-- A constructor for each class that implements the interface.
pub data Receiver : Type 0 where
  over_tcp : TcpReceiver → Receiver
  over_udp : UdpReceiver → Receiver

abbrev pub listener_of : Receiver → Listener
listener_of (over_tcp r) = r.listener
listener_of (over_udp r) = r.listener

-- `dropped()`
abbrev pub dropped_by : Receiver → ℕ
dropped_by (over_tcp r) = r.dropped
dropped_by (over_udp r) = 0

-- What a receiver of one class leaves, as one of the interface.
abbrev pub as_receiver : {R : Type 0} → (R → Receiver) → Received R → Received Receiver
as_receiver class found = record {
  ok = found.ok;
  ec = found.ec;
  lines = found.lines;
  receiver = class found.receiver;
}

abbrev pub class_of :
    {R : Type 0} → (R → Receiver) → Option R × ErrorCode → Option Receiver × ErrorCode
class_of class (none, ec) = (none, ec)
class_of class (some r, ec) = (some (class r), ec)

module _ {W : Type 0} (environment : Environment W) (patience : ℕ) where
  unfoldable pub receive : Receiver → List Bytes → ℤ → ErrorCode → M W (Received Receiver)
  receive (over_tcp r) lines timeout ec = do
    found ← TcpReceiver.receive environment patience r lines timeout ec
    pure (as_receiver over_tcp found)
  receive (over_udp r) lines timeout ec = do
    found ← UdpReceiver.receive environment r lines timeout ec
    pure (as_receiver over_udp found)

  unfoldable pub open_receiver : Bytes → ℕ → SocketProtocol → M W (Option Receiver × ErrorCode)
  open_receiver host port SocketProtocol.tcp = do
    found ← open_tcp_receiver environment host port
    pure (class_of over_tcp found)
  open_receiver host port SocketProtocol.udp = do
    found ← open_udp_receiver environment host port
    pure (class_of over_udp found)
  open_receiver host port SocketProtocol.count = pure (none, invalid_argument)
  open_receiver host port (SocketProtocol.beyond n) = pure (none, invalid_argument)
