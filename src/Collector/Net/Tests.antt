-- ===== src/Collector/Net/Tests.antt =====
-- The theorems on the receivers of the collector, at concrete inputs.
use loggerlib.Logger.Net.UdpSink.{UdpSink}
use loggerlib.Logger.Net.UdpSink
use loggerlib.Collector.UdpReceiver.{UdpReceiver}
use loggerlib.Collector.UdpReceiver
use loggerlib.Collector.UdpReceiver.Delivery.{udp_delivery, sending}
use loggerlib.Common.Net.Socket.{reset}
use loggerlib.Prelude.Int.{negsuc, pos}
use loggerlib.Collector.Net.TcpReceiver.Sockets.{receive-Balanced, held}
use loggerlib.Collector.Net.TcpReceiver.{
  descriptors, accept_clients, after_read, read, read_client, read_clients, serve, after_wait,
  TcpReceiver, receive, max_clients,
}
use loggerlib.Collector.Net.Listener.{Listener}
use loggerlib.Collector.Net.Poll.{to_int, has_event, wait_for_input, Received}
use loggerlib.Collector.LineReader.{new_reader}
use loggerlib.Common.Net.Descriptors.{Balanced}
use loggerlib.Common.Errors.{clear}
use loggerlib.Common.Net.Machine.{
  send_to, answered, Call, accept_on, poll_for, receive_from, close_fd, Answer, Environment,
  Machine,
}
use loggerlib.Prelude.{
  ℕ, ◌≤◌, ◌≡◌, refl, true, false, some, List, [], ◌∷◌, map, arith, codes, length,
}

-- There is input on each descriptor; it is the end of a connection, and no new one waits.
abbrev plain : Answer
plain = record {
  result = pos 1;
  errno = 0;
  value = 0;
  payload = [];
  endpoints = [];
  revents = 1 ∷ 1 ∷ [];
}

abbrev answer_to : Call → Answer
answer_to (receive_from fd size) = record plain { result = pos 0 }
answer_to (accept_on fd) = record plain { result = negsuc 0; errno = 11 }
answer_to _ = plain

abbrev closing_peer : Environment ℕ
closing_peer world call = (answer_to call, world)

abbrev listener : Listener
listener = record { socket = record { fd = pos 3 }; address = codes "::1"; port = 5555 }

abbrev one_client : TcpReceiver
one_client = record {
  listener = listener;
  clients = record { socket = record { fd = pos 4 }; reader = new_reader 100 } ∷ [];
  dropped = 0;
}

abbrev idle : Machine ℕ
idle = record { world = 0; errno = 0; trace = [] }

abbrev calls_made : List Call
calls_made =
    accept_on (pos 3)
    ∷ close_fd (pos 4)
    ∷ receive_from (pos 4) 4096
    ∷ poll_for (pos 3 ∷ pos 4 ∷ []) false (pos 10)
    ∷ []

abbrev after_calls : Machine ℕ
after_calls = record {
  world = 0;
  errno = 11;
  trace = map (λ call. (call, answer_to call)) calls_made;
}

abbrev left_alone : Received TcpReceiver
left_alone = record {
  ok = true;
  ec = clear;
  lines = [];
  receiver = record one_client { clients = [] };
}

client_leaves :
    receive closing_peer 2 one_client [] (pos 10) clear idle ≡ some (left_alone, after_calls)
unfolding receive wait_for_input after_wait serve read_clients read_client has_event read after_read
    reset accept_clients descriptors to_int
client_leaves = refl

receive-Balanced_example :
    (length left_alone.receiver.clients ≤ max_clients)
    × Balanced (held one_client.clients) idle (held left_alone.receiver.clients) after_calls
receive-Balanced_example =
    receive-Balanced closing_peer 2 one_client [] (pos 10) clear left_alone idle after_calls
      client_leaves (omega arith)

-- A network that takes a datagram of three bytes, and gives one.
abbrev on_wire : Call → Answer
on_wire (send_to fd frame) = record plain { result = pos (length frame) }
on_wire (receive_from fd size) = record plain { result = pos 3; payload = codes "hi\n" }
on_wire _ = plain

abbrev wire : Environment ℕ
wire world call = (on_wire call, world)

abbrev udp_sink : UdpSink
udp_sink = record { socket = record { fd = pos 6 } }

abbrev udp_receiver : UdpReceiver
udp_receiver = record { listener = listener }

udp_delivery_example :
    (UdpSink.write_line wire 1 udp_sink (codes "hi") clear idle
      ≡ some (
        (true, clear),
        answered idle (sending udp_sink (codes "hi")) (wire 0 (sending udp_sink (codes "hi"))),
      ))
    × ((m' : Machine ℕ) × (UdpReceiver.receive wire udp_receiver [] (pos 10) clear idle
          ≡ some (
            record { ok = true; ec = clear; lines = codes "hi" ∷ []; receiver = udp_receiver },
            m',
          )))
udp_delivery_example =
    udp_delivery wire 0 udp_sink (codes "hi") idle udp_receiver [] (pos 10) clear 0 idle
      (omega arith) refl refl refl refl
