-- ===== src/Logger/Net/Tests.antt =====
-- The theorems on the sinks that write to a socket, at concrete inputs.
use loggerlib.Common.Net.Descriptors.{owned, Balanced}
use loggerlib.Common.Errors.{errno_error}
use loggerlib.Common.Net.Machine.{send_to, Answer, Environment, Machine, answered}
use loggerlib.Common.Net.Socket.{valid}
use loggerlib.Logger.Net.TcpSink.{
  TcpSink, new_sink, default_settings, write_line, ensure_connected, send_frame, send_loop,
  after_send, sending_of,
}
use loggerlib.Logger.Net.TcpSink.Sockets.{write_line-Balanced}
use loggerlib.Prelude.Int.{pos}
use loggerlib.Prelude.{true, ℕ, ◌≡◌, refl, some, [], ◌∷◌}

-- A system on which each call answers zero, and the clock stands still.
abbrev still : Answer
still = record { result = pos 0; errno = 0; value = 0; payload = []; endpoints = []; revents = [] }

abbrev quiet : Environment ℕ
quiet world call = (still, world)

abbrev idle : Machine ℕ
idle = record { world = 0; errno = 0; trace = [] }

-- A sink without a connection, the next attempt of which is nine nanoseconds away.
abbrev paused : TcpSink
paused = record (new_sink (b'h' ∷ []) 80 default_settings) {
  next_attempt = 9;
  last_error = errno_error 111;
}

-- A system that takes two bytes of each send, and a sink that owns descriptor 3.
abbrev two : Answer
two = record still { result = pos 2 }

abbrev taking : Environment ℕ
taking world call = (two, world)

abbrev busy : TcpSink
busy = record paused { socket = record { fd = pos 3 } }

abbrev after_line : Machine ℕ
after_line = answered idle (send_to (pos 3) (b'x' ∷ b'\n' ∷ [])) (two, 0)

busy_run :
    write_line taking 3 busy (b'x' ∷ []) (errno_error 0) idle
    ≡ some (record { ok = true; ec = errno_error 0; sink = busy }, after_line)
unfolding write_line ensure_connected valid send_frame send_loop after_send sending_of
busy_run = refl

write_line-Balanced_example : Balanced (owned busy.socket) idle (owned busy.socket) after_line
write_line-Balanced_example =
    write_line-Balanced taking 3 busy (b'x' ∷ []) (errno_error 0)
      (record { ok = true; ec = errno_error 0; sink = busy }) idle after_line busy_run
