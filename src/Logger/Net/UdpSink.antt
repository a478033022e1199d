-- ===== src/Logger/Net/UdpSink.antt =====
-- logger/src/net/UdpSink.hpp and logger/src/net/UdpSink.cpp: one record to a datagram.
use loggerlib.Common.Net.Address.{sock_dgram, resolve}
use loggerlib.Common.Errors.{
  host_unreachable, message_size, clear, is_error, errno_error, ErrorCode,
}
use loggerlib.Prelude.Int.{pos, eq_ℤ, ℤ}
use loggerlib.Common.Net.Socket.{Socket, valid, reset}
use loggerlib.Common.Net.Machine.{
  Endpoint, open_socket, connect_to, send_to, Environment, M, pure, out_of_fuel, ◌>>=◌, ◌>>◌,
  is_negative, set_errno, get_errno, perform, eintr,
}
use loggerlib.Prelude.{
  ℕ, zero, suc, ◌+◌, Bool, true, false, ◌&&◌, Option, none, some, List, [], ◌∷◌, ◌++◌, Bytes,
  length, ◌==◌, if◌then◌else◌,
}

pub record UdpSink : Type 0 where
  pub socket : Socket

-- What `writeLine` makes of the result of `send` for a frame of the given size.
unfoldable pub sent_whole : ℤ → ℕ → ℕ → ErrorCode → Bool × ErrorCode
sent_whole sent errno size ec =
    if eq_ℤ sent (pos size)
    then (true, ec)
    else if is_negative sent
    then (false, errno_error errno)
    else (false, message_size)

module _ {W : Type 0} (environment : Environment W) (patience : ℕ) where
  -- A call that a signal interrupts is made again.
  unfoldable pub send_datagram : ℕ → ℤ → Bytes → M W ℤ
  send_datagram zero fd frame = out_of_fuel
  send_datagram (suc fuel) fd frame = do
    sent ← perform environment (send_to fd frame)
    errno ← get_errno
    (elim (is_negative sent.result && errno == eintr) [
      | true ↦ send_datagram fuel fd frame
      | false ↦ pure sent.result
    ])

  unfoldable pub write_line : UdpSink → Bytes → ErrorCode → M W (Bool × ErrorCode)
  write_line sink line ec = do
    sent ← send_datagram patience sink.socket.fd (line ++ b'\n' ∷ [])
    errno ← get_errno
    pure (sent_whole sent errno (length line + 1) ec)

  -- The loop over the endpoints; a socket that is not kept is closed.
  unfoldable pub fix_peer : List Endpoint → ErrorCode → M W (Option UdpSink × ErrorCode)
  fix_peer [] ec = pure (none, ec)
  fix_peer (endpoint ∷ rest) ec = do
    set_errno 0
    opened ← perform environment (open_socket endpoint)
    let socket : Socket = record { fd = opened.result }
    (elim (valid socket) [
      | false ↦ do errno ← get_errno; fix_peer rest (errno_error errno)
      | true ↦ do
        set_errno 0
        answer ← perform environment (connect_to socket.fd endpoint)
        errno ← get_errno
        (elim (eq_ℤ answer.result (pos 0)) [
          | true ↦ pure (some (record { socket = socket }), clear)
          | false ↦ do reset environment socket; fix_peer rest (errno_error errno)
        ])
    ])

  unfoldable pub open_udp_sink : Bytes → ℕ → M W (Option UdpSink × ErrorCode)
  open_udp_sink host port = do
    found ← resolve environment host port sock_dgram 0
    (if is_error found.1 then pure (none, found.1) else fix_peer found.0 host_unreachable)
