-- ===== src/Logger/Net/TcpSink.antt =====
-- logger/src/net/TcpSink.hpp and logger/src/net/TcpSink.cpp: a connection that is made anew after a
-- failure. Times of the clock count nanoseconds, settings milliseconds. The frame that the class
-- keeps between calls is a local value here, since each call assigns it first.
pub mod Attempts
pub mod Sockets
use loggerlib.Common.Net.Address.{sock_stream, resolve}
use loggerlib.Prelude.Int.{pos_part, pos, ltb_ℤ, eq_ℤ, ℤ}
use loggerlib.Common.Errors.{
  generic, is_error, clear, errno_error, ErrorCode, host_unreachable, timed_out,
}
use loggerlib.Common.Net.Socket.{Socket, no_socket, valid, reset, assign, set_non_blocking}
use loggerlib.Common.Net.Machine.{
  Endpoint, open_socket, connect_to, pending_error, poll_for, send_to, read_clock, Environment, M,
  pure, out_of_fuel, ◌>>=◌, ◌>>◌, is_negative, set_errno, get_errno, perform, eintr, eagain,
  einprogress,
}
use loggerlib.Prelude.{
  ℕ, zero, suc, ◌+◌, ◌*◌, ◌%◌, ◌^◌, min, Bool, true, false, not, ◌&&◌, Option, none, some, List, [],
  ◌∷◌, ◌++◌, Bytes, drop, ltb, ◌==◌, if◌then◌else◌,
}

pub record TcpSettings : Type 0 where
  pub connect_timeout : ℕ
  pub send_timeout : ℕ
  pub initial_cooldown : ℕ
  pub max_cooldown : ℕ
  pub resolve_every : ℕ

-- `STcpSettings{}`
abbrev pub default_settings : TcpSettings
default_settings = record {
  connect_timeout = 2000;
  send_timeout = 2000;
  initial_cooldown = 50;
  max_cooldown = 1000;
  resolve_every = 5;
}

pub record TcpSink : Type 0 where
  pub host : Bytes
  pub port : ℕ
  pub settings : TcpSettings
  pub endpoints : List Endpoint
  pub socket : Socket
  pub last_error : ErrorCode
  pub next_attempt : ℕ
  pub cooldown : ℕ
  pub failures : ℕ

abbrev pub new_sink : Bytes → ℕ → TcpSettings → TcpSink
new_sink host port settings = record {
  host = host;
  port = port;
  settings = settings;
  endpoints = [];
  socket = no_socket;
  last_error = clear;
  next_attempt = 0;
  cooldown = settings.initial_cooldown;
  failures = 0;
}

-- What one endpoint gives: the connected socket, or the reason why not.
pub data Attempt : Type 0 where
  connected : Socket → Attempt
  failed : ErrorCode → Attempt

abbrev pub nanos_per_milli : ℕ
nanos_per_milli = 1_000_000

-- What a call leaves: its result, `ec`, and the sink.
pub record Written : Type 0 where
  pub ok : Bool
  pub ec : ErrorCode
  pub sink : TcpSink

abbrev pub after_failure : ErrorCode → ℕ → TcpSink → TcpSink
after_failure ec now sink = record sink {
  last_error = ec;
  failures = (sink.failures + 1) % 2 ^ 32;
  next_attempt = now + sink.cooldown * nanos_per_milli;
  cooldown = min (sink.cooldown * 2) sink.settings.max_cooldown;
}

unfoldable pub note_success : TcpSink → TcpSink
note_success sink = record sink {
  last_error = clear;
  failures = 0;
  cooldown = sink.settings.initial_cooldown;
  next_attempt = 0;
}

-- What a call of `send` says: some bytes are sent, a signal came, the buffer is full, or it failed.
pub data Sending : Type 0 where
  partly : ℕ → Sending
  again : Sending
  full : Sending
  broken : ErrorCode → Sending

unfoldable pub sending_of : ℤ → ℕ → Sending
sending_of result errno =
    if ltb_ℤ (pos 0) result
    then partly (pos_part result)
    else if errno == eintr
    then again
    else if errno == eagain
    then full
    else broken (errno_error errno)

-- The loops that wait out a signal run on fuel.
module _ {W : Type 0} (environment : Environment W) (patience : ℕ) where
  -- A call that a signal interrupts is made again.
  unfoldable pub wait_ready : ℕ → ℤ → ℕ → M W Bool
  wait_ready zero fd timeout = out_of_fuel
  wait_ready (suc fuel) fd timeout = do
    ready ← perform environment (poll_for (fd ∷ []) true (pos timeout))
    errno ← get_errno
    (elim (is_negative ready.result && errno == eintr) [
      | true ↦ wait_ready fuel fd timeout
      | false ↦ pure (ltb_ℤ (pos 0) ready.result)
    ])

  -- The end of the scope of a socket, which closes it.
  abbrev drop_socket : Socket → ErrorCode → M W Attempt
  drop_socket socket ec = do reset environment socket; pure (failed ec)

  abbrev drop_errno : Socket → M W Attempt
  drop_errno socket = do errno ← get_errno; drop_socket socket (errno_error errno)

  -- The pending error of a connection that was waited for.
  unfoldable pub check_pending : Socket → M W Attempt
  check_pending socket = do
    pending ← perform environment (pending_error socket.fd)
    (if not (eq_ℤ pending.result (pos 0))
        then drop_errno socket
        else if not (pending.value == 0)
        then drop_socket socket (generic pending.value)
        else pure (connected socket))

  unfoldable pub await_connection : TcpSettings → Socket → M W Attempt
  await_connection settings socket = do
    ready ← wait_ready patience socket.fd settings.connect_timeout
    (if not ready then drop_socket socket timed_out else check_pending socket)

  unfoldable pub start_connection : TcpSettings → Socket → Endpoint → M W Attempt
  start_connection settings socket endpoint = do
    set_errno 0
    answer ← perform environment (connect_to socket.fd endpoint)
    (if eq_ℤ answer.result (pos 0) then pure (connected socket) else (do
      errno ← get_errno
      (if not (errno == einprogress)
          then drop_socket socket (errno_error errno)
          else await_connection settings socket)))

  unfoldable pub try_endpoint : TcpSettings → Endpoint → M W Attempt
  try_endpoint settings endpoint = do
    set_errno 0
    opened ← perform environment (open_socket endpoint)
    let socket : Socket = record { fd = opened.result }
    ready ← (if valid socket then set_non_blocking environment socket else pure false)
    (if not ready then drop_errno socket else start_connection settings socket endpoint)

  -- The loop of `connectAny` over the endpoints, with the reason so far.
  unfoldable pub try_endpoints : List Endpoint → ErrorCode → TcpSink → M W Written
  try_endpoints [] ec sink = pure (record { ok = false; ec = ec; sink = sink })
  try_endpoints (endpoint ∷ rest) ec sink = do
    attempt ← try_endpoint sink.settings endpoint
    (elim attempt [
      | failed reason ↦ try_endpoints rest reason sink
      | connected socket ↦ do
        owned ← assign environment sink.socket socket
        pure (record { ok = true; ec = clear; sink = record sink { socket = owned.0 } })
    ])

  unfoldable pub connect_any : TcpSink → M W Written
  connect_any sink = try_endpoints sink.endpoints host_unreachable sink

  unfoldable pub note_failure : ErrorCode → TcpSink → M W TcpSink
  note_failure ec sink = do
    now ← perform environment read_clock
    pure (after_failure ec now.value sink)

  -- What `connect` and `ensureConnected` do with the result of `connectAny`.
  unfoldable pub note_result : Written → M W Written
  note_result w =
      if w.ok
      then pure (record w { sink = note_success w.sink })
      else (do sink ← note_failure w.ec w.sink; pure (record w { sink = sink }))

  unfoldable pub connect : TcpSink → M W Written
  connect sink = do
    found ← resolve environment sink.host sink.port sock_stream 0
    let fresh : TcpSink = record sink { endpoints = found.0 }
    (if is_error found.1
        then pure (record { ok = false; ec = found.1; sink = fresh })
        else (do w ← connect_any fresh; note_result w))

  -- Now and then the name is resolved again; a failure to do so leaves the endpoints.
  unfoldable pub refresh : TcpSink → M W TcpSink
  refresh sink =
      if ltb 0 sink.settings.resolve_every && sink.failures % sink.settings.resolve_every == 0
      then (do
        found ← resolve environment sink.host sink.port sock_stream 0
        pure (if not (is_error found.1) then record sink { endpoints = found.0 } else sink))
      else pure sink

  -- The attempt that `ensureConnected` makes when it is due.
  unfoldable pub reconnect : TcpSink → M W Written
  reconnect sink = do fresh ← refresh sink; w ← connect_any fresh; note_result w

  unfoldable pub ensure_connected : TcpSink → ErrorCode → M W Written
  ensure_connected sink ec =
      if valid sink.socket then pure (record { ok = true; ec = ec; sink = sink }) else (do
        now ← perform environment read_clock
        (if ltb now.value sink.next_attempt
            then pure (record { ok = false; ec = sink.last_error; sink = sink })
            else reconnect sink))

  -- One round of the loop of `sendAll` after the call of `send`; `resume` is the next round.
  unfoldable pub after_send :
      (Bytes → M W (Bool × ErrorCode)) → TcpSettings → ℤ → Bytes → Sending → M W (Bool × ErrorCode)
  after_send resume settings fd rest (partly n) = resume (drop n rest)
  after_send resume settings fd rest again = resume rest
  after_send resume settings fd rest full = do
    ready ← wait_ready patience fd settings.send_timeout
    (if ready then resume rest else pure (false, timed_out))
  after_send resume settings fd rest (broken ec) = pure (false, ec)

  -- The loop of `sendAll`: the bytes are what is not sent yet.
  unfoldable pub send_loop : ℕ → TcpSettings → ℤ → Bytes → ErrorCode → M W (Bool × ErrorCode)
  send_loop zero settings fd rest ec = out_of_fuel
  send_loop (suc fuel) settings fd [] ec = pure (true, ec)
  send_loop (suc fuel) settings fd (c ∷ rest) ec = do
    set_errno 0
    written ← perform environment (send_to fd (c ∷ rest))
    errno ← get_errno
    after_send (λ left. send_loop fuel settings fd left ec) settings fd (c ∷ rest)
        (sending_of written.result errno)

  -- A frame that is not sent whole: the connection is closed.
  unfoldable pub give_up : Written → ErrorCode → M W Written
  give_up w ec = do
    closed ← reset environment w.sink.socket
    sink ← note_failure ec (record w.sink { socket = closed })
    pure (record { ok = false; ec = ec; sink = sink })

  unfoldable pub send_frame : Written → Bytes → M W Written
  send_frame w line = do
    sent ← send_loop patience w.sink.settings w.sink.socket.fd (line ++ b'\n' ∷ []) w.ec
    (if sent.0 then pure (record w { ec = sent.1 }) else give_up w sent.1)

  unfoldable pub write_line : TcpSink → Bytes → ErrorCode → M W Written
  write_line sink line ec = do
    w ← ensure_connected sink ec
    (if not w.ok then pure w else send_frame w line)

  -- `openTcpSink`, with the sink where the code returns it. Where it returns the null pointer, the
  -- sink is destroyed, and its socket with it.
  unfoldable pub open_tcp_sink : Bytes → ℕ → TcpSettings → M W (Option TcpSink × ErrorCode)
  open_tcp_sink host port settings = do
    w ← connect (new_sink host port settings)
    (if w.ok
        then pure (some w.sink, w.ec)
        else (do reset environment w.sink.socket; pure (none, w.ec)))
