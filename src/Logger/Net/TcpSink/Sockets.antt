-- ===== src/Logger/Net/TcpSink/Sockets.antt =====
-- The descriptors of a TCP sink, logger/src/net/TcpSink.cpp.
use loggerlib.Logger.Net.TcpSink.Attempts.{wait_ready-Balanced, connect_any-Balanced}
use loggerlib.Common.Net.Address.{sock_stream, resolve}
use loggerlib.Common.Errors.{is_error, ErrorCode}
use loggerlib.Prelude.Int.{ℤ}
use loggerlib.Common.Net.Descriptors.{Balanced, closes, owned, opens}
use loggerlib.Logger.Net.TcpSink.{
  new_sink, partly, again, full, broken, broken, partly, Sending, reconnect, sending_of, give_up,
  send_frame, after_send, drop, Option, write_line, open_tcp_sink, Bytes, refresh, connect,
  send_loop, resolve, ensure_connected, Written, note_success, TcpSink, ErrorCode, List,
  note_failure, connect_any, note_result, ℤ, TcpSettings, wait_ready,
}
use loggerlib.Common.Net.Socket.{reset}
use loggerlib.Common.Net.Machine.{
  ◌>>◌, M, send_to, read_clock, ◌>>=◌, >>=-eq-some, Endpoint, Environment, Machine, pure, answered,
}
use loggerlib.Prelude.{
  none, some, ◌++◌, ap, drop, Option, Bytes, List, ℕ, zero, suc, ◌≡◌, inl, inr, Bool, some, [], ◌∷◌,
  arith, if◌then◌else◌, Bool-cases,
}

-- What the sink owns that `openTcpSink` returns.
abbrev pub owned_by : Option TcpSink → ℕ
owned_by none = 0
owned_by (some sink) = owned sink.socket

module _ {W : Type 0} (environment : Environment W) (patience : ℕ) where
  note_failure-Balanced :
      (ec : ErrorCode) (sink sink' : TcpSink) (m m' : Machine W)
      → note_failure environment patience ec sink m ≡ some (sink', m')
      → Balanced 0 m 0 m' × (sink'.socket ≡ sink.socket)
  unfolding note_failure opens closes
  note_failure-Balanced ec sink sink' m m' h = ground arith

  note_result-Balanced :
      (found w : Written) (m m' : Machine W)
      → note_result environment patience found m ≡ some (w, m')
      → Balanced (owned found.sink.socket) m (owned w.sink.socket) m'
  unfolding note_result note_success note_failure opens closes
  note_result-Balanced found w m m' h = ground arith

  resolve-Balanced :
      (host : Bytes) (port socktype flags : ℕ) (found : List Endpoint × ErrorCode)
      (m m' : Machine W)
      → resolve environment host port socktype flags m ≡ some (found, m')
      → Balanced 0 m 0 m'
  unfolding resolve opens closes
  resolve-Balanced host port socktype flags found m m' h = ground arith

  refresh-Balanced :
      (sink fresh : TcpSink) (m m' : Machine W)
      → refresh environment patience sink m ≡ some (fresh, m')
      → Balanced 0 m 0 m' × (fresh.socket ≡ sink.socket)
  unfolding refresh resolve opens closes
  refresh-Balanced sink fresh m m' h = ground arith

  attempt-Balanced :
      (sink : TcpSink) (w : Written) (m m' : Machine W)
      → (connect_any environment patience sink >>= note_result environment patience) m
        ≡ some (w, m')
      → Balanced (owned sink.socket) m (owned w.sink.socket) m'
  attempt-Balanced sink w m m' h =
      let (found, between, tried, after) =
        >>=-eq-some (connect_any environment patience sink) (note_result environment patience) m
          h in
      let even = connect_any-Balanced environment patience sink found m between tried in
      let rest = note_result-Balanced found w between m' after in omega arith

  connect-Balanced :
      (sink : TcpSink) (w : Written) (m m' : Machine W)
      → connect environment patience sink m ≡ some (w, m')
      → Balanced (owned sink.socket) m (owned w.sink.socket) m'
  unfolding connect
  connect-Balanced sink w m m' h =
      let (found, between, asked, after) =
        >>=-eq-some (resolve environment sink.host sink.port sock_stream 0) _ m h in
      let even = resolve-Balanced sink.host sink.port sock_stream 0 found m between asked in
      elim (Bool-cases (is_error found.1)) [
        | inl bad ↦ ground arith
        | inr good ↦
            let rest =
              attempt-Balanced (record sink { endpoints = found.0 }) w between m' (ground arith) in
            omega arith
      ]

  reconnect-Balanced :
      (sink : TcpSink) (w : Written) (m m' : Machine W)
      → reconnect environment patience sink m ≡ some (w, m')
      → Balanced (owned sink.socket) m (owned w.sink.socket) m'
  unfolding reconnect
  reconnect-Balanced sink w m m' h =
      let (fresh, between, asked, after) = >>=-eq-some (refresh environment patience sink) _ m h in
      let (even, same) = refresh-Balanced sink fresh m between asked in
      let rest = attempt-Balanced fresh w between m' after in
      let kept = ap owned same in omega arith

  ensure_connected-Balanced :
      (sink : TcpSink) (ec : ErrorCode) (w : Written) (m m' : Machine W)
      → ensure_connected environment patience sink ec m ≡ some (w, m')
      → Balanced (owned sink.socket) m (owned w.sink.socket) m'
  unfolding ensure_connected opens closes
  ensure_connected-Balanced sink ec w m m' h =
      ground (
        arith,
        reconnect-Balanced sink w (answered m read_clock (environment m.world read_clock)) m',
      )

  after_send-Balanced :
      (resume : Bytes → M W (Bool × ErrorCode))
      → ((rest : Bytes) (sent : Bool × ErrorCode) (m m' : Machine W)
          → resume rest m ≡ some (sent, m')
          → Balanced 0 m 0 m')
      → (settings : TcpSettings) (fd : ℤ) (rest : Bytes) (sending : Sending)
        (sent : Bool × ErrorCode) (m m' : Machine W)
      → after_send environment patience resume settings fd rest sending m ≡ some (sent, m')
      → Balanced 0 m 0 m'
  unfolding after_send
  after_send-Balanced resume even settings fd rest (partly n) sent m m' h =
      even (drop n rest) sent m m' h
  after_send-Balanced resume even settings fd rest again sent m m' h = even rest sent m m' h
  after_send-Balanced resume even settings fd rest (broken ec) sent m m' h = ground arith
  after_send-Balanced resume even settings fd rest full sent m m' h =
      let (ready, between, waited, after) =
        >>=-eq-some (wait_ready environment patience patience fd settings.send_timeout) _ m h in
      let first =
        wait_ready-Balanced environment patience patience fd settings.send_timeout ready m between
          waited in
      elim (Bool-cases ready) [
        | inl more ↦ let last = even rest sent between m' (ground arith) in omega arith
        | inr late ↦ ground arith
      ]

  send_loop-Balanced :
      (fuel : ℕ) (settings : TcpSettings) (fd : ℤ) (rest : Bytes) (ec : ErrorCode)
      (sent : Bool × ErrorCode) (m m' : Machine W)
      → send_loop environment patience fuel settings fd rest ec m ≡ some (sent, m')
      → Balanced 0 m 0 m'
  unfolding send_loop opens closes
  send_loop-Balanced zero settings fd rest ec sent m m' h = absurd (ground arith)
  send_loop-Balanced (suc fuel) settings fd [] ec sent m m' h = ground arith
  send_loop-Balanced (suc fuel) settings fd (c ∷ rest) ec sent m m' h =
      let call = send_to fd (c ∷ rest) in
      let done = environment m.world call in
      let next = answered (record m { errno = 0 }) call done in
      let even =
        after_send-Balanced (λ left. send_loop environment patience fuel settings fd left ec)
          (λ left sent m m' h. send_loop-Balanced fuel settings fd left ec sent m m' h) settings fd
          (c ∷ rest) (sending_of done.0.result next.errno) sent next m' h in
      omega arith

  close_and_note-Balanced :
      (w w' : Written) (ec : ErrorCode) (m m' : Machine W)
      → give_up environment patience w ec m ≡ some (w', m')
      → Balanced (owned w.sink.socket) m (owned w'.sink.socket) m'
  unfolding give_up note_failure reset opens closes owned
  close_and_note-Balanced w w' ec m m' h = ground arith

  send_frame-Balanced :
      (first : Written) (line : Bytes) (w : Written) (m m' : Machine W)
      → send_frame environment patience first line m ≡ some (w, m')
      → Balanced (owned first.sink.socket) m (owned w.sink.socket) m'
  unfolding send_frame
  send_frame-Balanced first line w m m' h =
      let fd = first.sink.socket.fd in
      let (sent, between, done, after) =
        >>=-eq-some
          (send_loop environment patience patience first.sink.settings fd (line ++ b'\n' ∷ [])
            first.ec)
          _ m h in
      let even =
        send_loop-Balanced patience first.sink.settings fd (line ++ b'\n' ∷ []) first.ec sent m
          between done in
      elim (Bool-cases sent.0) [
        | inl all ↦ ground arith
        | inr part ↦
            let rest = close_and_note-Balanced first w sent.1 between m' (ground arith) in
            omega arith
      ]

  -- In a call of `writeLine` that comes to an end, as many descriptors are closed, or owned by the
  -- sink after it, as are opened in it, or owned by the sink before it, whatever the system answers.
  pub write_line-Balanced :
      (sink : TcpSink) (line : Bytes) (ec : ErrorCode) (w : Written) (m m' : Machine W)
      → write_line environment patience sink line ec m ≡ some (w, m')
      → Balanced (owned sink.socket) m (owned w.sink.socket) m'
  unfolding write_line
  write_line-Balanced sink line ec w m m' h =
      let (first, between, ensured, after) =
        >>=-eq-some (ensure_connected environment patience sink ec) _ m h in
      let even = ensure_connected-Balanced sink ec first m between ensured in
      elim (Bool-cases first.ok) [
        | inr bad ↦ ground arith
        | inl good ↦
            let rest = send_frame-Balanced first line w between m' (ground arith) in omega arith
      ]

  kept :
      (w : Written) (found : Option TcpSink × ErrorCode) (before m m' : Machine W)
      → (if w.ok
            then pure (some w.sink, w.ec)
            else (reset environment w.sink.socket >> pure (none, w.ec)))
          m
        ≡ some (found, m')
      → Balanced 0 before (owned w.sink.socket) m
      → Balanced 0 before (owned_by found.0) m'
  unfolding reset opens closes owned
  kept w found before m m' h even = ground arith

  -- The same for `openTcpSink`, with nothing owned before, and nothing after a failure.
  pub open_tcp_sink-Balanced :
      (host : Bytes) (port : ℕ) (settings : TcpSettings) (found : Option TcpSink × ErrorCode)
      (m m' : Machine W)
      → open_tcp_sink environment patience host port settings m ≡ some (found, m')
      → Balanced 0 m (owned_by found.0) m'
  unfolding open_tcp_sink owned reset opens closes
  open_tcp_sink-Balanced host port settings found m m' h =
      let (w, between, tried, after) =
        >>=-eq-some (connect environment patience (new_sink host port settings)) _ m h in
      let even = connect-Balanced (new_sink host port settings) w m between tried in
      kept w found m between m' after even
