-- ===== src/Logger/Net/TcpSink/Attempts.antt =====
-- The descriptors of an attempt to connect, logger/src/net/TcpSink.cpp.
use loggerlib.Common.Errors.{host_unreachable, ErrorCode}
use loggerlib.Prelude.Int.{pos, ℤ}
use loggerlib.Common.Net.Descriptors.{set_non_blocking-Balanced, Balanced, closes, owned, opens}
use loggerlib.Logger.Net.TcpSink.{
  Written, TcpSink, ErrorCode, List, try_endpoints, connect_any, drop_errno, start_connection,
  try_endpoint, pos, failed, ℤ, TcpSettings, connected, Attempt, check_pending, await_connection,
  wait_ready,
}
use loggerlib.Common.Net.Socket.{assign, Socket, valid, reset, set_non_blocking}
use loggerlib.Common.Net.Machine.{
  >>=-eq-some, Endpoint, open_socket, connect_to, poll_for, Environment, Machine, pure, answered,
}
use loggerlib.Prelude.{
  some, refl, ◌⊎◌, List, ℕ, zero, suc, ◌≡◌, inl, inr, Bool, true, false, some, [], ◌∷◌, arith,
  if◌then◌else◌, Bool-cases,
}

-- What an attempt owns.
unfoldable pub holds_after : Attempt → ℕ
holds_after (connected socket) = owned socket
holds_after (failed ec) = 0

Attempt-cases :
    (attempt : Attempt)
    → ((ec : ErrorCode) × (attempt ≡ failed ec))
      ⊎ ((socket : Socket) × (attempt ≡ connected socket))
Attempt-cases (failed ec) = inl (ec, refl)
Attempt-cases (connected socket) = inr (socket, refl)

module _ {W : Type 0} (environment : Environment W) (patience : ℕ) where
  pub wait_ready-Balanced :
      (fuel : ℕ) (fd : ℤ) (timeout : ℕ) (ready : Bool) (m m' : Machine W)
      → wait_ready environment patience fuel fd timeout m ≡ some (ready, m')
      → Balanced 0 m 0 m'
  unfolding wait_ready opens closes
  wait_ready-Balanced zero fd timeout ready m m' h = absurd (ground arith)
  wait_ready-Balanced (suc fuel) fd timeout ready m m' h =
      let call = poll_for (fd ∷ []) true (pos timeout) in
      ground (
        arith,
        wait_ready-Balanced fuel fd timeout ready (answered m call (environment m.world call)) m',
      )

  check_pending-Balanced :
      (socket : Socket) (attempt : Attempt) (m m' : Machine W)
      → check_pending environment patience socket m ≡ some (attempt, m')
      → Balanced (owned socket) m (holds_after attempt) m'
  unfolding check_pending opens closes owned holds_after reset
  check_pending-Balanced socket attempt m m' h = ground arith

  await_connection-Balanced :
      (settings : TcpSettings) (socket : Socket) (attempt : Attempt) (m m' : Machine W)
      → await_connection environment patience settings socket m ≡ some (attempt, m')
      → Balanced (owned socket) m (holds_after attempt) m'
  unfolding await_connection holds_after opens closes owned reset
  await_connection-Balanced settings socket attempt m m' h =
      let (ready, between, waited, after) =
        >>=-eq-some (wait_ready environment patience patience socket.fd settings.connect_timeout) _
          m h in
      let even =
        wait_ready-Balanced patience socket.fd settings.connect_timeout ready m between waited in
      elim (Bool-cases ready) [
        | inl good ↦
            let rest = check_pending-Balanced socket attempt between m' (ground arith) in
            omega arith
        | inr bad ↦ ground arith
      ]

  start_connection-Balanced :
      (settings : TcpSettings) (socket : Socket) (endpoint : Endpoint) (attempt : Attempt)
      (m m' : Machine W)
      → start_connection environment patience settings socket endpoint m ≡ some (attempt, m')
      → Balanced (owned socket) m (holds_after attempt) m'
  unfolding start_connection holds_after opens closes owned reset
  start_connection-Balanced settings socket endpoint attempt m m' h =
      let call = connect_to socket.fd endpoint in
      let start = record m { errno = 0 } in
      ground (
        arith,
        await_connection-Balanced settings socket attempt
            (answered start call (environment m.world call)) m',
      )

  -- What the end of `try_endpoint` does once the mode of the socket is set, or not.
  drop_errno-Balanced :
      (socket : Socket) (attempt : Attempt) (m m' : Machine W)
      → drop_errno environment patience socket m ≡ some (attempt, m')
      → Balanced (owned socket) m (holds_after attempt) m'
  unfolding holds_after opens closes owned reset
  drop_errno-Balanced socket attempt m m' h = ground arith

  quick_mode-Balanced :
      (socket : Socket) (ready : Bool) (m m' : Machine W)
      → (if valid socket then set_non_blocking environment socket else pure false) m
        ≡ some (ready, m')
      → Balanced 0 m 0 m'
  quick_mode-Balanced socket ready m m' h = elim (Bool-cases (valid socket)) [
    | inl good ↦ set_non_blocking-Balanced environment socket ready m m' (ground arith)
    | inr bad ↦ ground arith
  ]

  try_endpoint-Balanced :
      (settings : TcpSettings) (endpoint : Endpoint) (attempt : Attempt) (m m' : Machine W)
      → try_endpoint environment patience settings endpoint m ≡ some (attempt, m')
      → Balanced 0 m (holds_after attempt) m'
  unfolding try_endpoint opens closes owned
  try_endpoint-Balanced settings endpoint attempt m m' h =
      let start = record m { errno = 0 } in
      let call = open_socket endpoint in
      let opened = answered start call (environment m.world call) in
      let socket : Socket = record { fd = (environment m.world call).0.result } in
      let (ready, between, quick, after) =
        >>=-eq-some (if valid socket then set_non_blocking environment socket else pure false) _
          opened h in
      let even = quick_mode-Balanced socket ready opened between quick in
      elim (Bool-cases ready) [
        | inl good ↦
            let rest =
              start_connection-Balanced settings socket endpoint attempt between m'
                (ground arith) in
            ground arith
        | inr bad ↦
            let rest = drop_errno-Balanced socket attempt between m' (ground arith) in ground arith
      ]

  try_endpoints-Balanced :
      (endpoints : List Endpoint) (ec : ErrorCode) (sink : TcpSink) (w : Written) (m m' : Machine W)
      → try_endpoints environment patience endpoints ec sink m ≡ some (w, m')
      → Balanced (owned sink.socket) m (owned w.sink.socket) m'
  unfolding try_endpoints holds_after assign opens closes owned
  try_endpoints-Balanced [] ec sink w m m' h = ground arith
  try_endpoints-Balanced (endpoint ∷ rest) ec sink w m m' h =
      let (attempt, between, tried, after) =
        >>=-eq-some (try_endpoint environment patience sink.settings endpoint) _ m h in
      let even = try_endpoint-Balanced sink.settings endpoint attempt m between tried in
      elim (Attempt-cases attempt) [
        | inl (reason, e) ↦
            let rest_even = try_endpoints-Balanced rest reason sink w between m' (ground arith) in
            ground arith
        | inr (socket, e) ↦ ground arith
      ]

  pub connect_any-Balanced :
      (sink : TcpSink) (w : Written) (m m' : Machine W)
      → connect_any environment patience sink m ≡ some (w, m')
      → Balanced (owned sink.socket) m (owned w.sink.socket) m'
  unfolding connect_any
  connect_any-Balanced sink w m m' h =
      try_endpoints-Balanced sink.endpoints host_unreachable sink w m m' h
