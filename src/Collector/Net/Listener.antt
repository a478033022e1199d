-- ===== src/Collector/Net/Listener.antt =====
-- collector/core/net/Listener.hpp and Listener.cpp: a socket bound to the first endpoint that takes it.
use loggerlib.Prelude.Int.{pos, eq_ℤ}
use loggerlib.Common.Net.Address.{local_port, ai_passive, local_address, resolve}
use loggerlib.Common.Net.Socket.{set_non_blocking, valid, reset, Socket}
use loggerlib.Common.Errors.{address_not_available, is_error, clear, errno_error, ErrorCode}
use loggerlib.Common.Net.Machine.{
  Endpoint, open_socket, reuse_address, bind_to, listen_on, Environment, M, pure, ◌>>=◌, ◌>>◌,
  set_errno, get_errno, perform,
}
use loggerlib.Prelude.{
  ℕ, Bool, true, false, not, Option, none, some, List, [], ◌∷◌, Bytes, ltb, if◌then◌else◌,
}

pub record Listener : Type 0 where
  pub socket : Socket
  pub address : Bytes
  pub port : ℕ

module _ {W : Type 0} (environment : Environment W) where
  -- `continue` with the last error; the socket of the round is closed at the end of its scope.
  unfoldable pub refuse : Socket → M W (Option Listener × ErrorCode)
  refuse socket = do errno ← get_errno; reset environment socket; pure (none, errno_error errno)

  -- The two names of a bound socket.
  unfoldable pub name_listener : Socket → M W (Option Listener × ErrorCode)
  name_listener socket = do
    address ← local_address environment socket.fd
    bound ← local_port environment socket.fd
    (elim address [
      | none ↦ refuse socket
      | some text ↦ elim bound [
        | none ↦ refuse socket
        | some port ↦ pure (some (record { socket = socket; address = text; port = port }), clear)
      ]
    ])

  unfoldable pub start_listening : Socket → ℕ → M W Bool
  start_listening socket backlog =
      if ltb 0 backlog
      then (do
        answer ← perform environment (listen_on socket.fd backlog)
        pure (eq_ℤ answer.result (pos 0)))
      else pure true

  unfoldable pub bind_socket : Socket → Endpoint → ℕ → M W (Option Listener × ErrorCode)
  bind_socket socket endpoint backlog = do
    perform environment (reuse_address socket.fd)
    set_errno 0
    answer ← perform environment (bind_to socket.fd endpoint)
    (if not (eq_ℤ answer.result (pos 0)) then refuse socket else (do
      listening ← start_listening socket backlog
      (if listening then name_listener socket else refuse socket)))

  -- One round of the loop over the endpoints.
  unfoldable pub bind_endpoint : Endpoint → ℕ → M W (Option Listener × ErrorCode)
  bind_endpoint endpoint backlog = do
    set_errno 0
    opened ← perform environment (open_socket endpoint)
    let socket : Socket = record { fd = opened.result }
    usable ← (if valid socket then set_non_blocking environment socket else pure false)
    (if usable then bind_socket socket endpoint backlog else refuse socket)

  unfoldable pub bind_first : List Endpoint → ℕ → ErrorCode → M W (Option Listener × ErrorCode)
  bind_first [] backlog ec = pure (none, ec)
  bind_first (endpoint ∷ rest) backlog ec = do
    bound ← bind_endpoint endpoint backlog
    (elim bound.0 [
      | none ↦ bind_first rest backlog bound.1
      | some listener ↦ pure (some listener, bound.1)
    ])

  unfoldable pub bind_listener :
      (host : Bytes) (port socktype backlog : ℕ) → M W (Option Listener × ErrorCode)
  bind_listener host port socktype backlog = do
    found ← resolve environment host port socktype ai_passive
    (if is_error found.1
        then pure (none, found.1)
        else bind_first found.0 backlog address_not_available)
