-- ===== src/Collector/Net/TcpReceiver.antt =====
-- collector/core/net/TcpReceiver.hpp and TcpReceiver.cpp: the connections of the senders, each with a
-- reader of its own.
pub mod Sockets
use loggerlib.Common.Net.Address.{sock_stream}
use loggerlib.Common.Net.Socket.{set_non_blocking, valid, reset, Socket}
use loggerlib.Prelude.Int.{eq_ℤ, pos_part, pos, ℤ, ltb_ℤ}
use loggerlib.Collector.LineReader.{default_limit, new_reader, feed, LineReader}
use loggerlib.Collector.Net.Listener.{bind_listener, Listener}
use loggerlib.Collector.Statistics.{word}
use loggerlib.Common.Errors.{ErrorCode}
use loggerlib.Collector.Net.Poll.{
  Waited, quiet, failed, ready, wait_for_input, pollin, Received, poll_any, has_event, revents_at,
}
use loggerlib.Common.Net.Machine.{
  accept_on, receive_from, Environment, M, pure, out_of_fuel, ◌>>=◌, ◌>>◌, set_errno, get_errno,
  perform, eintr, eagain,
}
use loggerlib.Prelude.{
  ℕ, zero, suc, ◌+◌, Bool, true, false, not, ◌&&◌, ◌||◌, Option, none, some, List, [], ◌∷◌, ◌++◌,
  map, Bytes, length, get_elem?, take, modify, ltb, ◌==◌, if◌then◌else◌,
}

-- `SClient`
pub record Client : Type 0 where
  pub socket : Socket
  pub reader : LineReader

pub record TcpReceiver : Type 0 where
  pub listener : Listener
  pub clients : List Client
  pub dropped : ℕ

-- `kMaxClients`, `kBacklog` and `kChunk`
abbrev pub max_clients : ℕ
max_clients = 16

abbrev pub tcp_backlog : ℕ
tcp_backlog = 8

abbrev pub chunk_size : ℕ
chunk_size = 4096

abbrev pub new_receiver : Listener → TcpReceiver
new_receiver listener = record { listener = listener; clients = []; dropped = 0 }

-- `clients.erase(clients.begin() + i)`
abbrev pub erase : {A : Type 0} → ℕ → List A → List A
erase i [] = []
erase zero (x ∷ xs) = xs
erase (suc i) (x ∷ xs) = x ∷ erase i xs

-- What a call of `read` leaves: its result, the client's reader, `lines`, and what is dropped.
pub record Reading : Type 0 where
  pub open_still : Bool
  pub reader : LineReader
  pub lines : List Bytes
  pub drops : ℕ

-- `return errno == EINTR || errno == EAGAIN || errno == EWOULDBLOCK;`
abbrev pub retried : ℕ → Bool
retried errno = errno == eintr || errno == eagain

-- What `poll` is given: the listener, and the clients behind it.
unfoldable pub descriptors : TcpReceiver → List ℤ
descriptors r = r.listener.socket.fd ∷ map (λ c. c.socket.fd) r.clients

module _ {W : Type 0} (environment : Environment W) where
  -- The payload of the answer is what `recv` writes to the buffer.
  unfoldable pub read : Client → List Bytes → M W Reading
  read client lines = do
    set_errno 0
    answer ← perform environment (receive_from client.socket.fd chunk_size)
    errno ← get_errno
    (if ltb_ℤ (pos 0) answer.result
        then elim (feed client.reader (take (pos_part answer.result) answer.payload) lines) [
          | none ↦ out_of_fuel
          | some fed ↦ pure (record {
            open_still = true;
            reader = fed.reader;
            lines = fed.lines;
            drops = if fed.complete then 0 else 1;
          })
        ]
        else pure (record {
          open_still = not (eq_ℤ answer.result (pos 0)) && retried errno;
          reader = client.reader;
          lines = lines;
          drops = 0;
        }))

  -- What is left of the receiver: the client that is closed for good is taken out, and its socket
  -- with it.
  unfoldable pub after_read : ℕ → Client → TcpReceiver → Reading → M W (TcpReceiver × List Bytes)
  after_read i client r reading =
      let dropped = word (r.dropped + reading.drops) in
      if reading.open_still
      then pure (
        record r {
          clients = modify i (λ c. record c { reader = reading.reader }) r.clients;
          dropped = dropped;
        },
        reading.lines,
      )
      else (do
        reset environment client.socket
        pure (record r { clients = erase i r.clients; dropped = dropped }, reading.lines))

  -- One round of the loop over the clients; the index is always in range.
  unfoldable pub read_client : ℕ → ℕ → TcpReceiver × List Bytes → M W (TcpReceiver × List Bytes)
  read_client i events (r, lines) =
      if not (has_event poll_any events) then pure (r, lines) else elim (get_elem? r.clients i) [
        | none ↦ pure (r, lines)
        | some client ↦ do reading ← read client lines; after_read i client r reading
      ]

  -- `for (std::size_t i = m_clients.size(); i > 0; --i)`
  unfoldable pub read_clients :
      ℕ → List ℕ → TcpReceiver × List Bytes → M W (TcpReceiver × List Bytes)
  read_clients zero revents s = pure s
  read_clients (suc i) revents s = do
    s' ← read_client i (revents_at revents (suc i)) s
    read_clients i revents s'

  -- A client that is accepted; one that cannot be set up is closed. `resume` is the next round.
  unfoldable pub set_up : (TcpReceiver → M W TcpReceiver) → TcpReceiver → Socket → M W TcpReceiver
  set_up resume r client = do
    usable ← set_non_blocking environment client
    (if usable
        then resume (record r {
          clients = r.clients ++ record { socket = client; reader = new_reader default_limit } ∷ [];
        })
        else (do reset environment client; resume r))

  -- `acceptClients`; a client that cannot be set up takes a round, and there is no bound on those.
  unfoldable pub accept_clients : ℕ → TcpReceiver → M W TcpReceiver
  accept_clients zero r = out_of_fuel
  accept_clients (suc fuel) r =
      if ltb (length r.clients) max_clients
      then (do
        answer ← perform environment (accept_on r.listener.socket.fd)
        let client : Socket = record { fd = answer.result }
        (if valid client then set_up (accept_clients fuel) r client else pure r))
      else pure r

  -- What is done once there is input.
  unfoldable pub serve : ℕ → List ℕ → TcpReceiver → List Bytes → M W (TcpReceiver × List Bytes)
  serve fuel revents r lines = do
    (r', lines') ← read_clients (length r.clients) revents (r, lines)
    (if has_event pollin (revents_at revents 0)
        then (do r'' ← accept_clients fuel r'; pure (r'', lines'))
        else pure (r', lines'))

  -- `receive` after the wait.
  unfoldable pub after_wait :
      ℕ → TcpReceiver → List Bytes → ErrorCode → Waited → M W (Received TcpReceiver)
  after_wait fuel r lines ec quiet =
      pure (record { ok = true; ec = ec; lines = lines; receiver = r })
  after_wait fuel r lines ec (failed reason) =
      pure (record { ok = false; ec = reason; lines = lines; receiver = r })
  after_wait fuel r lines ec (ready revents) = do
    (r', lines') ← serve fuel revents r lines
    pure (record { ok = true; ec = ec; lines = lines'; receiver = r' })

  unfoldable pub receive : ℕ → TcpReceiver → List Bytes → ℤ → ErrorCode → M W (Received TcpReceiver)
  receive fuel r lines timeout ec = do
    waited ← wait_for_input environment (descriptors r) timeout
    after_wait fuel r lines ec waited

  unfoldable pub open_tcp_receiver : Bytes → ℕ → M W (Option TcpReceiver × ErrorCode)
  open_tcp_receiver host port = do
    found ← bind_listener environment host port sock_stream tcp_backlog
    (elim found.0 [
      | none ↦ pure (none, found.1)
      | some listener ↦ pure (some (new_receiver listener), found.1)
    ])
