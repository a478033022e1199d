-- ===== src/Collector/UdpReceiver.antt =====
-- collector/core/net/UdpReceiver.hpp and UdpReceiver.cpp: a datagram of lines.
pub mod Datagram
pub mod Delivery
use loggerlib.Common.Net.Address.{sock_dgram}
use loggerlib.Collector.Net.Listener.{bind_listener, Listener}
use loggerlib.Prelude.Int.{pos_part, pos, ltb_ℤ, ℤ}
use loggerlib.Common.Errors.{errno_error, ErrorCode}
use loggerlib.Common.Net.Machine.{
  Endpoint, Call, getaddrinfo, open_socket, get_flags, set_flags, reuse_address, connect_to,
  bind_to, listen_on, accept_on, pending_error, socket_name, address_text, poll_for, send_to,
  receive_from, close_fd, read_clock, Answer, Environment, Machine, M, pure, out_of_fuel, ◌>>=◌,
  ◌>>◌, is_negative, set_errno, get_errno, answered, perform, eintr, eagain, econnrefused,
  einprogress,
}
use loggerlib.Collector.Net.Poll.{Waited, Received, quiet, failed, ready, wait_for_input}
use loggerlib.Prelude.{
  ℕ, zero, suc, ◌+◌, ◌-◌, ◌*◌, ◌/◌, ◌%◌, ◌^◌, ◌≤◌, ◌<◌, min, max, ◌≡◌, refl, sym, ap, ◌∙◌, ◌≢◌, ◌↔◌,
  ◌⊎◌, inl, inr, Bool, true, false, not, ◌&&◌, ◌||◌, Option, none, some, List, [], ◌∷◌, ◌++◌, map,
  append_assoc, append-nil, arith, Bytes, codes, Lacks, All, All-append, length, get_elem?, take,
  drop, replicate, length-replicate, modify, flatten, length-append, take-length, take_at, drop_at,
  drop-length, drop_past, take_all, equal, equal_iff, find, rfind, find_pair, substr, Cut, absent,
  at, find-Cut, ltb, leb, ◌==◌, if◌then◌else◌, ltb→lt, leb→le, ltb→le, lt→ltb, le→ltb, ==_iff,
  ==_refl, ==_ne, Bool-cases, Option-cases, every_below, every_below_at,
}

-- The loop of `splitDatagram`; `none` means that the fuel ran out.
unfoldable pub split_loop : ℕ → Bytes → List Bytes → Option (List Bytes)
split_loop zero text lines = none
split_loop (suc fuel) [] lines = some lines
split_loop (suc fuel) (c ∷ text) lines = elim (find b'\n' (c ∷ text)) [
  | none ↦ some (lines ++ (c ∷ text) ∷ [])
  | some end ↦ split_loop fuel (drop (end + 1) (c ∷ text)) (lines ++ take end (c ∷ text) ∷ [])
]

-- Each round takes at least one byte off the datagram.
unfoldable pub split_datagram : Bytes → List Bytes → Option (List Bytes)
split_datagram text lines = split_loop (suc (length text)) text lines

pub record UdpReceiver : Type 0 where
  pub listener : Listener

-- `kDatagram`
abbrev pub datagram_size : ℕ
datagram_size = 65536

-- The errors of `recv` that the loop of the program goes on after.
abbrev pub passing : ℕ → Bool
passing errno = errno == eintr || errno == eagain || errno == econnrefused

module _ {W : Type 0} (environment : Environment W) where
  -- What is done once there is input; the payload of the answer is what `recv` writes to the buffer.
  unfoldable pub read_datagram : UdpReceiver → List Bytes → ErrorCode → M W (Received UdpReceiver)
  read_datagram r lines ec = do
    set_errno 0
    answer ← perform environment (receive_from r.listener.socket.fd datagram_size)
    errno ← get_errno
    (if ltb_ℤ (pos 0) answer.result
        then elim (split_datagram (take (pos_part answer.result) answer.payload) lines) [
          | none ↦ out_of_fuel
          | some all ↦ pure (record { ok = true; ec = ec; lines = all; receiver = r })
        ]
        else if is_negative answer.result && not (passing errno)
        then pure (record { ok = false; ec = errno_error errno; lines = lines; receiver = r })
        else pure (record { ok = true; ec = ec; lines = lines; receiver = r }))

  -- `receive` after the wait.
  unfoldable pub after_wait :
      UdpReceiver → List Bytes → ErrorCode → Waited → M W (Received UdpReceiver)
  after_wait r lines ec quiet = pure (record { ok = true; ec = ec; lines = lines; receiver = r })
  after_wait r lines ec (failed reason) =
      pure (record { ok = false; ec = reason; lines = lines; receiver = r })
  after_wait r lines ec (ready revents) = read_datagram r lines ec

  unfoldable pub receive : UdpReceiver → List Bytes → ℤ → ErrorCode → M W (Received UdpReceiver)
  receive r lines timeout ec = do
    waited ← wait_for_input environment (r.listener.socket.fd ∷ []) timeout
    after_wait r lines ec waited

  unfoldable pub open_udp_receiver : Bytes → ℕ → M W (Option UdpReceiver × ErrorCode)
  open_udp_receiver host port = do
    found ← bind_listener environment host port sock_dgram 0
    (elim found.0 [
      | none ↦ pure (none, found.1)
      | some listener ↦ pure (some (record { listener = listener }), found.1)
    ])
