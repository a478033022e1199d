-- ===== src/Common/Net/Socket.antt =====
-- common/net/Socket.hpp and common/net/Socket.cpp: a descriptor and who owns it.
use loggerlib.Common.Net.Machine.{
  get_flags, set_flags, close_fd, Environment, M, pure, ◌>>=◌, ◌>>◌, is_negative, perform,
}
use loggerlib.Prelude.Int.{pos, eq_ℤ, pos_part, ℤ, negsuc}
use Prim.Native.Nat.{bit_or}
use loggerlib.Prelude.{ℕ, Bool, false, not, if◌then◌else◌}

-- `m_fd`, negative where nothing is owned
pub record Socket : Type 0 where
  pub fd : ℤ

-- The default constructor.
abbrev pub no_socket : Socket
no_socket = record { fd = negsuc 0 }

unfoldable pub valid : Socket → Bool
valid socket = not (is_negative socket.fd)

-- The descriptor, and the socket that owns it no more.
unfoldable pub release : Socket → ℤ × Socket
release socket = (socket.fd, no_socket)

-- `O_NONBLOCK`
abbrev pub o_nonblock : ℕ
o_nonblock = 2048

module _ {W : Type 0} (environment : Environment W) where
  -- `reset`, and the destructor.
  unfoldable pub reset : Socket → M W Socket
  unfolding valid
  reset socket =
      if valid socket
      then (do perform environment (close_fd socket.fd); pure no_socket)
      else pure no_socket

  -- `own = std::move(other)` for two sockets that are not the same object: the own descriptor is
  -- closed first.
  unfoldable pub assign : Socket → Socket → M W (Socket × Socket)
  unfolding reset release
  assign own other = do reset own; let (fd, left) = release other; pure (record { fd = fd }, left)

  unfoldable pub set_non_blocking : Socket → M W Bool
  set_non_blocking socket = do
    flags ← perform environment (get_flags socket.fd)
    (if is_negative flags.result then pure false else (do
      answer ← perform environment (set_flags socket.fd (bit_or (pos_part flags.result) o_nonblock))
      pure (eq_ℤ answer.result (pos 0))))
