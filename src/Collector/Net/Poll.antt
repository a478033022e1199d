-- ===== src/Collector/Net/Poll.antt =====
-- The wait for input that TcpReceiver.cpp and UdpReceiver.cpp of collector/core/net both begin with.
use loggerlib.Common.Errors.{errno_error, ErrorCode}
use loggerlib.Prelude.Int.{negsuc, eq_ℤ, pos, ℤ}
use Prim.Native.Nat.{bit_and}
use loggerlib.Common.Net.Machine.{
  poll_for, Environment, M, pure, ◌>>=◌, ◌>>◌, is_negative, set_errno, get_errno, perform, eintr,
}
use loggerlib.Prelude.{
  ℕ, zero, suc, ◌-◌, ◌%◌, ◌^◌, Bool, false, not, List, [], ◌∷◌, Bytes, ltb, ◌==◌, if◌then◌else◌,
}

-- `POLLIN`, and what ends a connection: `POLLIN | POLLHUP | POLLERR | POLLNVAL`.
abbrev pub pollin : ℕ
pollin = 0x1

abbrev pub poll_any : ℕ
poll_any = 0x39

unfoldable pub has_event : ℕ → ℕ → Bool
has_event mask events = not (bit_and events mask == 0)

-- `waiters[i].revents`
abbrev pub revents_at : List ℕ → ℕ → ℕ
revents_at [] i = 0
revents_at (events ∷ rest) zero = events
revents_at (events ∷ rest) (suc i) = revents_at rest i

-- The low 32 bits of a number.
abbrev pub low_word : ℤ → ℕ
low_word (pos n) = n % 2 ^ 32
low_word (negsuc n) = 2 ^ 32 - 1 - n % 2 ^ 32

-- `static_cast<int>` of a count of milliseconds: the low 32 bits, read with a sign.
unfoldable pub to_int : ℤ → ℤ
to_int n = let low = low_word n in if ltb low (2 ^ 31) then pos low else negsuc (2 ^ 32 - 1 - low)

-- What the wait ends with: no input, an error, or the events of each descriptor.
pub data Waited : Type 0 where
  quiet : Waited
  failed : ErrorCode → Waited
  ready : List ℕ → Waited

-- What a call of `receive` leaves: its result, `ec`, `lines` and the receiver.
pub record Received (R : Type 0) : Type 0 where
  pub ok : Bool
  pub ec : ErrorCode
  pub lines : List Bytes
  pub receiver : R

module _ {W : Type 0} (environment : Environment W) where
  unfoldable pub wait_for_input : List ℤ → ℤ → M W Waited
  wait_for_input fds timeout = do
    set_errno 0
    answer ← perform environment (poll_for fds false (to_int timeout))
    errno ← get_errno
    pure (
        if is_negative answer.result
        then (if errno == eintr then quiet else failed (errno_error errno))
        else if eq_ℤ answer.result (pos 0)
        then quiet
        else ready answer.revents)
