-- ===== src/Common/Errors.antt =====
-- common/Errors.hpp, and the part of `std::error_code` that the code uses.
use loggerlib.Prelude.Int.{pos, eq_ℤ, ℤ}
use loggerlib.Prelude.{ℕ, ◌≡◌, Bool, true, false, not, arith, ◌==◌, if◌then◌else◌}

-- `clear` is the code after `ec.clear()`. The two categories are the generic one, of errno values,
-- and the one of `getaddrinfo`, common/net/Address.cpp.
pub data ErrorCode : Type 0 where
  clear : ErrorCode
  generic : ℕ → ErrorCode
  address : ℤ → ErrorCode

-- `static_cast<bool>(ec)`
abbrev pub is_error : ErrorCode → Bool
is_error clear = false
is_error (generic value) = not (value == 0)
is_error (address value) = not (eq_ℤ value (pos 0))

-- The values of `std::errc` that the code names, as Linux numbers them.
abbrev pub invalid_argument : ErrorCode
invalid_argument = generic 22

abbrev pub io_error : ErrorCode
io_error = generic 5

abbrev pub host_unreachable : ErrorCode
host_unreachable = generic 113

abbrev pub address_not_available : ErrorCode
address_not_available = generic 99

abbrev pub timed_out : ErrorCode
timed_out = generic 110

abbrev pub message_size : ErrorCode
message_size = generic 90

-- The code for the errno that a failed call left.
unfoldable pub errno_error : ℕ → ErrorCode
errno_error errno = if not (errno == 0) then generic errno else io_error

-- A failure is never reported as a success.
pub errno_error_lem : (errno : ℕ) → is_error (errno_error errno) ≡ true
unfolding errno_error
errno_error_lem errno = ground arith
