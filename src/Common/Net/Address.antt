-- ===== src/Common/Net/Address.antt =====
-- common/net/Address.hpp and common/net/Address.cpp.
use loggerlib.Common.Text.Numbers.{to_string}
use loggerlib.Common.Errors.{clear, address, ErrorCode}
use loggerlib.Prelude.Int.{pos, negsuc, eq_ℤ, ℤ}
use Prim.Native.Nat.{bit_or}
use loggerlib.Common.Net.Machine.{
  Endpoint, getaddrinfo, socket_name, address_text, Environment, M, pure, ◌>>=◌, is_negative,
  perform,
}
use loggerlib.Prelude.{
  ℕ, ◌+◌, ◌*◌, ◌/◌, ◌%◌, not, ◌||◌, Option, none, some, List, [], ◌∷◌, Bytes, ◌==◌, if◌then◌else◌,
}

-- `AI_PASSIVE`, `AI_ADDRCONFIG`, `AI_NUMERICSERV` and `EAI_NONAME`, as Linux numbers them.
abbrev pub ai_passive : ℕ
ai_passive = 0x1

abbrev pub ai_addrconfig : ℕ
ai_addrconfig = 0x20

abbrev pub ai_numericserv : ℕ
ai_numericserv = 0x400

abbrev pub eai_noname : ℤ
eai_noname = negsuc 1

-- `SOCK_STREAM`, `SOCK_DGRAM`, `AF_INET` and `AF_INET6`
abbrev pub sock_stream : ℕ
sock_stream = 1

abbrev pub sock_dgram : ℕ
sock_dgram = 2

abbrev pub af_inet : ℕ
af_inet = 2

abbrev pub af_inet6 : ℕ
af_inet6 = 10

-- An empty name is the null pointer.
abbrev pub name_or_null : Bytes → Option Bytes
name_or_null [] = none
name_or_null (c ∷ host) = some (c ∷ host)

-- What `resolve` makes of the result and the list of `getaddrinfo`.
abbrev pub resolved : ℤ → List Endpoint → List Endpoint × ErrorCode
resolved result endpoints =
    if not (eq_ℤ result (pos 0)) then ([], address result) else elim endpoints [
      | [] ↦ ([], address eai_noname)
      | endpoint ∷ rest ↦ (endpoint ∷ rest, clear)
    ]

-- `ntohs` on a machine that keeps the low byte first.
abbrev pub ntohs : ℕ → ℕ
ntohs n = n % 256 * 256 + n / 256 % 256

-- `sin_port`, or `sin6_port` at the same place.
abbrev pub port_field : Bytes → ℕ
port_field (low ∷ high ∷ rest) = low + 256 * high
port_field _ = 0

module _ {W : Type 0} (environment : Environment W) where
  unfoldable pub resolve :
      (host : Bytes) (port socktype extra_flags : ℕ) → M W (List Endpoint × ErrorCode)
  resolve host port socktype extra_flags = do
    answer ← perform environment (
        getaddrinfo (name_or_null host) (to_string port) socktype
          (bit_or (bit_or ai_addrconfig ai_numericserv) extra_flags))
    pure (resolved answer.result answer.endpoints)

  -- `getsockname` gives the family as the value, and the port as it stands in the address in the
  -- first two bytes of the payload, low byte first.
  unfoldable pub local_port : ℤ → M W (Option ℕ)
  local_port fd = do
    answer ← perform environment (socket_name fd)
    pure (
        if not (eq_ℤ answer.result (pos 0))
        then none
        else if answer.value == af_inet || answer.value == af_inet6
        then some (ntohs (port_field answer.payload))
        else none)

  unfoldable pub local_address : ℤ → M W (Option Bytes)
  local_address fd = do
    answer ← perform environment (socket_name fd)
    (if not (eq_ℤ answer.result (pos 0))
        then pure none
        else if answer.value == af_inet || answer.value == af_inet6
        then (do
          text ← perform environment (address_text answer.value answer.payload)
          pure (if is_negative text.result then none else some text.payload))
        else pure none)
