-- ===== src/Logger/SocketProtocol.antt =====
-- logger/include/logger/SocketProtocol.hpp and logger/src/SocketProtocol.cpp.
pub mod Names
use loggerlib.Common.Text.{equals_ignore_case}
use loggerlib.Prelude.{
  ℕ, ◌+◌, Bool, List, [], ◌∷◌, Option, none, some, Bytes, codes, get_elem?, ltb, if◌then◌else◌,
}

-- `beyond n` is the value 3 + n of the underlying byte.
pub data SocketProtocol : Type 0 where
  tcp udp count : SocketProtocol
  beyond : ℕ → SocketProtocol

abbrev pub index : SocketProtocol → ℕ
index SocketProtocol.tcp = 0
index SocketProtocol.udp = 1
index SocketProtocol.count = 2
index (SocketProtocol.beyond n) = 3 + n

pub record ProtocolName : Type 0 where
  pub protocol : SocketProtocol
  pub name : Bytes

abbrev pub protocol_names : List ProtocolName
protocol_names =
    record { protocol = SocketProtocol.tcp; name = codes "tcp" }
    ∷ record { protocol = SocketProtocol.udp; name = codes "udp" }
    ∷ []

unfoldable pub is_valid_protocol : SocketProtocol → Bool
is_valid_protocol protocol = ltb (index protocol) (index SocketProtocol.count)

abbrev name_at : Option ProtocolName → Bytes
name_at none = codes "unknown"
name_at (some entry) = entry.name

unfoldable pub protocol_to_string : SocketProtocol → Bytes
unfolding is_valid_protocol
protocol_to_string protocol =
    if is_valid_protocol protocol
    then name_at (get_elem? protocol_names (index protocol))
    else codes "unknown"

unfoldable pub find_protocol : List ProtocolName → Bytes → Option SocketProtocol
find_protocol [] str = none
find_protocol (entry ∷ table) str =
    if equals_ignore_case entry.name str then some entry.protocol else find_protocol table str

unfoldable pub string_to_protocol : Bytes → Option SocketProtocol
unfolding find_protocol
string_to_protocol str = find_protocol protocol_names str
