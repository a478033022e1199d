-- ===== src/Logger/SocketProtocol/Names.antt =====
-- The protocols that logger/src/SocketProtocol.cpp reads are known ones.
use loggerlib.Logger.SocketProtocol.{
  SocketProtocol, find_protocol, string_to_protocol, is_valid_protocol,
}
use loggerlib.Prelude.{◌≡◌, refl, true, some, arith, Bytes}

pub string_to_protocol_valid :
    (text : Bytes) (protocol : SocketProtocol)
    → string_to_protocol text ≡ some protocol
    → is_valid_protocol protocol ≡ true
unfolding string_to_protocol find_protocol is_valid_protocol
string_to_protocol_valid text protocol h = ground arith

pub tcp_valid : is_valid_protocol SocketProtocol.tcp ≡ true
unfolding is_valid_protocol
tcp_valid = refl
