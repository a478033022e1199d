-- ===== src/Logger/Net.antt =====
-- logger/src/net/: the sinks that write to a socket.
pub mod TcpSink
pub mod UdpSink
mod Tests
