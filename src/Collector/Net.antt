-- ===== src/Collector/Net.antt =====
-- collector/core/net/: the sockets that the collector listens on.
pub mod Poll
pub mod Listener
pub mod TcpReceiver
pub mod Receiver
mod Tests
