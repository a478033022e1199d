-- ===== src/Collector.antt =====
-- collector/: the program that receives the log and reports on it.
pub mod Net
pub mod LineReader
pub mod Statistics
pub mod Tests
pub mod Options
pub mod Usage
pub mod Main
pub mod UdpReceiver
pub mod CollectorApp
