-- ===== src/Logger.antt =====
-- logger/: the library that writes records.
pub mod LogLevel
pub mod SocketProtocol
pub mod LogRecord
pub mod Sink
pub mod LoggerFactory
pub mod SinkLogger
pub mod Net
pub mod Tests
