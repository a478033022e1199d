-- ===== src/Logger/LogRecord.antt =====
-- logger/include/logger/LogRecord.hpp and logger/src/LogRecord.cpp: one line of the log, written
-- and read back.
pub mod Escape
pub mod Unescape
pub mod Time
pub mod Line
pub mod Gregorian
