-- ===== src/Common.antt =====
-- common/: what the library and both programs share.
pub mod Text
pub mod Endpoint
pub mod Tests
pub mod Errors
pub mod Net
pub mod Arguments
pub mod Usage
