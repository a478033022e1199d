-- ===== src/Common/Net.antt =====
-- common/net/: descriptors and addresses, over the system calls.
pub mod Machine
pub mod Socket
pub mod Address
pub mod Descriptors
