-- ===== src/Common.antt =====
-- common/src: the addresses and messages that the other crates share.
pub mod Subnet
pub mod Bytes
pub mod EmulMessage
