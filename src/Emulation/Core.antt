-- ===== src/Emulation/Core.antt =====
-- emulation/src/emulcore.rs: the core of an emulation on one machine.
pub mod Synchronize
pub mod Run
pub mod State
pub mod Messages
pub mod Loop
pub mod Bounds
