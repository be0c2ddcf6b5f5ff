-- ===== src/Dockhelper.antt =====
-- dockhelper/src: the commands of docker that the emulation runs.
pub mod Cmd
pub mod Helper
