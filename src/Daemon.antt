-- ===== src/Daemon.antt =====
-- The daemon (src/daemon): the slot pools, the byte buffer and decoder of a client's socket, and the
-- handlers of fisk-daemon.ts that tie them together.
pub mod Constants
pub mod Compile
pub mod Slots
pub mod ClientBuffer
pub mod CompilerInfo
pub mod CompilerInfoCache
pub mod Handlers
