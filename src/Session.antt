-- ===== src/Session.antt =====
-- smartguard-crypto/src/session/handle.rs: the glue between the sessions, the UDP socket and the TUN
-- device.
pub mod Packet
pub mod Handle
pub mod Across
pub mod Buffer
pub mod Extern
pub mod Intern
pub mod Total
