-- ===== src/Tunnel.antt =====
-- smartguard/src/tunnel.rs: the tunnel's run, from the routes to the clean-up.
pub mod Guard
pub mod Restore
pub mod Keepalive
pub mod Silence
pub mod HostIndex
pub mod Loop
pub mod Start
pub mod Whole
pub mod Bounded
pub mod Resolver
