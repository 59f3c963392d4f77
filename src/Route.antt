-- ===== src/Route.antt =====
-- smartguard/src/route.rs: the routes of the tunnel, added and removed by the program `route`.
pub mod Command
pub mod Info
pub mod Report
pub mod Frame
pub mod Setup
pub mod Recheck
pub mod Kernel
pub mod Adds
pub mod Installed
pub mod Installs
pub mod RecheckKeeps
pub mod Sync
pub mod Lifecycle
