-- ===== src/Peers.antt =====
-- smartguard-crypto/src/lib.rs: the configuration of a peer at run time, and in the children the
-- routing table of the peers and the session builder.
pub mod PeerNet
pub mod Lpm
pub mod Build
pub mod Owner
use smartguard.Prelude.{ℕ, List, Option}
use smartguard.Net.{SocketAddr, IpNetLib, IpNet}

-- A key's bytes, `[u8; 32]`.
abbrev pub Key : Type 0
Key = List ℕ

-- A `Duration` in seconds.
pub record PeerConfig (n : IpNetLib) : Type 0 where
  pub public_key : Key
  pub preshared_key : Option Key
  pub endpoint : Option SocketAddr
  pub allowed_ips : List (IpNet n)
  pub persistent_keepalive : Option ℕ
