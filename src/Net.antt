-- ===== src/Net.antt =====
-- The addresses of `std::net` and the networks of the `ipnet` crate, as smartguard/src/route.rs,
-- smartguard/src/tunnel.rs and smartguard-crypto/src/session/handle.rs use them.
pub mod Display
use smartguard.Prelude.{ℕ, String, Option, List}

-- `std::net::IpAddr`, by its octets.
pub data IpAddr : Type 0 where
  v4 : (a b c d : ℕ) → IpAddr
  v6 : List ℕ → IpAddr

-- `std::net::SocketAddr`.
pub record SocketAddr : Type 0 where
  pub ip : IpAddr
  pub port : ℕ

-- The crate `ipnet`: networks of either family, their prefix lengths, `Display` and `FromStr`.
pub record IpNetLib : Type 1 where
  pub Ipv4Net : Type 0
  pub Ipv6Net : Type 0
  pub prefix_len4 : Ipv4Net → ℕ
  pub prefix_len6 : Ipv6Net → ℕ
  pub display4 : Ipv4Net → String
  pub display6 : Ipv6Net → String

-- `ipnet::IpNet`.
pub data IpNet (n : IpNetLib) : Type 0 where
  v4 : n.Ipv4Net → IpNet n
  v6 : n.Ipv6Net → IpNet n
