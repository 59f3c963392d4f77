-- ===== src/Tunnel/Guard.antt =====
-- smartguard/src/tunnel.rs: `CleanupGuard`, the part of `run_tunnel` that fills it, the rechecks
-- that move through it and its `Drop`.
use smartguard.Prelude.{
  String, Bool, true, false, Option, none, some, List, [], ◌∷◌, ◌++◌, State, ◌>>=◌, ◌>>◌, pure,
}
use smartguard.Machine.{Machine}
use smartguard.Net.{IpAddr, SocketAddr, IpNetLib, IpNet}
use smartguard.Dns.{Platform, AppliedDns, apply_dns, cleanup_dns}
use smartguard.Route.Command.{Family, AddedRoute}
use smartguard.Route.Setup.{any, setup_routes, setup_unconfigured_family, cleanup_routes}
use smartguard.Route.Recheck.{recheck_routes}
use smartguard.Peers.{PeerConfig}

pub record CleanupGuard : Type 0 where
  pub added_routes : List AddedRoute
  pub applied_dns : Option AppliedDns

module _ (n : IpNetLib) where
  -- The networks of all peers in their order, and the endpoints of those that have one.
  unfoldable pub all_allowed_ips : List (PeerConfig n) → List (IpNet n)
  all_allowed_ips [] = []
  all_allowed_ips (p ∷ ps) = p.allowed_ips ++ all_allowed_ips ps

  abbrev cons_some : Option SocketAddr → List SocketAddr → List SocketAddr
  cons_some none eps = eps
  cons_some (some ep) eps = ep ∷ eps

  unfoldable pub peer_endpoints : List (PeerConfig n) → List SocketAddr
  peer_endpoints [] = []
  peer_endpoints (p ∷ ps) = cons_some p.endpoint (peer_endpoints ps)

  abbrev pub is_v4 : IpNet n → Bool
  is_v4 (IpNet.v4 p) = true
  is_v4 (IpNet.v6 p) = false

  abbrev pub is_v6 : IpNet n → Bool
  is_v6 (IpNet.v4 p) = false
  is_v6 (IpNet.v6 p) = true

module _ (platform : Platform) (m : Machine) where
  open m use {World}

  -- The routes of a family that the interface has no address of.
  abbrev pub unconfigured_unless :
      Bool → Family → String → List SocketAddr → State World (List AddedRoute)
  unconfigured_unless true family tun_name eps = pure []
  unconfigured_unless false family tun_name eps = setup_unconfigured_family m family tun_name eps

  unfoldable pub bring_up :
      (n : IpNetLib)
      → String
      → List (PeerConfig n)
      → List (IpNet n)
      → List IpAddr
      → State World CleanupGuard
  unfolding setup_routes setup_unconfigured_family apply_dns all_allowed_ips peer_endpoints
  bring_up n tun_name peers tun_addrs dns_servers = do
    routes ← setup_routes n m tun_name (all_allowed_ips n peers) (peer_endpoints n peers)
    routes4 ←
        unconfigured_unless (any n (is_v4 n) tun_addrs) Family.v4 tun_name (peer_endpoints n peers)
    routes6 ←
        unconfigured_unless (any n (is_v6 n) tun_addrs) Family.v6 tun_name (peer_endpoints n peers)
    dns ← apply_dns m platform tun_name dns_servers
    pure (record { added_routes = (routes ++ routes4) ++ routes6; applied_dns = dns })

  unfoldable pub recheck_guard : CleanupGuard → State World CleanupGuard
  unfolding recheck_routes
  recheck_guard guard = do
    routes ← recheck_routes m guard.added_routes
    pure (record guard { added_routes = routes })

  abbrev pub cleanup_if_applied : Option AppliedDns → State World (Unit {0})
  cleanup_if_applied none = pure tt
  cleanup_if_applied (some d) = cleanup_dns m platform d

  unfoldable pub drop_guard : CleanupGuard → State World (Unit {0})
  unfolding cleanup_dns cleanup_routes
  drop_guard guard = cleanup_if_applied guard.applied_dns >> cleanup_routes m guard.added_routes
