-- ===== src/Tunnel/Restore.antt =====
-- smartguard/src/tunnel.rs: what a run leaves behind in the routing table.
use smartguard.Prelude.{
  String, Bool, true, false, Option, none, some, List, [], ◌∷◌, ◌≡◌, refl, ◌∙◌, ◌⊎◌, inl, inr,
}
use smartguard.Machine.{Machine}
use smartguard.Net.{IpAddr, SocketAddr, IpNetLib, IpNet}
use smartguard.Dns.{
  Platform, macos, linux, other, AppliedDns, apply_dns, apply_platform, cleanup_dns,
}
use smartguard.Route.Command.{Family}
use smartguard.Route.Setup.{any}
use smartguard.Route.Kernel.{RouteKey, Kernel}
use smartguard.Route.Adds.{Adds, Adds-same}
use smartguard.Route.Installed.{Installed, Installed-nil, Installed-append, Installed-same}
use smartguard.Route.Installs.{Installs, setup_routes-Installs, setup_unconfigured_family-Installs}
use smartguard.Route.Lifecycle.{Refused, cleanup_routes-entry}
use smartguard.Peers.{PeerConfig}
use smartguard.Tunnel.Guard.{
  CleanupGuard, all_allowed_ips, peer_endpoints, is_v4, is_v6, unconfigured_unless, bring_up,
  cleanup_if_applied, drop_guard,
}

module _ {m : Machine} (k : Kernel m) (platform : Platform) where
  open m use {World}
  open k use {entry}

  apply_platform-entry :
      (p : Platform) (tun_name : String) (ips : List IpAddr) (w : World) (j : RouteKey)
      → entry (apply_platform m p tun_name ips w).1 j ≡ entry w j
  unfolding apply_platform
  apply_platform-entry macos tun_name ips w j = k.pipe_entry _ _ _ w j
  apply_platform-entry linux tun_name ips w j = k.pipe_entry _ _ _ w j
  apply_platform-entry other tun_name ips w j = refl

  apply_dns-entry :
      (tun_name : String) (ips : List IpAddr) (w : World) (j : RouteKey)
      → entry (apply_dns m platform tun_name ips w).1 j ≡ entry w j
  unfolding apply_dns
  apply_dns-entry tun_name [] w j = refl
  apply_dns-entry tun_name (ip ∷ ips) w j = apply_platform-entry platform tun_name (ip ∷ ips) w j

  cleanup_dns-entry :
      (p : Platform) (d : Option AppliedDns) (w : World) (j : RouteKey)
      → entry (cleanup_if_applied p m d w).1 j ≡ entry w j
  unfolding cleanup_dns
  cleanup_dns-entry p none w j = refl
  cleanup_dns-entry macos (some d) w j = k.pipe_entry _ _ _ w j
  cleanup_dns-entry linux (some d) w j = k.status_entry _ w j
  cleanup_dns-entry other (some d) w j = refl

  unconfigured_unless-Installs :
      (b : Bool) (family : Family) (tun_name : String) (eps : List SocketAddr)
      → Installs k (unconfigured_unless platform m b family tun_name eps)
  unconfigured_unless-Installs true family tun_name eps w = Installed-nil k (λ j. refl)
  unconfigured_unless-Installs false family tun_name eps w =
      setup_unconfigured_family-Installs k family tun_name eps w

  -- Where `route` does what it documents, and whatever it answers, once the start has set up the
  -- routes and the resolver, every route that the guard has stands in the table, also those for a
  -- family in which the interface has no address: a tunnel route by the interface, a bypass by the
  -- gateway that it is recorded with, or by an interface if it has none, a pass-through by a
  -- gateway or an interface. Their keys were free before, and no other entry is changed.
  pub bring_up-Installed :
      (n : IpNetLib) (tun_name : String) (peers : List (PeerConfig n)) (tun_addrs : List (IpNet n))
      (dns_servers : List IpAddr) (w : World)
      → let up = bring_up platform m n tun_name peers tun_addrs dns_servers w in
        Installed k w up.1 up.0.added_routes
  unfolding bring_up
  bring_up-Installed n tun_name peers tun_addrs dns_servers w =
      Installed-same k _ _ _ _ (apply_dns-entry tun_name dns_servers _) (
        Installed-append k _ _ _ _ _
          (Installed-append k _ _ _ _ _ (setup_routes-Installs k n tun_name allowed eps w)
            (unconfigured_unless-Installs (any n (is_v4 n) tun_addrs) Family.v4 tun_name eps _))
          (unconfigured_unless-Installs (any n (is_v6 n) tun_addrs) Family.v6 tun_name eps _))
    where
      allowed : List (IpNet n)
      allowed = all_allowed_ips n peers

      eps : List SocketAddr
      eps = peer_endpoints n peers

  -- The guard's `Drop` gives every entry that it accounts for its old value, unless the removal of a
  -- route with the entry's key is refused: then the entry is left as it was.
  pub drop_guard-entry :
      (w₀ w : World) (guard : CleanupGuard)
      → Adds k w₀ w guard.added_routes
      → (j : RouteKey)
      → (entry (drop_guard platform m guard w).1 j ≡ entry w₀ j)
        ⊎ (Refused k guard.added_routes (cleanup_if_applied platform m guard.applied_dns w).1 j
            × (entry (drop_guard platform m guard w).1 j ≡ entry w j))
  unfolding drop_guard
  drop_guard-entry w₀ w guard a j =
      elim (cleanup_routes-entry k w₀ _ _ (Adds-same k _ _ _ _ (cleanup_dns-entry platform _ _) a)
        j) [
          | inl restored ↦ inl restored
          | inr (refused, left) ↦ inr (refused, left ∙ cleanup_dns-entry platform _ w j)
        ]
