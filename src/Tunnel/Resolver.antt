-- ===== src/Tunnel/Resolver.antt =====
-- smartguard/src/tunnel.rs and smartguard/src/dns.rs: the resolver through the event loop and after it, on
-- a platform whose programs do what they document.
pub mod Programs
pub mod Restored
use smartguard.Prelude.{
  ℕ, String, Bool, true, false, Option, none, some, List, [], ◌∷◌, ◌≡◌, refl, sym, ap, ◌∙◌, inl,
  inr, if◌then◌else◌, str_eq, eq_iff, Bool-cases, Run, returns, panics,
}
use smartguard.Config.{ℤ}
use smartguard.Dns.{Platform, AppliedDns, apply_dns, apply_platform, cleanup_dns, applied_if}
use smartguard.Machine.{Machine}
use smartguard.Net.{IpAddr, SocketAddr, IpNetLib, IpNet}
use smartguard.Peers.{PeerConfig}
use smartguard.Route.Command.{Family, AddedRoute}
use smartguard.Route.Setup.{any}
use smartguard.Route.Frame.{
  setup_routes-Keeps, setup_unconfigured_family-Keeps, cleanup_routes-Keeps, recheck_routes-Keeps,
}
use smartguard.Tunnel.Guard.{
  all_allowed_ips, peer_endpoints, is_v4, is_v6, CleanupGuard, bring_up, unconfigured_unless,
  recheck_guard, drop_guard, cleanup_if_applied,
}
use smartguard.Tunnel.Start.{apply_ipv6_addr}

-- What the functions of a platform do to what is installed under each name: servers that were applied
-- are under the interface's name as a text of theirs, and a deletion that succeeds takes them out. Of
-- names and servers that are not known to its programs nothing is said.
pub record Serving (platform : Platform) (m : Machine) : Type 1 where
  pub installed : m.World → String → Option String
  pub name_of : String → String
  pub text_of : List IpAddr → String
  pub Known : String → List IpAddr → Type 0
  pub TakesOut : String → m.World → Type 0
  pub route_keeps :
      (args : List String) (w : m.World) (j : String)
      → installed (m.route args w).1 j ≡ installed w j
  pub address_keeps :
      (tun_name cidr : String) (w : m.World) (j : String)
      → installed (apply_ipv6_addr m platform tun_name cidr w).1 j ≡ installed w j
  pub applied :
      (tun_name : String) (ips : List IpAddr) (w : m.World) (j : String)
      → Known tun_name ips
      → let (ok, w') = apply_platform m platform tun_name ips w in
        installed w' j ≡ (
          if ok
          then if str_eq (name_of tun_name) j then some (text_of ips) else installed w j
          else installed w j)
  pub cleaned :
      (d : AppliedDns) (ips : List IpAddr) (w : m.World) (j : String)
      → Known d.tun_name ips
      → TakesOut d.tun_name w
      → installed (cleanup_dns m platform d w).1 j
        ≡ (if str_eq (name_of d.tun_name) j then none else installed w j)

module _ {platform : Platform} {m : Machine} (r : Serving platform m) where
  open m use {World}
  open r use {installed, name_of, text_of, Known}

  -- What the resolver has besides what it had, where servers were applied.
  abbrev pub with_servers : Option AppliedDns → String → World → String → Option String
  with_servers none text w j = installed w j
  with_servers (some d) text w j =
      if str_eq (name_of d.tun_name) j then some text else installed w j

  pub with_servers_cong :
      (d : Option AppliedDns) (text : String) (w w' : World) (j : String)
      → installed w j ≡ installed w' j
      → with_servers d text w j ≡ with_servers d text w' j
  with_servers_cong none text w w' j e = e
  with_servers_cong (some d) text w w' j e =
      ap (λ o. if str_eq (name_of d.tun_name) j then some text else o) e

  apply_dns-installed :
      (tun_name : String) (ips : List IpAddr) (w : World) (j : String)
      → Known tun_name ips
      → let (d, w') = apply_dns m platform tun_name ips w in
        installed w' j ≡ with_servers d (text_of ips) w j
  unfolding apply_dns
  apply_dns-installed tun_name [] w j known = refl
  apply_dns-installed tun_name (ip ∷ ips) w j known =
      r.applied tun_name (ip ∷ ips) w j known ∙ sym (applied _)
    where
      applied :
          (ok : Bool)
          → with_servers (applied_if m ok tun_name) (text_of (ip ∷ ips)) w j ≡ (
              if ok
              then if str_eq (name_of tun_name) j then some (text_of (ip ∷ ips)) else installed w j
              else installed w j)
      applied true = refl
      applied false = refl

  unconfigured_unless-installed :
      (configured : Bool) (family : Family) (tun_name : String) (eps : List SocketAddr) (w : World)
      (j : String)
      → installed (unconfigured_unless platform m configured family tun_name eps w).1 j
        ≡ installed w j
  unconfigured_unless-installed true family tun_name eps w j = refl
  unconfigured_unless-installed false family tun_name eps w j =
      setup_unconfigured_family-Keeps m (λ w. installed w j) (λ args w. r.route_keeps args w j)
        family tun_name eps w

  -- The guard that a start leaves says what was installed.
  pub bring_up-installed :
      (n : IpNetLib) (tun_name : String) (peers : List (PeerConfig n)) (tun_addrs : List (IpNet n))
      (dns_servers : List IpAddr) (w : World) (j : String)
      → Known tun_name dns_servers
      → let (g, w') = bring_up platform m n tun_name peers tun_addrs dns_servers w in
        installed w' j ≡ with_servers g.applied_dns (text_of dns_servers) w j
  unfolding bring_up
  bring_up-installed n tun_name peers tun_addrs dns_servers w j known =
      apply_dns-installed tun_name dns_servers _ j known
      ∙ with_servers_cong _ (text_of dns_servers) _ w j (
          unconfigured_unless-installed (any n (is_v6 n) tun_addrs) Family.v6 tun_name
            (peer_endpoints n peers) _ j
          ∙ unconfigured_unless-installed (any n (is_v4 n) tun_addrs) Family.v4 tun_name
              (peer_endpoints n peers) _ j
          ∙ setup_routes-Keeps m (λ w. installed w j) (λ args w. r.route_keeps args w j) n tun_name
              (all_allowed_ips n peers) (peer_endpoints n peers) w)

  -- The servers are applied for the interface of the start.
  pub bring_up-applied :
      (n : IpNetLib) (tun_name : String) (peers : List (PeerConfig n)) (tun_addrs : List (IpNet n))
      (dns_servers : List IpAddr) (w : World) (d : AppliedDns)
      → (bring_up platform m n tun_name peers tun_addrs dns_servers w).0.applied_dns ≡ some d
      → d.tun_name ≡ tun_name
  unfolding bring_up apply_dns
  bring_up-applied n tun_name peers tun_addrs [] w d e = absurd (cc)
  bring_up-applied n tun_name peers tun_addrs (ip ∷ ips) w d e = named _ e
    where
      named : (ok : Bool) → applied_if m ok tun_name ≡ some d → d.tun_name ≡ tun_name
      named true e' = ap (λ a. a.tun_name) (some_of e')
        where
          some_of : applied_if m true tun_name ≡ some d → d ≡ record { tun_name = tun_name }
          some_of e'' = cc
      named false e' = absurd (cc)

  -- What was applied is taken out with success.
  abbrev pub IsTakenOut : Option AppliedDns → World → Type 0
  IsTakenOut none w = Unit
  IsTakenOut (some d) w = r.TakesOut d.tun_name w

  cleanup-installed :
      (d : Option AppliedDns) (text : String) (ips : List IpAddr) (w₀ w : World) (j : String)
      → installed w j ≡ with_servers d text w₀ j
      → IsTakenOut d w
      → ((applied : AppliedDns)
          → d ≡ some applied
          → (installed w₀ (name_of applied.tun_name) ≡ none) × Known applied.tun_name ips)
      → installed (cleanup_if_applied platform m d w).1 j ≡ installed w₀ j
  unfolding cleanup_dns
  cleanup-installed none text ips w₀ w j h out fresh = h
  cleanup-installed (some d) text ips w₀ w j h out fresh =
      r.cleaned d ips w j (fresh d refl).1 out ∙ elim (Bool-cases (str_eq (name_of d.tun_name) j)) [
        | inl same ↦
            rw same
              (sym (fresh d refl).0 ∙ ap (installed w₀) ((eq_iff (name_of d.tun_name) j).0 same))
        | inr other ↦ rw other (rw other at h)
      ]

  pub drop_guard-installed :
      (g : CleanupGuard) (text : String) (ips : List IpAddr) (w₀ w : World) (j : String)
      → installed w j ≡ with_servers g.applied_dns text w₀ j
      → IsTakenOut g.applied_dns w
      → ((applied : AppliedDns)
          → g.applied_dns ≡ some applied
          → (installed w₀ (name_of applied.tun_name) ≡ none) × Known applied.tun_name ips)
      → installed (drop_guard platform m g w).1 j ≡ installed w₀ j
  unfolding drop_guard
  drop_guard-installed g text ips w₀ w j h out fresh =
      cleanup_routes-Keeps m (λ w. installed w j) (λ args w. r.route_keeps args w j) g.added_routes
        _
      ∙ cleanup-installed g.applied_dns text ips w₀ w j h out fresh

  -- A recheck keeps what was applied and what is installed.
  abbrev pub Serves : Option AppliedDns → String → World → CleanupGuard → World → Type 0
  Serves d text w₀ g w =
      (g.applied_dns ≡ d) × ((j : String) → installed w j ≡ with_servers d text w₀ j)

  pub recheck_guard-Serves :
      (d : Option AppliedDns) (text : String) (w₀ : World) (g : CleanupGuard) (w : World)
      → Serves d text w₀ g w
      → let (g', w') = recheck_guard platform m g w in Serves d text w₀ g' w'
  unfolding recheck_guard
  recheck_guard-Serves d text w₀ g w (same, h) = (
    same,
    λ j.
        recheck_routes-Keeps m (λ w. installed w j) (λ args w. r.route_keeps args w j)
          g.added_routes w
        ∙ h j,
  )
