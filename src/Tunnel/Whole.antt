-- ===== src/Tunnel/Whole.antt =====
-- smartguard/src/tunnel.rs: a whole run, from its start to the clean-up.
use smartguard.Prelude.{
  ℕ, String, Bool-cases, Option, none, some, List, ◌≡◌, ◌≢◌, refl, ◌⊎◌, inl, inr, Run, returns,
  panics,
}
use smartguard.Config.{ℤ}
use smartguard.Dns.{Platform}
use smartguard.Machine.{Machine}
use smartguard.Net.{IpAddr, SocketAddr, IpNetLib, IpNet}
use smartguard.Peers.{PeerConfig}
use smartguard.Peers.Build.{build_sessions}
use smartguard.Peers.PeerNet.{TrieLib, PeerNet}
use smartguard.Route.Kernel.{RouteKey, Kernel}
use smartguard.Session.Handle.{SessionLib}
use smartguard.Route.Lifecycle.{Refused}
use smartguard.Tunnel.Guard.{cleanup_if_applied, drop_guard}
use smartguard.Tunnel.Restore.{bring_up-Installed}
use smartguard.Tunnel.Loop.{Setting, World, LoopState, Flow, panicked, Reach}
use smartguard.Tunnel.Loop.Account.{Reach-drop_guard}
use smartguard.Tunnel.Loop.Indexed.{EventsFit, Reach-ne-panicked}
use smartguard.Session.Extern.{Layout}
use smartguard.Session.Total.{Fitting}
use smartguard.Tunnel.Start.{
  apply_ipv6_addrs, tun_config, CoreOf, core_of, Answers, Begin, refused, begin_panicked, begun,
  Begun, setting_of, state_of, with_device, device_or_refuse, with_sessions, begin_tunnel,
}

module _ (platform : Platform) {m : Machine} (k : Kernel m) (l : SessionLib)
    (t4 t6 : TrieLib l.PeerId) (turn : l.Sessions → Option (List ℕ × SocketAddr) × l.Sessions)
    (n : IpNetLib) (core : CoreOf l) (answers : Answers n) (config : core.Config)
    (peers : List (PeerConfig n)) (tun_addrs : List (IpNet n)) (mtu : ℤ)
    (dns_servers : List IpAddr) where
  open m use {World}
  open k use {entry}

  -- What a start that ended in `b` and all that can follow on it leave in the routing table, over the
  -- table when the interface has its addresses.
  abbrev pub RestoresTable : World → Begin (Begun platform m l t4 t6 turn n core) → World → Type 0
  RestoresTable w refused w₁ = w₁ ≡ w
  RestoresTable w begin_panicked w₁ = w₁ ≡ w
  RestoresTable w (begun b) w₁ =
      (tun_name : String) × (answers.created (tun_config tun_addrs mtu) ≡ some tun_name)
      × ((s : LoopState l) (w₂ : World) (f : Flow) (j : RouteKey)
          → Reach (setting_of platform m l t4 t6 turn n core b)
              (state_of platform m l t4 t6 turn n core b) w₁ s w₂ f
          → (entry (drop_guard platform m s.guard w₂).1 j
              ≡ entry (apply_ipv6_addrs m platform n tun_name tun_addrs w).1 j)
            ⊎ (Refused k s.guard.added_routes
                  (cleanup_if_applied platform m s.guard.applied_dns w₂).1 j
                × (entry (drop_guard platform m s.guard w₂).1 j ≡ entry w₂ j)))

  with_device-RestoresTable :
      (built : l.Sessions × PeerNet t4 t6 × List l.PeerId) (tun_name : String) (w : World)
      → answers.created (tun_config tun_addrs mtu) ≡ some tun_name
      → let r =
          with_device platform m l t4 t6 turn n core answers built tun_name peers tun_addrs
            dns_servers w in
        RestoresTable w r.0 r.1
  unfolding with_device
  with_device-RestoresTable built tun_name w e = (
    tun_name,
    e,
    λ s w₂ f j r.
        Reach-drop_guard _ k (apply_ipv6_addrs m platform n tun_name tun_addrs w).1 j
          (bring_up-Installed k platform n tun_name peers tun_addrs dns_servers _).adds r,
  )

  device_or_refuse-RestoresTable :
      (built : l.Sessions × PeerNet t4 t6 × List l.PeerId) (created : Option String) (w : World)
      → answers.created (tun_config tun_addrs mtu) ≡ created
      → let r =
          device_or_refuse platform m l t4 t6 turn n core answers built created peers tun_addrs
            dns_servers w in
        RestoresTable w r.0 r.1
  unfolding with_device
  device_or_refuse-RestoresTable built none w e = refl
  device_or_refuse-RestoresTable built (some tun_name) w e = elim (Bool-cases answers.wrapped) [
    | inl ready ↦ rw ready (with_device-RestoresTable built tun_name w e)
    | inr not_ready ↦ rw not_ready refl
  ]

  with_sessions-RestoresTable :
      (built : Run (l.Sessions × PeerNet t4 t6 × List l.PeerId)) (w : World)
      → let r =
          with_sessions platform m l t4 t6 turn n core answers built peers tun_addrs mtu dns_servers
            w in
        RestoresTable w r.0 r.1
  unfolding with_device
  with_sessions-RestoresTable panics w = refl
  with_sessions-RestoresTable (returns built) w = elim (Bool-cases answers.bound) [
    | inl ready ↦ rw ready (device_or_refuse-RestoresTable built _ w refl)
    | inr not_ready ↦ rw not_ready refl
  ]

  -- Where `route` does what it documents, failures included, a run that fails before its guard is
  -- there changes nothing, and every other leaves each entry of the routing table, once the guard is
  -- dropped, as it was when the interface had its addresses, unless the clean-up finds in the table a
  -- route with the entry's key that the guard accounts for, and its removal fails or is not started;
  -- the entry is then left as it was before the clean-up. This is so whatever events came, whatever
  -- other commands failed, and whether the loop was ended by a signal, an error or a panic.
  pub begin_tunnel-RestoresTable :
      (w : World)
      → let r =
          begin_tunnel platform m l t4 t6 turn n core answers config peers tun_addrs mtu dns_servers
            w in
        RestoresTable w r.0 r.1
  unfolding begin_tunnel
  begin_tunnel-RestoresTable w =
      with_sessions-RestoresTable (build_sessions (core_of l core) t4 t6 n config peers) w

module _ (platform : Platform) (m : Machine) (l : SessionLib) (t4 t6 : TrieLib l.PeerId)
    (turn : l.Sessions → Option (List ℕ × SocketAddr) × l.Sessions) (n : IpNetLib) (core : CoreOf l)
    (b : Begun platform m l t4 t6 turn n core) where
  abbrev pub at_start : Setting
  at_start = setting_of platform m l t4 t6 turn n core b

  -- Where the layout holds, data is encrypted in place and a message of the protocol is at most 148
  -- bytes, the loop never panics, however it was begun and whatever events come, as long as each packet
  -- that is read is within the buffer with room for its frame.
  pub begun-ne-panicked :
      (layout : Layout l) (fitting : Fitting l) (w : World at_start) (s : LoopState l)
      (w' : World at_start) (f : Flow)
      (r : Reach at_start (state_of platform m l t4 t6 turn n core b) w s w' f)
      → EventsFit at_start layout fitting r
      → f ≢ panicked
  begun-ne-panicked layout fitting w s w' f r fits =
      Reach-ne-panicked at_start layout fitting (record { endpoints = refl; first_host = refl }) r
        fits
