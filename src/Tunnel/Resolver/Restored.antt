-- ===== src/Tunnel/Resolver/Restored.antt =====
-- smartguard/src/tunnel.rs: what a whole run does to the resolver.
use smartguard.Prelude.{
  ℕ, String, Option, none, some, List, [], ◌∷◌, ◌≡◌, refl, sym, ap, subst, ◌∙◌, inl, inr,
  Bool-cases, Run, returns, panics,
}
use smartguard.Config.{ℤ}
use smartguard.Dns.{Platform, macos, AppliedDns}
use smartguard.Machine.{Machine}
use smartguard.Net.{IpAddr, SocketAddr, IpNetLib, IpNet}
use smartguard.Peers.{PeerConfig}
use smartguard.Peers.Build.{build_sessions}
use smartguard.Peers.PeerNet.{TrieLib, PeerNet}
use smartguard.Session.Handle.{SessionLib}
use smartguard.Tunnel.Loop.{LoopState, Flow, Reach}
use smartguard.Tunnel.Loop.Guarded.{Reach-Kept}
use smartguard.Tunnel.Start.{
  tun_config, apply_ipv6_addrs, CoreOf, core_of, Answers, Begin, refused, begin_panicked, begun,
  Begun, setting_of, state_of, with_device, device_or_refuse, with_sessions, begin_tunnel,
}
use smartguard.Tunnel.Guard.{CleanupGuard, bring_up, drop_guard}
use smartguard.Tunnel.Resolver.{
  Serving, with_servers, with_servers_cong, bring_up-installed, bring_up-applied, IsTakenOut,
  drop_guard-installed, Serves, recheck_guard-Serves,
}
use smartguard.Tunnel.Resolver.Programs.{Resolver, Scutil, on_macos}

module _ {platform : Platform} {m : Machine} (r : Serving platform m) (l : SessionLib)
    (t4 t6 : TrieLib l.PeerId) (turn : l.Sessions → Option (List ℕ × SocketAddr) × l.Sessions)
    (n : IpNetLib) (core : CoreOf l) (answers : Answers n) (config : core.Config)
    (peers : List (PeerConfig n)) (tun_addrs : List (IpNet n)) (mtu : ℤ)
    (dns_servers : List IpAddr) where
  open m use {World}
  open r use {installed, name_of, text_of, Known}

  -- The programs of the platform know the device that is created, and the servers.
  abbrev pub IsKnown : Type 0
  IsKnown =
      (tun_name : String)
      → answers.created (tun_config tun_addrs mtu) ≡ some tun_name
      → Known tun_name dns_servers

  -- What a start that ended in `b` and all that can follow on it do to the resolver: in the loop it has
  -- what it had, and the servers if they were applied; after it, what it had.
  abbrev pub RestoresResolver :
      World → Begin (Begun platform m l t4 t6 turn n core) → World → Type 0
  RestoresResolver w refused w₁ = (j : String) → installed w₁ j ≡ installed w j
  RestoresResolver w begin_panicked w₁ = (j : String) → installed w₁ j ≡ installed w j
  RestoresResolver w (begun b) w₁ =
      (s : LoopState l) (w₂ : World) (f : Flow) (j : String)
      → Reach (setting_of platform m l t4 t6 turn n core b)
          (state_of platform m l t4 t6 turn n core b) w₁ s w₂ f
      → (installed w₂ j ≡ with_servers r b.guard.applied_dns (text_of dns_servers) w j)
        × (IsTakenOut r b.guard.applied_dns w₂
            → ((applied : AppliedDns)
                → b.guard.applied_dns ≡ some applied
                → installed w (name_of applied.tun_name) ≡ none)
            → installed (drop_guard platform m s.guard w₂).1 j ≡ installed w j)

  apply_ipv6_addrs-installed :
      (tun_name : String) (addrs : List (IpNet n)) (w : World) (j : String)
      → installed (apply_ipv6_addrs m platform n tun_name addrs w).1 j ≡ installed w j
  unfolding apply_ipv6_addrs
  apply_ipv6_addrs-installed tun_name [] w j = refl
  apply_ipv6_addrs-installed tun_name (IpNet.v4 p ∷ addrs) w j =
      apply_ipv6_addrs-installed tun_name addrs w j
  apply_ipv6_addrs-installed tun_name (IpNet.v6 p ∷ addrs) w j =
      apply_ipv6_addrs-installed tun_name addrs _ j ∙ r.address_keeps tun_name (n.display6 p) w j

  -- The guard of a state of the loop, and what it says of the resolver.
  served-drop :
      (d : Option AppliedDns) (text : String) (w : World) (g : CleanupGuard) (w₂ : World)
      (j : String)
      → Serves r d text w g w₂
      → ((applied : AppliedDns) → d ≡ some applied → Known applied.tun_name dns_servers)
      → (installed w₂ j ≡ with_servers r d text w j)
        × (IsTakenOut r d w₂
            → ((applied : AppliedDns)
                → d ≡ some applied
                → installed w (name_of applied.tun_name) ≡ none)
            → installed (drop_guard platform m g w₂).1 j ≡ installed w j)
  served-drop d text w g w₂ j (same, h) known = (
    h j,
    λ out fresh.
        drop_guard-installed r g text dns_servers w w₂ j
          (h j ∙ ap (λ a. with_servers r a text w j) (sym same))
          (subst (λ a. IsTakenOut r a w₂) (sym same) out)
          (λ applied e. (fresh applied (sym same ∙ e), known applied (sym same ∙ e))),
  )

  with_device-RestoresResolver :
      (built : l.Sessions × PeerNet t4 t6 × List l.PeerId) (tun_name : String) (w : World)
      → Known tun_name dns_servers
      → let s =
          with_device platform m l t4 t6 turn n core answers built tun_name peers tun_addrs
            dns_servers w in
        RestoresResolver w s.0 s.1
  unfolding with_device
  with_device-RestoresResolver built tun_name w known s w₂ f j reach =
      let text : String = text_of dns_servers in
      let up : World = (apply_ipv6_addrs m platform n tun_name tun_addrs w).1 in
      let (g, w₁) = bring_up platform m n tun_name peers tun_addrs dns_servers up in
      served-drop g.applied_dns text w s.guard w₂ j
        (Reach-Kept _ (Serves r g.applied_dns text w) (recheck_guard-Serves r g.applied_dns text w)
          (
            refl,
            λ i.
                bring_up-installed r n tun_name peers tun_addrs dns_servers up i known
                ∙ with_servers_cong r g.applied_dns text up w i
                    (apply_ipv6_addrs-installed tun_name tun_addrs w i),
          )
          reach)
        (λ applied e.
          subst (λ name. Known name dns_servers)
            (sym (bring_up-applied r n tun_name peers tun_addrs dns_servers up applied e)) known)

  device_or_refuse-RestoresResolver :
      (built : l.Sessions × PeerNet t4 t6 × List l.PeerId) (created : Option String) (w : World)
      → ((tun_name : String) → created ≡ some tun_name → Known tun_name dns_servers)
      → let s =
          device_or_refuse platform m l t4 t6 turn n core answers built created peers tun_addrs
            dns_servers w in
        RestoresResolver w s.0 s.1
  unfolding with_device
  device_or_refuse-RestoresResolver built none w known = λ j. refl
  device_or_refuse-RestoresResolver built (some tun_name) w known =
      elim (Bool-cases answers.wrapped) [
        | inl ready ↦ rw ready (with_device-RestoresResolver built tun_name w (known tun_name refl))
        | inr not_ready ↦ rw not_ready (λ j. refl)
      ]

  with_sessions-RestoresResolver :
      (built : Run (l.Sessions × PeerNet t4 t6 × List l.PeerId)) (w : World)
      → IsKnown
      → let s =
          with_sessions platform m l t4 t6 turn n core answers built peers tun_addrs mtu dns_servers
            w in
        RestoresResolver w s.0 s.1
  unfolding with_device
  with_sessions-RestoresResolver panics w known = λ j. refl
  with_sessions-RestoresResolver (returns built) w known = elim (Bool-cases answers.bound) [
    | inl ready ↦ rw ready (device_or_refuse-RestoresResolver built _ w known)
    | inr not_ready ↦ rw not_ready (λ j. refl)
  ]

  pub begin_tunnel-Restores :
      (w : World)
      → IsKnown
      → let s =
          begin_tunnel platform m l t4 t6 turn n core answers config peers tun_addrs mtu dns_servers
            w in
        RestoresResolver w s.0 s.1
  unfolding begin_tunnel
  begin_tunnel-Restores w known =
      with_sessions-RestoresResolver (build_sessions (core_of l core) t4 t6 n config peers) w known

module _ {m : Machine} (l : SessionLib) (t4 t6 : TrieLib l.PeerId)
    (turn : l.Sessions → Option (List ℕ × SocketAddr) × l.Sessions) (n : IpNetLib) (core : CoreOf l)
    (answers : Answers n) (config : core.Config) (peers : List (PeerConfig n))
    (tun_addrs : List (IpNet n)) (mtu : ℤ) (dns_servers : List IpAddr) where
  -- Where `scutil` does what it documents and can read the name of the device and the servers: a run on macOS that fails before its guard is there sets no
  -- key. In every other, the key of the interface has the dictionary of the configured servers exactly
  -- if they were applied, and all keys have else what they had, as long as the loop goes; and if the
  -- interface had no key before and the removal succeeds, they have what they had once the guard is
  -- dropped, whatever events came and however the loop was left.
  pub begin_tunnel-RestoresKeys :
      (r : Scutil m) (w : m.World)
      → ((tun_name : String)
          → answers.created (tun_config tun_addrs mtu) ≡ some tun_name
          → r.Readable tun_name dns_servers)
      → let s =
          begin_tunnel macos m l t4 t6 turn n core answers config peers tun_addrs mtu dns_servers
            w in
        RestoresResolver
          (on_macos r)
          l
          t4
          t6
          turn
          n
          core
          answers
          config
          peers
          tun_addrs
          mtu
          dns_servers
          w
          s.0
          s.1
  unfolding on_macos
  begin_tunnel-RestoresKeys r w readable =
      begin_tunnel-Restores (on_macos r) l t4 t6 turn n core answers config peers tun_addrs mtu
        dns_servers w readable
