-- ===== src/Cli/Restores.antt =====
-- smartguard/src/main.rs: what the whole process leaves in the routing table.
use smartguard.Prelude.{
  ℕ, String, Option, some, List, ◌≡◌, refl, Run, returns, panics, Bool-cases, inl, inr,
}
use smartguard.Config.{Config}
use smartguard.Dns.{Platform}
use smartguard.Machine.{Machine}
use smartguard.Net.{SocketAddr, IpNetLib, IpNet}
use smartguard.Peers.PeerNet.{TrieLib}
use smartguard.Route.Kernel.{RouteKey, Kernel, Removes}
use smartguard.Route.Lifecycle.{of_none_refused}
use smartguard.Session.Handle.{SessionLib}
use smartguard.Card.{CardLib}
use smartguard.Cli.{Result, KeySource, in_memory, on_card, Launch, cmd_up}
use smartguard.Cli.Smartcard.{
  Started, without_pin, without_runtime, without_card, start_panics, started,
}
use smartguard.Cli.Process.{
  Command, up, down, status, show_card, Loaded, loaded, not_loaded, from_file, Oracle, static_key,
  card_handle, Ending, exits, panicked, in_loop, Outside, as_ending, tunnel_with, with_started,
  with_source, run_launch, after_cmd_up, after_load, main,
}
use smartguard.Tunnel.Guard.{cleanup_if_applied, drop_guard}
use smartguard.Tunnel.Loop.{LoopState, Flow, Reach}
use smartguard.Tunnel.Start.{
  tun_config, apply_ipv6_addrs, CoreOf, Begin, refused, begin_panicked, begun, Begun, setting_of,
  state_of,
}
use smartguard.Tunnel.Whole.{RestoresTable, begin_tunnel-RestoresTable}

module _ (platform : Platform) {m : Machine} (k : Kernel m) (l : SessionLib)
    (t4 t6 : TrieLib l.PeerId) (turn : l.Sessions → Option (List ℕ × SocketAddr) × l.Sessions)
    (n : IpNetLib) (core : CoreOf l) (c : CardLib) (from_oracle : Oracle c.Card → core.Config)
    (parse_net : String → Option (IpNet n)) (o : Outside n) where
  open m use {World}
  open k use {entry}

  -- What a process that ended, or came to the loop in `b`, and all that can follow on it leave in the
  -- routing table. It comes to the loop only with arguments of which `Why` holds.
  abbrev pub LeavesTable :
      (Launch n → Type 0) → World → Ending (Begun platform m l t4 t6 turn n core) → World → Type 0
  LeavesTable Why w (exits code) w₁ = w₁ ≡ w
  LeavesTable Why w panicked w₁ = w₁ ≡ w
  LeavesTable Why w (in_loop b) w₁ =
      (launch : Launch n) × Why launch
      × (tun_name : String) × (o.answers.created (tun_config launch.tun_addrs launch.mtu)
          ≡ some tun_name)
      × ((s : LoopState l) (w₂ : World) (f : Flow) (j : RouteKey)
          → Reach (setting_of platform m l t4 t6 turn n core b)
              (state_of platform m l t4 t6 turn n core b) w₁ s w₂ f
          → entry (drop_guard platform m s.guard w₂).1 j
            ≡ entry (apply_ipv6_addrs m platform n tun_name launch.tun_addrs w).1 j)

  -- The arguments are those of `up` with a configuration that was read.
  abbrev pub IsLaunch : Command → Launch n → Type 0
  IsLaunch command launch =
      (path : String) × (config : Config) × (command ≡ up path)
      × (from_file o.files path ≡ loaded config)
      × (cmd_up n parse_net o.surroundings config ≡ returns (Result.ok launch))

  abbrev After :
      (Launch n → Type 0)
      → World
      → Ending (Begun platform m l t4 t6 turn n core) × (c.World × World)
      → Type 0
  After Why w r = LeavesTable Why w r.0 r.1.1

  module _ (removes : Removes k) where
    as_ending-LeavesTable :
        (Why : Launch n → Type 0) (launch : Launch n) (why : Why launch) (oracle : Oracle c.Card)
        (w : World) (r : Begin (Begun platform m l t4 t6 turn n core)) (w₁ : World)
        → RestoresTable platform k l t4 t6 turn n core o.answers
            (from_oracle oracle)
            launch.peers
            launch.tun_addrs
            launch.mtu
            launch.dns
            w
            r
            w₁
        → LeavesTable Why w
            (as_ending platform m l t4 t6 turn n core c from_oracle parse_net o r)
            w₁
    as_ending-LeavesTable Why launch why oracle w refused w₁ h = h
    as_ending-LeavesTable Why launch why oracle w begin_panicked w₁ h = h
    as_ending-LeavesTable Why launch why oracle w (begun b) w₁ h = (
      launch,
      why,
      h.0,
      h.1,
      λ s w₂ f j r.
          of_none_refused k removes s.guard.added_routes
            (cleanup_if_applied platform m s.guard.applied_dns w₂).1 j (h.2 s w₂ f j r),
    )

    tunnel_with-After :
        (Why : Launch n → Type 0) (launch : Launch n) (why : Why launch) (oracle : Oracle c.Card)
        (b : c.World × World)
        → After Why b.1
            (tunnel_with platform m l t4 t6 turn n core c from_oracle parse_net o oracle launch b)
    unfolding tunnel_with
    tunnel_with-After Why launch why oracle b =
        as_ending-LeavesTable Why launch why oracle b.1 _ _ (
          begin_tunnel-RestoresTable platform k l t4 t6 turn n core o.answers (from_oracle oracle)
            launch.peers launch.tun_addrs launch.mtu launch.dns b.1)

    with_started-After :
        (Why : Launch n → Type 0) (launch : Launch n) (why : Why launch) (b : c.World × World)
        (s : Started c.Card)
        → After Why b.1
            (with_started platform m l t4 t6 turn n core c from_oracle parse_net o launch b s)
    unfolding tunnel_with
    with_started-After Why launch why b (without_pin e) = refl
    with_started-After Why launch why b without_runtime = refl
    with_started-After Why launch why b (without_card e) = refl
    with_started-After Why launch why b start_panics = refl
    with_started-After Why launch why b (started key h) =
        tunnel_with-After Why launch why (card_handle h) b

    with_source-After :
        (Why : Launch n → Type 0) (launch : Launch n) (why : Why launch) (b : c.World × World)
        (source : KeySource)
        → After Why b.1
            (with_source platform m l t4 t6 turn n core c from_oracle parse_net o launch b source)
    with_source-After Why launch why b (in_memory key) =
        tunnel_with-After Why launch why (static_key key) b
    with_source-After Why launch why b (on_card ident pin) = with_started-After Why launch why _ _

    run_launch-After :
        (Why : Launch n → Type 0) (launch : Launch n) (why : Why launch) (b : c.World × World)
        → After Why b.1
            (run_launch platform m l t4 t6 turn n core c from_oracle parse_net o launch b)
    unfolding run_launch
    run_launch-After Why launch why b = elim (Bool-cases o.built) [
      | inl built ↦ rw built (with_source-After Why launch why b launch.source)
      | inr not_built ↦ rw not_built refl
    ]

    after_cmd_up-After :
        (path : String) (config : Config) (b : c.World × World) (r : Run (Result (Launch n)))
        → from_file o.files path ≡ loaded config
        → cmd_up n parse_net o.surroundings config ≡ r
        → After
            (IsLaunch (up path))
            b.1
            (after_cmd_up platform m l t4 t6 turn n core c from_oracle parse_net o b r)
    after_cmd_up-After path config b panics read e = refl
    after_cmd_up-After path config b (returns (Result.err x)) read e = refl
    after_cmd_up-After path config b (returns (Result.ok launch)) read e =
        run_launch-After (IsLaunch (up path)) launch (path, config, refl, read, e) b

    after_load-After :
        (path : String) (b : c.World × World) (r : Loaded)
        → from_file o.files path ≡ r
        → After
            (IsLaunch (up path))
            b.1
            (after_load platform m l t4 t6 turn n core c from_oracle parse_net o b r)
    unfolding run_launch
    after_load-After path b (not_loaded e) read = refl
    after_load-After path b (loaded config) read = after_cmd_up-After path config b _ read refl

    -- Where `route` does what it documents, and no removal of an entry that is there fails: a process
    -- that ends before its tunnel's guard is there changes nothing of the machine. One comes to the
    -- loop only for `up`, with the arguments that its configuration gives, and leaves each entry of the
    -- routing table, once the guard is dropped, as it was when the interface had its addresses,
    -- whatever the loop's events were and however it was left.
    pub main-LeavesTable :
        (command : Command) (b : c.World × World)
        → let (ending, b') =
            main platform m l t4 t6 turn n core c from_oracle parse_net o command b in
          LeavesTable (IsLaunch command) b.1 ending b'.1
    unfolding main
    main-LeavesTable (up path) b = after_load-After path b (from_file o.files path) refl
    main-LeavesTable down b = refl
    main-LeavesTable status b = refl
    main-LeavesTable show_card b = refl
