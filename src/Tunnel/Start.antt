-- ===== src/Tunnel/Start.antt =====
-- smartguard/src/tunnel.rs: `run_tunnel` up to its event loop. The socket, the device and the
-- signals are given by what their calls answer; what is printed is left out.
use smartguard.Prelude.{
  ℕ, String, Bool, false, Option, none, some, List, [], ◌∷◌, ◌++◌, State, ◌>>=◌, ◌>>◌, pure, Run,
  returns, panics, replicate, if◌then◌else◌,
}
use smartguard.Config.{ℤ}
use smartguard.Dns.{Platform, macos, linux, other}
use smartguard.Machine.{Machine}
use smartguard.Net.{IpAddr, SocketAddr, IpNetLib, IpNet}
use smartguard.Peers.{PeerConfig}
use smartguard.Peers.PeerNet.{TrieLib, PeerNet}
use smartguard.Peers.Build.{CoreLib, StaticPeerConfig, build_sessions}
use smartguard.Session.Handle.{SendMessage, error, maintenance, payload, SessionLib}
use smartguard.Tunnel.Guard.{CleanupGuard, bring_up}
use smartguard.Tunnel.Keepalive.{PeerRuntime, peer_runtimes, endpoint_pairs, host_route_idx}
use smartguard.Tunnel.Loop.{Setting, LoopState, Flow, goes_on, ends_err}

abbrev pub status_ok : Option Bool → Bool
status_ok none = false
status_ok (some success) = success

module _ (m : Machine) where
  open m use {World, status}

  unfoldable pub apply_ipv6_addr : Platform → String → String → State World Bool
  apply_ipv6_addr macos tun_name cidr = do
    ended ← status "ifconfig" (tun_name ∷ "inet6" ∷ cidr ∷ "alias" ∷ [])
    pure (status_ok ended)
  apply_ipv6_addr linux tun_name cidr = do
    ended ← status "ip" ("-6" ∷ "addr" ∷ "add" ∷ cidr ∷ "dev" ∷ tun_name ∷ [])
    pure (status_ok ended)
  apply_ipv6_addr other tun_name cidr = pure false

  -- The loop over the interface's addresses.
  unfoldable pub apply_ipv6_addrs :
      Platform → (n : IpNetLib) → String → List (IpNet n) → State World (Unit {0})
  unfolding apply_ipv6_addr
  apply_ipv6_addrs platform n tun_name [] = pure tt
  apply_ipv6_addrs platform n tun_name (IpNet.v4 p ∷ addrs) =
      apply_ipv6_addrs platform n tun_name addrs
  apply_ipv6_addrs platform n tun_name (IpNet.v6 p ∷ addrs) =
      apply_ipv6_addr platform tun_name (n.display6 p) >> apply_ipv6_addrs platform n tun_name addrs

-- `v4_addr`: the first IPv4 address of the interface.
unfoldable pub first_v4 : {n : IpNetLib} → List (IpNet n) → Option n.Ipv4Net
first_v4 [] = none
first_v4 (IpNet.v4 p ∷ addrs) = some p
first_v4 (IpNet.v6 p ∷ addrs) = first_v4 addrs

-- What `tun::platform::create` is asked for; `up` is always asked for.
pub record TunConfig (n : IpNetLib) : Type 0 where
  pub address : Option n.Ipv4Net
  pub mtu : ℤ

unfoldable pub tun_config : {n : IpNetLib} → List (IpNet n) → ℤ → TunConfig n
unfolding first_v4
tun_config addrs mtu = record { address = first_v4 addrs; mtu = mtu }

-- What `Sessions` is made of, for the ids and sessions of `l`.
pub record CoreOf (l : SessionLib) : Type 1 where
  pub Config : Type 0
  pub sentinal : l.PeerId
  pub insert_peer : Config → StaticPeerConfig → l.PeerId × Config
  pub new_with : Config → l.Sessions

abbrev pub core_of : (l : SessionLib) → CoreOf l → CoreLib
core_of l o = record {
  PeerId = l.PeerId;
  Config = o.Config;
  Sessions = l.Sessions;
  sentinal = o.sentinal;
  insert_peer = o.insert_peer;
  new_with = o.new_with;
}

-- What the calls of the start answer: whether the socket is bound, the name of the device if one is
-- created, whether it can be used asynchronously, whether the signals can be awaited; and the
-- instant at which the peers' clocks start.
pub record Answers (n : IpNetLib) : Type 0 where
  pub bound : Bool
  pub created : TunConfig n → Option String
  pub wrapped : Bool
  pub signals : Bool
  pub now : ℕ

-- The start of `run_tunnel` fails before the guard is there, or panics, or comes to the loop.
pub data Begin (A : Type 0) : Type 0 where
  refused begin_panicked : Begin A
  begun : A → Begin A

-- The datagram of a first handshake.
abbrev pub first_handshake : {M : Type 0} → SendMessage M → List (List ℕ × SocketAddr)
first_handshake error = []
first_handshake (maintenance bytes to) = (bytes, to) ∷ []
first_handshake (payload ep metadata) = []

-- The first handshakes: their datagrams, with the sessions after them.
unfoldable pub initiate :
    (l : SessionLib)
    → List (PeerRuntime l.PeerId)
    → l.Sessions
    → List (List ℕ × SocketAddr) × l.Sessions
initiate l [] sessions = ([], sessions)
initiate l (p ∷ peers) sessions =
    let (msg, slot, sessions') = l.send_message sessions p.id (replicate 16 0) in
    let rest = initiate l peers sessions' in (first_handshake msg ++ rest.0, rest.1)

module _ (platform : Platform) (m : Machine) (l : SessionLib) (t4 t6 : TrieLib l.PeerId)
    (turn : l.Sessions → Option (List ℕ × SocketAddr) × l.Sessions) (n : IpNetLib)
    (core : CoreOf l) where
  open m use {World}

  -- What stands when the loop begins.
  pub record Begun : Type 0 where
    pub peer_net : PeerNet t4 t6
    pub peers : List (PeerRuntime l.PeerId)
    pub sessions : l.Sessions
    pub guard : CleanupGuard
    pub initiated : List (List ℕ × SocketAddr)
    pub flow : Flow

  -- The index of the endpoints and the position of the first bypass are taken once.
  abbrev pub setting_of : Begun → Setting
  setting_of b = record {
    platform = platform;
    machine = m;
    lib = l;
    t4 = t4;
    t6 = t6;
    peer_net = b.peer_net;
    pairs = endpoint_pairs 0 b.peers;
    host_idx = host_route_idx b.guard.added_routes;
    turn = turn;
  }

  abbrev pub state_of : Begun → LoopState l
  state_of b = record { peers = b.peers; sessions = b.sessions; guard = b.guard }

  -- From the interface's addresses on.
  unfoldable pub with_device :
      Answers n
      → l.Sessions × PeerNet t4 t6 × List l.PeerId
      → String
      → List (PeerConfig n)
      → List (IpNet n)
      → List IpAddr
      → State World (Begin Begun)
  unfolding apply_ipv6_addrs bring_up peer_runtimes initiate
  with_device answers (sessions, peer_net, ids) tun_name peers tun_addrs dns_servers = do
    apply_ipv6_addrs m platform n tun_name tun_addrs
    guard ← bring_up platform m n tun_name peers tun_addrs dns_servers
    let runtimes = peer_runtimes {n = n} answers.now ids peers
    let first = initiate l runtimes sessions
    pure (
        begun (record {
          peer_net = peer_net;
          peers = runtimes;
          sessions = first.1;
          guard = guard;
          initiated = first.0;
          flow = if answers.signals then goes_on else ends_err;
        }))

  abbrev pub device_or_refuse :
      Answers n
      → l.Sessions × PeerNet t4 t6 × List l.PeerId
      → Option String
      → List (PeerConfig n)
      → List (IpNet n)
      → List IpAddr
      → State World (Begin Begun)
  device_or_refuse answers built none peers tun_addrs dns_servers = pure refused
  device_or_refuse answers built (some tun_name) peers tun_addrs dns_servers =
      if answers.wrapped
      then with_device answers built tun_name peers tun_addrs dns_servers
      else pure refused

  abbrev pub with_sessions :
      Answers n
      → Run (l.Sessions × PeerNet t4 t6 × List l.PeerId)
      → List (PeerConfig n)
      → List (IpNet n)
      → ℤ
      → List IpAddr
      → State World (Begin Begun)
  with_sessions answers panics peers tun_addrs mtu dns_servers = pure begin_panicked
  with_sessions answers (returns built) peers tun_addrs mtu dns_servers =
      if answers.bound
      then device_or_refuse answers built (answers.created (tun_config tun_addrs mtu)) peers
          tun_addrs dns_servers
      else pure refused

  -- `run_tunnel` up to the loop.
  unfoldable pub begin_tunnel :
      Answers n
      → core.Config
      → List (PeerConfig n)
      → List (IpNet n)
      → ℤ
      → List IpAddr
      → State World (Begin Begun)
  unfolding build_sessions with_device tun_config
  begin_tunnel answers config peers tun_addrs mtu dns_servers =
      with_sessions answers (build_sessions (core_of l core) t4 t6 n config peers) peers tun_addrs
        mtu dns_servers
