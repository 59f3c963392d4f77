-- ===== src/Peers/Build.antt =====
-- smartguard-crypto/src/lib.rs: `build_sessions`. The crate `rustyguard_core` is a parameter.
use smartguard.Prelude.{Option, List, [], ◌∷◌, Run, returns, run_bind}
use smartguard.Net.{SocketAddr, IpNetLib, IpNet}
use smartguard.Peers.{Key, PeerConfig}
use smartguard.Peers.PeerNet.{TrieLib, PeerNet, PeerNetBuilder, new, insert, build}

-- `rustyguard_crypto::StaticPeerConfig`, as its constructor takes it.
pub record StaticPeerConfig : Type 0 where
  pub key : Key
  pub preshared_key : Option Key
  pub endpoint : Option SocketAddr

-- `rustyguard_core`: the configuration that assigns an id to each peer, and the session manager
-- made of it. `from_oracle_async` and the randomness of `new_with` are taken to be in the values.
pub record CoreLib : Type 1 where
  pub PeerId : Type 0
  pub Config : Type 0
  pub Sessions : Type 0
  pub sentinal : PeerId
  pub insert_peer : Config → StaticPeerConfig → PeerId × Config
  pub new_with : Config → Sessions

abbrev pub static_config : {n : IpNetLib} → PeerConfig n → StaticPeerConfig
static_config peer = record {
  key = peer.public_key;
  preshared_key = peer.preshared_key;
  endpoint = peer.endpoint;
}

module _ (c : CoreLib) (t4 t6 : TrieLib c.PeerId) (n : IpNetLib) where
  open c use {PeerId, Config, Sessions}

  -- The inner loop, over one peer's allowed networks.
  unfoldable pub insert_all :
      PeerNetBuilder t4 t6 → List (IpNet n) → PeerId → Run (PeerNetBuilder t4 t6)
  insert_all builder [] id = returns builder
  insert_all builder (prefix ∷ rest) id =
      run_bind (insert t4 t6 n builder prefix id) λ builder'. insert_all builder' rest id

  -- What the loop over the peers has made so far, the ids in their order.
  pub record Built : Type 0 where
    pub config : Config
    pub builder : PeerNetBuilder t4 t6
    pub peer_ids : List PeerId

  unfoldable pub add_peers : Config → PeerNetBuilder t4 t6 → List (PeerConfig n) → Run Built
  unfolding insert_all
  add_peers config builder [] =
      returns (record { config = config; builder = builder; peer_ids = [] })
  add_peers config builder (peer ∷ peers) =
      let (id, config') = c.insert_peer config (static_config peer) in
      run_bind (insert_all builder peer.allowed_ips id) λ builder'.
        run_bind (add_peers config' builder' peers)
          λ rest. returns (record rest { peer_ids = id ∷ rest.peer_ids })

  unfoldable pub build_sessions :
      Config → List (PeerConfig n) → Run (Sessions × PeerNet t4 t6 × List PeerId)
  unfolding add_peers
  build_sessions config peers =
      run_bind (add_peers config (new t4 t6 c.sentinal) peers)
        λ made. returns (c.new_with made.config, build t4 t6 made.builder, made.peer_ids)
