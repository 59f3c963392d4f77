-- ===== src/Peers/Owner.antt =====
-- The table that `build_sessions` of smartguard-crypto/src/lib.rs builds: each address belongs to
-- the peer with the longest allowed network around it.
use smartguard.Prelude.{ℕ, some, List, [], ◌∷◌, ◌++◌, ◌≡◌, refl, ap, returns}
use mathlib.Core.List.{append_assoc, append-nil}
use smartguard.Net.{IpAddr, IpNetLib, IpNet}
use smartguard.Peers.{PeerConfig}
use smartguard.Peers.PeerNet.{TrieLib, PeerNet, PeerNetBuilder, lookup, new, insert, build}
use smartguard.Peers.Lpm.{IsLpm, Owns, Searched, Searched-root, Searched-insert}
use smartguard.Peers.Build.{CoreLib, static_config, insert_all, add_peers, build_sessions}

-- What the tables rely on: both tries search by longest prefix, and each network's text is read back
-- by `iptrie` as a prefix, the one that stands for it.
pub record Tables (n : IpNetLib) {V : Type 0} (t4 t6 : TrieLib V) : Type 0 where
  pub lpm4 : IsLpm t4
  pub lpm6 : IsLpm t6
  pub prefix4 : n.Ipv4Net → t4.Prefix
  pub prefix6 : n.Ipv6Net → t6.Prefix
  pub parse4 : (p : n.Ipv4Net) → t4.parse (n.display4 p) ≡ some (prefix4 p)
  pub parse6 : (p : n.Ipv6Net) → t6.parse (n.display6 p) ≡ some (prefix6 p)

module _ {n : IpNetLib} {V : Type 0} {t4 t6 : TrieLib V} (s : Tables n t4 t6) where
  -- The entries of each family among the networks with their peers.
  abbrev pub entries4 : List (IpNet n × V) → List (t4.Prefix × V)
  entries4 [] = []
  entries4 ((IpNet.v4 p, v) ∷ es) = (s.prefix4 p, v) ∷ entries4 es
  entries4 ((IpNet.v6 p, v) ∷ es) = entries4 es

  abbrev pub entries6 : List (IpNet n × V) → List (t6.Prefix × V)
  entries6 [] = []
  entries6 ((IpNet.v4 p, v) ∷ es) = entries6 es
  entries6 ((IpNet.v6 p, v) ∷ es) = (s.prefix6 p, v) ∷ entries6 es

  entries4-append : (xs ys : List (IpNet n × V)) → entries4 (xs ++ ys) ≡ entries4 xs ++ entries4 ys
  entries4-append [] ys = refl
  entries4-append ((IpNet.v4 p, v) ∷ es) ys = ap (◌∷◌ (s.prefix4 p, v)) (entries4-append es ys)
  entries4-append ((IpNet.v6 p, v) ∷ es) ys = entries4-append es ys

  entries6-append : (xs ys : List (IpNet n × V)) → entries6 (xs ++ ys) ≡ entries6 xs ++ entries6 ys
  entries6-append [] ys = refl
  entries6-append ((IpNet.v4 p, v) ∷ es) ys = entries6-append es ys
  entries6-append ((IpNet.v6 p, v) ∷ es) ys = ap (◌∷◌ (s.prefix6 p, v)) (entries6-append es ys)

  pub record Filled (sentinel : V) (b : PeerNetBuilder t4 t6) (es : List (IpNet n × V))
      : Type 0 where
    pub v4 : (a : List ℕ) → Searched s.lpm4 a sentinel b.v4 (entries4 es)
    pub v6 : (a : List ℕ) → Searched s.lpm6 a sentinel b.v6 (entries6 es)

  new-Filled : (sentinel : V) → Filled sentinel (new t4 t6 sentinel) []
  unfolding new
  new-Filled sentinel = record {
    v4 = λ a. Searched-root s.lpm4 a sentinel;
    v6 = λ a. Searched-root s.lpm6 a sentinel;
  }

  -- An insertion returns, and enters its network behind those that are there.
  insert-Filled :
      (sentinel : V) (b : PeerNetBuilder t4 t6) (es : List (IpNet n × V)) (p : IpNet n) (v : V)
      → Filled sentinel b es
      → (b' : PeerNetBuilder t4 t6) × (insert t4 t6 n b p v ≡ returns b')
        × Filled sentinel b' (es ++ (p, v) ∷ [])
  unfolding insert
  insert-Filled sentinel b es (IpNet.v4 p) v f = (
    record b { v4 = t4.insert b.v4 (s.prefix4 p) v },
    rw (s.parse4 p),
    record {
      v4 = λ a.
          rw (entries4-append es)
            (Searched-insert s.lpm4 a sentinel b.v4 (entries4 es) (s.prefix4 p) v (f.v4 a));
      v6 = λ a. rw (entries6-append es, append-nil (entries6 es)) (f.v6 a);
    },
  )
  insert-Filled sentinel b es (IpNet.v6 p) v f = (
    record b { v6 = t6.insert b.v6 (s.prefix6 p) v },
    rw (s.parse6 p),
    record {
      v4 = λ a. rw (entries4-append es, append-nil (entries4 es)) (f.v4 a);
      v6 = λ a.
          rw (entries6-append es)
            (Searched-insert s.lpm6 a sentinel b.v6 (entries6 es) (s.prefix6 p) v (f.v6 a));
    },
  )

  -- The table's answer for an address is the owner among the networks of its family.
  abbrev pub IsOwner : V → List (IpNet n × V) → IpAddr → V → Type 0
  IsOwner sentinel es (IpAddr.v4 a b c d) v =
      (len : ℕ) × Owns s.lpm4 (a ∷ b ∷ c ∷ d ∷ []) sentinel (entries4 es) v len
  IsOwner sentinel es (IpAddr.v6 octets) v =
      (len : ℕ) × Owns s.lpm6 octets sentinel (entries6 es) v len

  lookup-IsOwner :
      (sentinel : V) (b : PeerNetBuilder t4 t6) (es : List (IpNet n × V)) (ip : IpAddr)
      → Filled sentinel b es
      → IsOwner sentinel es ip (lookup t4 t6 (build t4 t6 b) ip)
  unfolding lookup build
  lookup-IsOwner sentinel b es (IpAddr.v4 x y z w) f = (_, f.v4 _)
  lookup-IsOwner sentinel b es (IpAddr.v6 octets) f = (_, f.v6 octets)

-- Every network of a peer, with the peer's id.
abbrev pub owned_by : {A V : Type 0} → V → List A → List (A × V)
owned_by id [] = []
owned_by id (x ∷ xs) = (x, id) ∷ owned_by id xs

module _ (c : CoreLib) {n : IpNetLib} {t4 t6 : TrieLib c.PeerId} (s : Tables n t4 t6) where
  open c use {PeerId, Config}

  -- The ids that the peers get, in their order, and the configuration with all of them in it.
  abbrev pub registered : Config → List (PeerConfig n) → List PeerId × Config
  registered config [] = ([], config)
  registered config (peer ∷ peers) =
      let (id, config') = c.insert_peer config (static_config peer) in
      let (ids, final) = registered config' peers in (id ∷ ids, final)

  -- The networks of all peers with the ids of their peers.
  abbrev pub owned : Config → List (PeerConfig n) → List (IpNet n × PeerId)
  owned config [] = []
  owned config (peer ∷ peers) =
      let (id, config') = c.insert_peer config (static_config peer) in
      owned_by id peer.allowed_ips ++ owned config' peers

  insert_all-Filled :
      (b : PeerNetBuilder t4 t6) (es : List (IpNet n × PeerId)) (ps : List (IpNet n)) (id : PeerId)
      → Filled s c.sentinal b es
      → (b' : PeerNetBuilder t4 t6) × (insert_all c t4 t6 n b ps id ≡ returns b')
        × Filled s c.sentinal b' (es ++ owned_by id ps)
  unfolding insert_all
  insert_all-Filled b es [] id f = (b, refl, rw (append-nil es) f)
  insert_all-Filled b es (p ∷ ps) id f =
      let (b₁, e₁, f₁) = insert-Filled s c.sentinal b es p id f in
      let (b₂, e₂, f₂) = insert_all-Filled b₁ (es ++ (p, id) ∷ []) ps id f₁ in
      (b₂, rw e₁ e₂, rw append_assoc at f₂)

  add_peers-Filled :
      (config : Config) (b : PeerNetBuilder t4 t6) (es : List (IpNet n × PeerId))
      (peers : List (PeerConfig n))
      → Filled s c.sentinal b es
      → (b' : PeerNetBuilder t4 t6) × (add_peers c t4 t6 n config b peers
          ≡ returns (record {
            config = (registered config peers).1;
            builder = b';
            peer_ids = (registered config peers).0;
          }))
        × Filled s c.sentinal b' (es ++ owned config peers)
  unfolding add_peers
  add_peers-Filled config b es [] f = (b, refl, rw (append-nil es) f)
  add_peers-Filled config b es (peer ∷ peers) f =
      let id = (c.insert_peer config (static_config peer)).0 in
      let config' = (c.insert_peer config (static_config peer)).1 in
      let (b₁, e₁, f₁) = insert_all-Filled b es peer.allowed_ips id f in
      let (b₂, e₂, f₂) =
        add_peers-Filled config' b₁ (es ++ owned_by id peer.allowed_ips) peers f₁ in
      (b₂, rw (e₁, e₂), rw append_assoc at f₂)

  -- Where the tries search by longest prefix and read back each network's text, the builder does not
  -- panic, returns the ids in the order of the peers, and its table gives each address to the last
  -- of the peers with the longest network of the address's family around it, and to the sentinel
  -- where no network is around it.
  pub build_sessions-IsOwner :
      (config : Config) (peers : List (PeerConfig n))
      → (net : PeerNet t4 t6) × (build_sessions c t4 t6 n config peers
          ≡ returns (c.new_with (registered config peers).1, net, (registered config peers).0))
        × ((ip : IpAddr) → IsOwner s c.sentinal (owned config peers) ip (lookup t4 t6 net ip))
  unfolding build_sessions
  build_sessions-IsOwner config peers =
      let (b, e, f) =
        add_peers-Filled config (new t4 t6 c.sentinal) [] peers (new-Filled s c.sentinal) in
      (build t4 t6 b, rw e, λ ip. lookup-IsOwner s c.sentinal b (owned config peers) ip f)
