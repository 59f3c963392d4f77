-- ===== src/Peers/PeerNet.antt =====
-- smartguard-crypto/src/session/peer_net.rs: the routing table from addresses to peers. The tries
-- of the crate `iptrie` are a parameter, once for each family.
use smartguard.Prelude.{ℕ, String, Option, none, some, List, [], ◌∷◌, Run, returns, panics}
use smartguard.Net.{IpAddr, IpNetLib, IpNet}

-- A prefix map of `iptrie` with values of type `V`: the radix trie that is filled, the compressed
-- trie that is searched by an address's octets, and `FromStr` of the prefixes.
pub record TrieLib (V : Type 0) : Type 1 where
  pub Prefix : Type 0
  pub RTrieMap : Type 0
  pub LCTrieMap : Type 0
  pub parse : String → Option Prefix
  pub with_root : V → RTrieMap
  pub insert : RTrieMap → Prefix → V → RTrieMap
  pub compress : RTrieMap → LCTrieMap
  pub lookup : LCTrieMap → List ℕ → V

abbrev pub expect {ℓ} : {A : Type ℓ} {B : Type 0} → Option A → (A → Run B) → Run B
expect none f = panics
expect (some a) f = f a

module _ {V : Type 0} (t4 t6 : TrieLib V) where
  pub record PeerNet : Type 0 where
    pub v4 : t4.LCTrieMap
    pub v6 : t6.LCTrieMap

  pub record PeerNetBuilder : Type 0 where
    pub v4 : t4.RTrieMap
    pub v6 : t6.RTrieMap

  unfoldable pub lookup : PeerNet → IpAddr → V
  lookup peer_net (IpAddr.v4 a b c d) = t4.lookup peer_net.v4 (a ∷ b ∷ c ∷ d ∷ [])
  lookup peer_net (IpAddr.v6 octets) = t6.lookup peer_net.v6 octets

  unfoldable pub new : V → PeerNetBuilder
  new sentinel = record { v4 = t4.with_root sentinel; v6 = t6.with_root sentinel }

  unfoldable pub insert : (n : IpNetLib) → PeerNetBuilder → IpNet n → V → Run PeerNetBuilder
  insert n builder (IpNet.v4 p) id =
      expect (t4.parse (n.display4 p))
        λ prefix. returns (record builder { v4 = t4.insert builder.v4 prefix id })
  insert n builder (IpNet.v6 p) id =
      expect (t6.parse (n.display6 p))
        λ prefix. returns (record builder { v6 = t6.insert builder.v6 prefix id })

  unfoldable pub build : PeerNetBuilder → PeerNet
  build builder = record { v4 = t4.compress builder.v4; v6 = t6.compress builder.v6 }
