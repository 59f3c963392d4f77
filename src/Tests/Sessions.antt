-- ===== src/Tests/Sessions.antt =====
-- The theorems on smartguard-crypto at toy tries, which search by longest prefix as a function of
-- the address, and at toy sessions, which do not encrypt.

use smartguard.Prelude.{
  ℕ, ◌+◌, ◌<◌, String, none, some, List, [], ◌∷◌, ◌++◌, ◌≡◌, refl, ◌↔◌, arith, length, take, drop,
  replicate, returns, panics,
}
use smartguard.Net.{IpAddr, IpNet}
use smartguard.Peers.{PeerConfig}
use smartguard.Peers.PeerNet.{PeerNet, lookup}
use smartguard.Peers.Build.{CoreLib, build_sessions}
use smartguard.Peers.Owner.{Tables, IsOwner, owned, build_sessions-IsOwner}
use smartguard.Session.Packet.{ip_dst}
use smartguard.Session.Handle.{read, inbound, outbound, handle_extern, handle_intern}
use smartguard.Session.Extern.{Delivered, handle_extern_inbound_iff}
use smartguard.Session.Intern.{handle_intern_frames, handle_intern-eq-panics_iff}
use smartguard.Tests.Toy.{toy_nets}
use smartguard.Tests.ToySessions.{
  codes, toy_trie, toy-IsLpm, somewhere, toy_sessions, toy_layout, toy_net, toy_packet, toy_buffer,
}

abbrev toy_tables : Tables toy_nets toy_trie toy_trie
toy_tables = record {
  lpm4 = toy-IsLpm;
  lpm6 = toy-IsLpm;
  prefix4 = λ p. codes p.0;
  prefix6 = λ p. codes p.0;
  parse4 = λ p. refl;
  parse6 = λ p. refl;
}

-- Ids count from 1; the sentinel is 0.
abbrev toy_core : CoreLib
toy_core = record {
  PeerId = ℕ;
  Config = ℕ;
  Sessions = ℕ;
  sentinal = 0;
  insert_peer = λ config peer. (config + 1, config + 1);
  new_with = λ config. config;
}

abbrev peer_of : String → PeerConfig toy_nets
peer_of prefix = record {
  public_key = [];
  preshared_key = none;
  endpoint = none;
  allowed_ips = IpNet.v4 (prefix, 8) ∷ [];
  persistent_keepalive = none;
}

-- Prefixes are texts here: the codes of "0" and "1" are 48 and 49.
abbrev two_peers : List (PeerConfig toy_nets)
two_peers = peer_of "0" ∷ peer_of "01" ∷ []

build_sessions-IsOwner_example :
    (net : PeerNet toy_trie toy_trie) × (build_sessions toy_core toy_trie toy_trie toy_nets 0
        two_peers
      ≡ returns (2, net, 1 ∷ 2 ∷ []))
    × ((ip : IpAddr)
        → IsOwner toy_tables 0
            (owned toy_core toy_tables 0 two_peers)
            ip
            (lookup toy_trie toy_trie net ip))
build_sessions-IsOwner_example = build_sessions-IsOwner toy_core toy_tables 0 two_peers

handle_extern_inbound_iff_example :
    ((handle_extern toy_sessions toy_trie toy_trie 3 toy_net somewhere toy_buffer).0
      ≡ returns (inbound (0 ∷ 0 ∷ 0 ∷ 2 ∷ toy_packet)))
    ↔ Delivered toy_sessions toy_trie toy_trie toy_net
        (read 3 toy_packet)
        (0 ∷ 0 ∷ 0 ∷ 2 ∷ toy_packet)
handle_extern_inbound_iff_example =
    handle_extern_inbound_iff toy_sessions toy_trie toy_trie toy_net 3 somewhere toy_buffer
      (0 ∷ 0 ∷ 0 ∷ 2 ∷ toy_packet) toy_layout

-- The same packet from the device, in a buffer of 64 bytes and in one that is too small.
abbrev tun_buffer : List ℕ
tun_buffer = toy_buffer ++ replicate 28 1

toy_dst : ip_dst toy_packet ≡ some (IpAddr.v4 10 0 0 1)
unfolding ip_dst
toy_dst = refl

handle_intern_frames_example :
    (area : List ℕ) × (handle_intern toy_sessions toy_trie toy_trie 3 toy_net tun_buffer 36
      ≡ (returns (outbound area somewhere), 3))
    × (length area ≡ 64)
    × (take 32 (drop 16 area) ≡ toy_packet ++ replicate 12 0)
handle_intern_frames_example =
    handle_intern_frames toy_sessions toy_trie toy_trie toy_net 3 tun_buffer 36 (IpAddr.v4 10 0 0 1)
      (omega arith) (omega arith) toy_dst somewhere tt refl (omega arith) refl

handle_intern-eq-panics_iff_example :
    ((handle_intern toy_sessions toy_trie toy_trie 3 toy_net toy_buffer 36).0 ≡ panics) ↔ (36 < 64)
handle_intern-eq-panics_iff_example =
    handle_intern-eq-panics_iff toy_sessions toy_trie toy_trie toy_net 3 toy_buffer 36
      (IpAddr.v4 10 0 0 1) (omega arith) (omega arith) toy_dst somewhere tt refl refl
