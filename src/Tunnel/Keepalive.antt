-- ===== src/Tunnel/Keepalive.antt =====
-- smartguard/src/tunnel.rs: the peers' state in the event loop, the keepalives and the test before a
-- recheck. An instant is a number of one fixed unit, in which the intervals are given too; a
-- datagram counts as sent when `send_to` is called, since its error is only printed.
use native.Mathlib.Decide.{ℕ_discrete}
use mathlib.Core.Logic.{ite}
use smartguard.Net.{SocketAddr, IpAddr, IpNetLib}
use smartguard.Peers.{PeerConfig}
use smartguard.Prelude.{
  ℕ, zero, suc, ◌+◌, ◌-◌, Bool, true, false, Option, none, some, List, [], ◌∷◌, ◌++◌, Run, returns,
  panics, leb, if◌then◌else◌, replicate,
}
use smartguard.Route.Command.{AddedRoute, host, net, passthrough}
use smartguard.Session.Handle.{
  SendMessage, error, maintenance, payload, SessionLib, tag_footer_size,
}

pub IpAddr-discrete : Discrete IpAddr
IpAddr-discrete = hlevel ℕ_discrete

pub SocketAddr-discrete : Discrete SocketAddr
SocketAddr-discrete = hlevel (ℕ_discrete, IpAddr-discrete)

pub record PeerRuntime (P : Type 0) : Type 0 where
  pub id : P
  pub endpoint : Option SocketAddr
  pub keepalive : Option ℕ
  pub last_sent : ℕ

-- An endpoint that is there is paired with its peer's index.
abbrev pub pair_with : ℕ → Option SocketAddr → List (SocketAddr × ℕ) → List (SocketAddr × ℕ)
pair_with i none pairs = pairs
pair_with i (some ep) pairs = (ep, i) ∷ pairs

module _ {P : Type 0} where
  -- `peer_ids.into_iter().zip(&peers)`, with the instant of the start.
  unfoldable pub peer_runtimes :
      {n : IpNetLib} → ℕ → List P → List (PeerConfig n) → List (PeerRuntime P)
  peer_runtimes now [] peers = []
  peer_runtimes now (id ∷ ids) [] = []
  peer_runtimes now (id ∷ ids) (p ∷ peers) =
      record { id = id; endpoint = p.endpoint; keepalive = p.persistent_keepalive; last_sent = now }
      ∷ peer_runtimes now ids peers

  -- The pairs that `endpoint_to_idx` is collected from, with the indices from `i` on.
  unfoldable pub endpoint_pairs : ℕ → List (PeerRuntime P) → List (SocketAddr × ℕ)
  endpoint_pairs i [] = []
  endpoint_pairs i (p ∷ peers) = pair_with i p.endpoint (endpoint_pairs (i + 1) peers)

abbrev pub or_first : Option ℕ → SocketAddr → SocketAddr × ℕ → Option ℕ
or_first (some i) dst (ep, j) = some i
or_first none dst (ep, j) = ite (SocketAddr-discrete ep dst) (some j) none

-- `get` of a `HashMap` collected from pairs: the last pair with a key counts.
unfoldable pub hash_get : List (SocketAddr × ℕ) → SocketAddr → Option ℕ
hash_get [] dst = none
hash_get (pair ∷ pairs) dst = or_first (hash_get pairs dst) dst pair

module _ {P : Type 0} where
  -- The filter before a keepalive; `duration_since` stops at zero.
  unfoldable pub is_due : ℕ → PeerRuntime P → Bool
  is_due now p = elim p.keepalive [
    | none ↦ false
    | some interval ↦ leb interval (now - p.last_sent)
  ]

  -- `peer_rt[i].last_sent = now`.
  unfoldable pub mark_sent : ℕ → List (PeerRuntime P) → ℕ → Run (List (PeerRuntime P))
  mark_sent now [] i = panics
  mark_sent now (p ∷ peers) zero = returns (record p { last_sent = now } ∷ peers)
  mark_sent now (p ∷ peers) (suc i) = elim (mark_sent now peers i) [
    | panics ↦ panics
    | returns peers' ↦ returns (p ∷ peers')
  ]

  -- After a datagram to `dst` was sent for a packet of the device.
  unfoldable pub on_sent :
      ℕ → List (SocketAddr × ℕ) → List (PeerRuntime P) → SocketAddr → Run (List (PeerRuntime P))
  on_sent now pairs peers dst = elim (hash_get pairs dst) [
    | none ↦ returns peers
    | some i ↦ mark_sent now peers i
  ]

module _ (l : SessionLib) where
  -- The datagrams of one `send_keepalive`.
  unfoldable pub keepalive_datagrams : SendMessage l.Metadata → List (List ℕ × SocketAddr)
  keepalive_datagrams error = []
  keepalive_datagrams (maintenance bytes to) = (bytes, to) ∷ []
  keepalive_datagrams (payload ep metadata) =
      (l.frame_in_place metadata (replicate (l.data_header_len + tag_footer_size) 0), ep) ∷ []

  unfoldable pub send_keepalive : l.Sessions → l.PeerId → List (List ℕ × SocketAddr) × l.Sessions
  unfolding keepalive_datagrams
  send_keepalive sessions peer_id =
      let (msg, slot, sessions') = l.send_message sessions peer_id [] in
      (keepalive_datagrams msg, sessions')

  pub record Ticked : Type 0 where
    pub peers : List (PeerRuntime l.PeerId)
    pub datagrams : List (List ℕ × SocketAddr)
    pub sessions : l.Sessions

  -- The loop over the peers at a tick.
  unfoldable pub send_keepalives : ℕ → List (PeerRuntime l.PeerId) → l.Sessions → Ticked
  unfolding is_due send_keepalive
  send_keepalives now [] sessions = record { peers = []; datagrams = []; sessions = sessions }
  send_keepalives now (p ∷ peers) sessions =
      let sent = if is_due now p then send_keepalive sessions p.id else ([], sessions) in
      let rest = send_keepalives now peers sent.1 in
      record {
        peers = (if is_due now p then record p { last_sent = now } else p) ∷ rest.peers;
        datagrams = sent.0 ++ rest.datagrams;
        sessions = rest.sessions;
      }

abbrev pub next_idx : Option ℕ → Option ℕ
next_idx none = none
next_idx (some i) = some (suc i)

-- `host_route_idx`: the position of the first bypass.
unfoldable pub host_route_idx : List AddedRoute → Option ℕ
host_route_idx [] = none
host_route_idx (host ip family gateway ∷ rs) = some 0
host_route_idx (net prefix tun_name family ∷ rs) = next_idx (host_route_idx rs)
host_route_idx (passthrough prefix family ∷ rs) = next_idx (host_route_idx rs)

abbrev has_no_gateway : AddedRoute → Bool
has_no_gateway (host ip family none) = true
has_no_gateway (host ip family (some gw)) = false
has_no_gateway (net prefix tun_name family) = false
has_no_gateway (passthrough prefix family) = false

-- `guard.added_routes[i]` has no gateway.
unfoldable pub no_gateway_at : List AddedRoute → ℕ → Run Bool
no_gateway_at [] i = panics
no_gateway_at (r ∷ rs) zero = returns (has_no_gateway r)
no_gateway_at (r ∷ rs) (suc i) = no_gateway_at rs i

-- The test before the recheck at a tick.
unfoldable pub wants_recheck : Option ℕ → List AddedRoute → Run Bool
unfolding no_gateway_at
wants_recheck none rs = returns false
wants_recheck (some i) rs = no_gateway_at rs i
