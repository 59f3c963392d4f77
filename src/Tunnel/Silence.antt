-- ===== src/Tunnel/Silence.antt =====
-- smartguard/src/tunnel.rs: how long a peer with a keepalive can be left in silence, and what a
-- packet from the device postpones.
use smartguard.Net.{SocketAddr}
use smartguard.Prelude.{
  ℕ, zero, suc, ◌+◌, ◌-◌, ◌<◌, Option, none, some, List, [], ◌∷◌, ◌≡◌, refl, ap, inl, inr, returns,
  if◌then◌else◌, arith, All, get_elem?, Option-cases,
}
use mathlib.Core.Logic.{if_pos, if_neg}
use smartguard.Session.Handle.{SessionLib}
use smartguard.Tunnel.Keepalive.{
  PeerRuntime, SocketAddr-discrete, pair_with, endpoint_pairs, hash_get, is_due, mark_sent, on_sent,
  send_keepalives,
}

hash_get-later :
    (j : ℕ) (o : Option SocketAddr) (pairs : List (SocketAddr × ℕ)) (dst : SocketAddr) (i : ℕ)
    → hash_get pairs dst ≡ some i
    → hash_get (pair_with j o pairs) dst ≡ some i
unfolding hash_get
hash_get-later j none pairs dst i h = h
hash_get-later j (some ep) pairs dst i h = rw h

hash_get-here :
    (j : ℕ) (o : Option SocketAddr) (pairs : List (SocketAddr × ℕ)) (dst : SocketAddr) (i : ℕ)
    → hash_get pairs dst ≡ none
    → hash_get (pair_with j o pairs) dst ≡ some i
    → (o ≡ some dst) × (i ≡ j)
unfolding hash_get
hash_get-here j none pairs dst i h e = absurd (cc)
hash_get-here j (some ep) pairs dst i h e = elim (SocketAddr-discrete ep dst) [
  | yes same ↦ (ap some same, found (rw (h, if_pos _ same) at e))
  | no differs ↦ absurd (cc (rw (h, if_neg _ differs) at e))
]
  where
    found : some j ≡ some i → i ≡ j
    found h = cc

module _ {P : Type 0} where
  -- The peer has heard from us within its interval, if it has one.
  abbrev pub IsKept : ℕ → PeerRuntime P → Type 0
  IsKept now p =
      (interval : ℕ) → p.keepalive ≡ some interval → 0 < interval → now - p.last_sent < interval

  marked-IsKept :
      (now : ℕ) (p : PeerRuntime P)
      → IsKept now (if is_due now p then record p { last_sent = now } else p)
  unfolding is_due
  marked-IsKept now p interval e pos = ground arith

  -- The pair of a peer in the index leads back to it.
  hash_get-endpoint :
      (j : ℕ) (peers : List (PeerRuntime P)) (dst : SocketAddr) (i : ℕ)
      → hash_get (endpoint_pairs j peers) dst ≡ some i
      → (d : ℕ) × (p : PeerRuntime P) × (i ≡ j + d)
        × (get_elem? peers d ≡ some p)
        × (p.endpoint ≡ some dst)
  unfolding hash_get endpoint_pairs
  hash_get-endpoint j [] dst i e = absurd (cc)
  hash_get-endpoint j (p ∷ peers) dst i e =
      elim (Option-cases (hash_get (endpoint_pairs (j + 1) peers) dst)) [
        | inr (i', e') ↦
            let (d, q, at, there, ends) = hash_get-endpoint (j + 1) peers dst i' e' in
            let same = hash_get-later j p.endpoint (endpoint_pairs (j + 1) peers) dst i' e' in
            let same' : i' ≡ i = cc in (suc d, q, omega arith, there, ends)
        | inl e' ↦
            let (ends, at) = hash_get-here j p.endpoint (endpoint_pairs (j + 1) peers) dst i e' e in
            (zero, p, omega arith, refl, ends)
      ]

  mark_sent-returns :
      (now : ℕ) (peers : List (PeerRuntime P)) (i : ℕ) (p : PeerRuntime P)
      → get_elem? peers i ≡ some p
      → (peers' : List (PeerRuntime P)) × (mark_sent now peers i ≡ returns peers')
        × (get_elem? peers' i ≡ some (record p { last_sent = now }))
        × ((j : ℕ) → endpoint_pairs j peers' ≡ endpoint_pairs j peers)
  unfolding mark_sent endpoint_pairs
  mark_sent-returns now [] i p e = absurd (cc)
  mark_sent-returns now (q ∷ peers) zero p e =
      let same : q ≡ p = cc in
      (
        record q { last_sent = now } ∷ peers,
        refl,
        ap {B = Option (PeerRuntime P)} (λ r. some (record r { last_sent = now })) same,
        λ j. refl,
      )
  mark_sent-returns now (q ∷ peers) (suc i) p e =
      let (peers', done, here, same) = mark_sent-returns now peers i p e in
      (q ∷ peers', rw done, here, λ j. ap (pair_with j q.endpoint) (same (j + 1)))

  -- For the index that the event loop made of the peers' endpoints, a datagram that was sent to `dst`
  -- never leads out of the list of peers, leaves the endpoints of all peers as they are, and if the
  -- index has `dst`, sets the clock of a peer with that endpoint to the instant.
  pub on_sent_postpones :
      (now : ℕ) (peers : List (PeerRuntime P)) (dst : SocketAddr)
      → (peers' : List (PeerRuntime P)) × (on_sent now (endpoint_pairs 0 peers) peers dst
          ≡ returns peers')
        × (endpoint_pairs 0 peers' ≡ endpoint_pairs 0 peers)
        × ((i : ℕ)
            → hash_get (endpoint_pairs 0 peers) dst ≡ some i
            → (p : PeerRuntime P) × (get_elem? peers' i ≡ some p)
              × (p.endpoint ≡ some dst)
              × (p.last_sent ≡ now))
  unfolding on_sent
  on_sent_postpones now peers dst = elim (Option-cases (hash_get (endpoint_pairs 0 peers) dst)) [
    | inl e ↦ (peers, rw (e, on_sent) refl, refl, λ i h. absurd (cc))
    | inr (i, e) ↦
        let (d, p, at, there, ends) = hash_get-endpoint 0 peers dst i e in
        let same : d ≡ i = omega arith in
        let (peers', done, here, kept) = mark_sent-returns now peers i p (rw (← same) there) in
        (
          peers',
          rw (e, on_sent) done,
          kept 0,
          λ i' h.
              let at' : i ≡ i' = cc in (record p { last_sent = now }, rw (← at') here, ends, refl),
        )
  ]

module _ (l : SessionLib) where
  -- Right after a tick, every peer with a keepalive above zero has heard from us within its interval.
  pub send_keepalives-IsKept :
      (now : ℕ) (peers : List (PeerRuntime l.PeerId)) (sessions : l.Sessions)
      → All (IsKept now) (send_keepalives l now peers sessions).peers
  unfolding send_keepalives
  send_keepalives-IsKept now [] sessions = tt
  send_keepalives-IsKept now (p ∷ peers) sessions =
      (marked-IsKept now p, send_keepalives-IsKept now peers _)
