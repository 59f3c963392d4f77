-- ===== src/Tunnel/Loop/Clock.antt =====
-- smartguard/src/tunnel.rs: how long a peer is left in silence while the event loop goes on.
use smartguard.Prelude.{
  ℕ, zero, suc, ◌+◌, ◌-◌, ◌≤◌, ◌<◌, Bool, true, false, some, List, [], ◌∷◌, ◌≡◌, ◌≢◌, refl, inl,
  inr, Run, returns, panics, All, if◌then◌else◌, arith, Option-cases,
}
use smartguard.Net.{SocketAddr}
use smartguard.Session.Handle.{Write, inbound, outbound, nothing, SessionLib}
use smartguard.Tunnel.Keepalive.{PeerRuntime, is_due, hash_get, mark_sent, on_sent, send_keepalives}
use smartguard.Tunnel.Silence.{IsKept, send_keepalives-IsKept}
use smartguard.Tunnel.Loop.{
  Setting, World, Tunnel, Emitted, Flow, panicked, Event, Round, ticked, on_tick, rechecked,
  on_extern, on_intern, postponed, on_event, Reach, here, next,
}

module _ {P : Type 0} (since : ℕ) where
  marked-IsKept :
      (due : Bool) (now : ℕ) (p : PeerRuntime P)
      → since ≤ now
      → IsKept since p
      → IsKept since (if due then record p { last_sent = now } else p)
  marked-IsKept true now p later h interval e pos = omega arith
  marked-IsKept false now p later h interval e pos = h interval e pos

  -- What became of the peers' clocks, where it is known.
  abbrev AllKept : Run (List (PeerRuntime P)) → Type 0
  AllKept (returns peers) = All (IsKept since) peers
  AllKept panics = Unit

  mark_sent-AllKept :
      (now : ℕ) (peers : List (PeerRuntime P)) (i : ℕ)
      → since ≤ now
      → All (IsKept since) peers
      → AllKept (mark_sent now peers i)
  unfolding mark_sent
  mark_sent-AllKept now [] i later h = tt
  mark_sent-AllKept now (p ∷ peers) zero later h = (marked-IsKept true now p later h.0, h.1)
  mark_sent-AllKept now (p ∷ peers) (suc i) later h =
      also p (mark_sent now peers i) h.0 (mark_sent-AllKept now peers i later h.1)
    where
      also :
          (p : PeerRuntime P) (r : Run (List (PeerRuntime P)))
          → IsKept since p
          → AllKept r
          → AllKept (elim r [ panics ↦ panics | returns peers' ↦ returns (p ∷ peers') ])
      also p panics h k = tt
      also p (returns peers') h k = (h, k)

  on_sent-AllKept :
      (now : ℕ) (pairs : List (SocketAddr × ℕ)) (peers : List (PeerRuntime P)) (dst : SocketAddr)
      → since ≤ now
      → All (IsKept since) peers
      → AllKept (on_sent now pairs peers dst)
  unfolding on_sent
  on_sent-AllKept now pairs peers dst later h = elim (Option-cases (hash_get pairs dst)) [
    | inl unknown ↦ rw (unknown, AllKept) h
    | inr (i, e) ↦ rw (e, AllKept) (mark_sent-AllKept now peers i later h)
  ]

module _ (l : SessionLib) (since : ℕ) where
  send_keepalives-IsKept_since :
      (now : ℕ) (peers : List (PeerRuntime l.PeerId)) (sessions : l.Sessions)
      → since ≤ now
      → All (IsKept since) peers
      → All (IsKept since) (send_keepalives l now peers sessions).peers
  unfolding send_keepalives
  send_keepalives-IsKept_since now [] sessions later h = tt
  send_keepalives-IsKept_since now (p ∷ peers) sessions later h = (
    marked-IsKept since (is_due now p) now p later h.0,
    send_keepalives-IsKept_since now peers _ later h.1,
  )

module _ (t : Setting) (since : ℕ) where
  open t use {lib}

  abbrev Heard : Round lib → Type 0
  Heard r = All (IsKept since) r.state.peers

  rechecked-Heard :
      (wanted : Bool) (s : Tunnel t) (emitted : List Emitted) (w : World t)
      → All (IsKept since) s.peers
      → Heard (rechecked t wanted s emitted w).0
  rechecked-Heard wanted s emitted w h = h

  ticked-Heard :
      (now : ℕ) (msgs : List (List ℕ × SocketAddr)) (s : Tunnel t) (wants : Run Bool) (w : World t)
      → since ≤ now
      → All (IsKept since) s.peers
      → Heard (ticked t now msgs s wants w).0
  ticked-Heard now msgs s panics w later h = h
  ticked-Heard now msgs s (returns wanted) w later h =
      send_keepalives-IsKept_since lib since now s.peers s.sessions later h

  on_extern-Heard :
      (addr : SocketAddr) (written sent : Bool) (s : Tunnel t) (r : Run Write) (w : World t)
      → All (IsKept since) s.peers
      → Heard (on_extern t addr written sent s r w).0
  unfolding on_extern
  on_extern-Heard addr written sent s panics w h = h
  on_extern-Heard addr written sent s (returns (inbound bytes)) w h = h
  on_extern-Heard addr written sent s (returns (outbound bytes to)) w h = h
  on_extern-Heard addr written sent s (returns nothing) w h = h

  postponed-Heard :
      (s : Tunnel t) (emitted : List Emitted) (r : Run (List (PeerRuntime lib.PeerId)))
      → All (IsKept since) s.peers
      → AllKept since r
      → Heard (postponed t s emitted r)
  postponed-Heard s emitted panics h k = h
  postponed-Heard s emitted (returns peers') h k = k

  on_intern-Heard :
      (sent : Bool) (now : ℕ) (s : Tunnel t) (r : Run Write) (w : World t)
      → since ≤ now
      → All (IsKept since) s.peers
      → Heard (on_intern t sent now s r w).0
  unfolding on_intern
  on_intern-Heard true now s panics w later h = h
  on_intern-Heard false now s panics w later h = h
  on_intern-Heard true now s (returns (outbound bytes to)) w later h =
      postponed-Heard s _ _ h (on_sent-AllKept since now t.pairs s.peers to later h)
  on_intern-Heard false now s (returns (outbound bytes to)) w later h = h
  on_intern-Heard true now s (returns (inbound bytes)) w later h = h
  on_intern-Heard false now s (returns (inbound bytes)) w later h = h
  on_intern-Heard true now s (returns nothing) w later h = h
  on_intern-Heard false now s (returns nothing) w later h = h

  -- The event is not before the instant.
  abbrev pub IsLater : Event lib → Type 0
  IsLater (Event.tick now msgs sessions) = since ≤ now
  IsLater (Event.was_read tun_buf n sent now) = since ≤ now
  IsLater _ = Unit

  on_event-Heard :
      (e : Event lib) (s : Tunnel t) (w : World t)
      → IsLater e
      → All (IsKept since) s.peers
      → Heard (on_event t e s w).0
  unfolding on_event on_tick
  on_event-Heard Event.sigint s w later h = h
  on_event-Heard Event.sigterm s w later h = h
  on_event-Heard Event.recv_failed s w later h = h
  on_event-Heard Event.read_failed s w later h = h
  on_event-Heard (Event.tick now msgs sessions) s w later h = ticked-Heard now msgs _ _ w later h
  on_event-Heard (Event.received addr bytes written sent) s w later h =
      on_extern-Heard addr written sent _ _ w h
  on_event-Heard (Event.was_read tun_buf n sent now) s w later h =
      on_intern-Heard sent now _ _ w later h

  -- No event on the way to a state is before the instant.
  abbrev pub AllLater :
      {s : Tunnel t} {w : World t} {s' : Tunnel t} {w' : World t} {f : Flow}
      → Reach t s w s' w' f
      → Type 0
  AllLater here = Unit
  AllLater (next r e p) = AllLater r × IsLater e

  Reach-Heard :
      {s : Tunnel t} {w : World t} {s' : Tunnel t} {w' : World t} {f : Flow}
      → All (IsKept since) s.peers
      → (r : Reach t s w s' w' f) → AllLater r
      → All (IsKept since) s'.peers
  Reach-Heard h here later = h
  Reach-Heard h (next {s'} {w'} r e p) later =
      on_event-Heard e s' w' later.1 (Reach-Heard h r later.0)

-- At any instant, the peer's clock was set less than its interval and the time since another instant
-- ago.
abbrev pub IsHeardWithin : {P : Type 0} → ℕ → PeerRuntime P → Type 0
IsHeardWithin since p =
    (interval at : ℕ)
    → p.keepalive ≡ some interval
    → 0 < interval
    → at - p.last_sent < interval + (at - since)

All-IsHeardWithin :
    {P : Type 0} (since : ℕ) (peers : List (PeerRuntime P))
    → All (IsKept since) peers
    → All (IsHeardWithin since) peers
All-IsHeardWithin since [] h = tt
All-IsHeardWithin since (p ∷ peers) h =
    (λ interval at e pos. omega (arith, h.0 interval e pos), All-IsHeardWithin since peers h.1)

module _ (t : Setting) where
  open t use {lib}

  ticked-AllKept :
      (now : ℕ) (msgs : List (List ℕ × SocketAddr)) (s : Tunnel t) (wants : Run Bool) (w : World t)
      → (ticked t now msgs s wants w).0.flow ≢ panicked
      → All (IsKept now) (ticked t now msgs s wants w).0.state.peers
  ticked-AllKept now msgs s panics w good = absurd (good refl)
  ticked-AllKept now msgs s (returns wanted) w good =
      send_keepalives-IsKept lib now s.peers s.sessions

  -- After a tick that does not panic, and through all events that come later, the clock of each peer
  -- with a keepalive above zero was set, at any instant, less than its interval and the time since the
  -- tick ago.
  pub tick-IsHeardWithin :
      (now : ℕ) (msgs : List (List ℕ × SocketAddr)) (sessions : lib.Sessions) (s : Tunnel t)
      (w : World t) (s' : Tunnel t) (w' : World t) (f : Flow)
      → let (round, w₁) = on_event t (Event.tick now msgs sessions) s w in
        round.flow ≢ panicked
        → (r : Reach t round.state w₁ s' w' f) → AllLater t now r
        → All (IsHeardWithin now) s'.peers
  unfolding on_event on_tick
  tick-IsHeardWithin now msgs sessions s w s' w' f good r later =
      All-IsHeardWithin now s'.peers
        (Reach-Heard t now (ticked-AllKept now msgs _ _ w good) r later)
