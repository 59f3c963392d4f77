-- ===== src/Tunnel/Loop/Guarded.antt =====
-- smartguard/src/tunnel.rs: what a recheck keeps of the guard and the machine, the event loop keeps.
use smartguard.Prelude.{ℕ, Bool, true, false, not, List, [], ◌∷◌, ◌++◌, map, Run, returns, panics}
use smartguard.Net.{SocketAddr}
use smartguard.Session.Handle.{Write, inbound, outbound, nothing}
use smartguard.Tunnel.Guard.{CleanupGuard, recheck_guard}
use smartguard.Tunnel.Keepalive.{PeerRuntime, on_sent, send_keepalives}
use smartguard.Tunnel.Loop.{
  Setting, World, Tunnel, ticked, Emitted, datagram, as_datagram, Flow, Event, Round, rechecked,
  on_tick, on_extern, on_intern, postponed, on_event, Reach, here, next,
}

module _ (t : Setting) (P : CleanupGuard → World t → Type 0)
    (keeps : (g : CleanupGuard) (w : World t)
      → P g w
      → let (g', w') = recheck_guard t.platform t.machine g w in P g' w') where
  open t use {lib}

  abbrev Kept : Round lib → World t → Type 0
  Kept r w = P r.state.guard w

  rechecked-Kept :
      (wanted : Bool) (s : Tunnel t) (emitted : List Emitted) (w : World t)
      → P s.guard w
      → Kept (rechecked t wanted s emitted w).0 (rechecked t wanted s emitted w).1
  unfolding recheck_guard
  rechecked-Kept true s emitted w a = keeps s.guard w a
  rechecked-Kept false s emitted w a = a

  ticked-Kept :
      (now : ℕ) (msgs : List (List ℕ × SocketAddr)) (s : Tunnel t) (wants : Run Bool) (w : World t)
      → P s.guard w
      → Kept (ticked t now msgs s wants w).0 (ticked t now msgs s wants w).1
  ticked-Kept now msgs s panics w a = a
  ticked-Kept now msgs s (returns wanted) w a =
      let done = send_keepalives lib now s.peers s.sessions in
      rechecked-Kept wanted (record s { peers = done.peers; sessions = done.sessions })
        (map as_datagram (msgs ++ done.datagrams)) w a

  on_extern-Kept :
      (addr : SocketAddr) (written sent : Bool) (s : Tunnel t) (r : Run Write) (w : World t)
      → P s.guard w
      → Kept (on_extern t addr written sent s r w).0 (on_extern t addr written sent s r w).1
  unfolding on_extern
  on_extern-Kept addr written sent s panics w a = a
  on_extern-Kept addr written sent s (returns (inbound bytes)) w a = a
  on_extern-Kept addr written sent s (returns (outbound bytes to)) w a =
      rechecked-Kept (not sent) s (datagram bytes addr ∷ []) w a
  on_extern-Kept addr written sent s (returns nothing) w a = a

  postponed-Kept :
      (s : Tunnel t) (emitted : List Emitted) (r : Run (List (PeerRuntime lib.PeerId)))
      (w : World t)
      → P s.guard w
      → Kept (postponed t s emitted r) w
  postponed-Kept s emitted panics w a = a
  postponed-Kept s emitted (returns peers') w a = a

  on_intern-Kept :
      (sent : Bool) (now : ℕ) (s : Tunnel t) (r : Run Write) (w : World t)
      → P s.guard w
      → Kept (on_intern t sent now s r w).0 (on_intern t sent now s r w).1
  unfolding on_intern
  on_intern-Kept true now s panics w a = a
  on_intern-Kept false now s panics w a = a
  on_intern-Kept true now s (returns (outbound bytes to)) w a =
      postponed-Kept s _ (on_sent now t.pairs s.peers to) w a
  on_intern-Kept false now s (returns (outbound bytes to)) w a =
      rechecked-Kept true s (datagram bytes to ∷ []) w a
  on_intern-Kept true now s (returns (inbound bytes)) w a = a
  on_intern-Kept false now s (returns (inbound bytes)) w a = a
  on_intern-Kept true now s (returns nothing) w a = a
  on_intern-Kept false now s (returns nothing) w a = a

  -- A round keeps it, whatever comes and however it ends.
  on_event-Kept :
      (e : Event lib) (s : Tunnel t) (w : World t)
      → P s.guard w
      → Kept (on_event t e s w).0 (on_event t e s w).1
  unfolding on_event on_tick
  on_event-Kept Event.sigint s w a = a
  on_event-Kept Event.sigterm s w a = a
  on_event-Kept Event.recv_failed s w a = a
  on_event-Kept Event.read_failed s w a = a
  on_event-Kept (Event.tick now msgs sessions) s w a = ticked-Kept now msgs _ _ w a
  on_event-Kept (Event.received addr bytes written sent) s w a =
      on_extern-Kept addr written sent _ _ w a
  on_event-Kept (Event.was_read tun_buf n sent now) s w a = on_intern-Kept sent now _ _ w a

  pub Reach-Kept :
      {s : Tunnel t} {w : World t} {s' : Tunnel t} {w' : World t} {f : Flow}
      → P s.guard w
      → Reach t s w s' w' f
      → P s'.guard w'
  Reach-Kept a here = a
  Reach-Kept a (next {s'} {w'} r e p) = on_event-Kept e s' w' (Reach-Kept a r)
