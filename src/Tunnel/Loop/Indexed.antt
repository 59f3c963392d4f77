-- ===== src/Tunnel/Loop/Indexed.antt =====
-- smartguard/src/tunnel.rs: the index of the endpoints and the position of the first bypass, taken
-- once before the event loop, stay true through it, and no round of it panics.
use smartguard.Prelude.{
  ℕ, ◌+◌, ◌≤◌, Bool, true, false, not, List, [], ◌∷◌, ◌++◌, map, ◌≡◌, ◌≢◌, refl, sym, ap, ◌∙◌, Run,
  returns, panics, length, if◌then◌else◌,
}
use smartguard.Net.{SocketAddr}
use smartguard.Route.Recheck.{recheck_routes}
use smartguard.Session.Extern.{Layout, handle_extern-ne-panics}
use smartguard.Session.Handle.{Write, inbound, outbound, nothing}
use smartguard.Session.Intern.{start, frame_end}
use smartguard.Session.Total.{handshake_len, Fitting, handle_intern-ne-panics}
use smartguard.Tunnel.Guard.{recheck_guard}
use smartguard.Tunnel.HostIndex.{recheck_all-host_route_idx, wants_recheck_in_range}
use smartguard.Tunnel.Silence.{on_sent_postpones}
use smartguard.Tunnel.Keepalive.{
  PeerRuntime, endpoint_pairs, pair_with, is_due, on_sent, send_keepalives, host_route_idx,
}
use smartguard.Tunnel.Loop.{
  Setting, World, Tunnel, Emitted, datagram, as_datagram, Flow, panicked, Event, Round, recheck_if,
  rechecked, ticked, on_tick, on_extern, on_intern, postponed, on_event, Reach, here, next,
}

module _ (t : Setting) where
  open t use {lib}

  pub record IsIndexed (s : Tunnel t) : Type 0 where
    pub endpoints : endpoint_pairs 0 s.peers ≡ t.pairs
    pub first_host : host_route_idx s.guard.added_routes ≡ t.host_idx

  -- The round keeps the indices, and does not end in a panic.
  pub record IsSound (r : Round lib) : Type 0 where
    pub indexed : IsIndexed r.state
    pub no_panic : r.flow ≢ panicked

  stamped-endpoint :
      (due : Bool) (now : ℕ) (p : PeerRuntime lib.PeerId)
      → (if due then record p { last_sent = now } else p).endpoint ≡ p.endpoint
  stamped-endpoint true now p = refl
  stamped-endpoint false now p = refl

  send_keepalives-endpoint_pairs :
      (now i : ℕ) (peers : List (PeerRuntime lib.PeerId)) (sessions : lib.Sessions)
      → endpoint_pairs i (send_keepalives lib now peers sessions).peers ≡ endpoint_pairs i peers
  unfolding send_keepalives endpoint_pairs
  send_keepalives-endpoint_pairs now i [] sessions = refl
  send_keepalives-endpoint_pairs now i (p ∷ peers) sessions =
      rw (stamped-endpoint (is_due now p) now p)
        (ap (pair_with i p.endpoint) (send_keepalives-endpoint_pairs now (i + 1) peers _))

  recheck_if-IsIndexed :
      (wanted : Bool) (s : Tunnel t) (w : World t)
      → IsIndexed s
      → host_route_idx (recheck_if t wanted s.guard w).0.added_routes ≡ t.host_idx
  unfolding recheck_guard recheck_routes
  recheck_if-IsIndexed true s w h =
      recheck_all-host_route_idx t.machine _ _ s.guard.added_routes _ ∙ h.first_host
  recheck_if-IsIndexed false s w h = h.first_host

  rechecked-IsSound :
      (wanted : Bool) (s : Tunnel t) (emitted : List Emitted) (w : World t)
      → IsIndexed s
      → IsSound (rechecked t wanted s emitted w).0
  rechecked-IsSound wanted s emitted w h = record {
    indexed = record { endpoints = h.endpoints; first_host = recheck_if-IsIndexed wanted s w h };
    no_panic = λ e. cc;
  }

  ticked-IsSound :
      (now : ℕ) (msgs : List (List ℕ × SocketAddr)) (s : Tunnel t) (wants : Run Bool) (w : World t)
      → wants ≢ panics
      → IsIndexed s
      → IsSound (ticked t now msgs s wants w).0
  ticked-IsSound now msgs s panics w good h = absurd (good refl)
  ticked-IsSound now msgs s (returns wanted) w good h =
      let done = send_keepalives lib now s.peers s.sessions in
      rechecked-IsSound wanted (record s { peers = done.peers; sessions = done.sessions })
        (map as_datagram (msgs ++ done.datagrams)) w
        (record {
          endpoints = send_keepalives-endpoint_pairs now 0 s.peers s.sessions ∙ h.endpoints;
          first_host = h.first_host;
        })

  on_extern-IsSound :
      (addr : SocketAddr) (written sent : Bool) (s : Tunnel t) (r : Run Write) (w : World t)
      → r ≢ panics
      → IsIndexed s
      → IsSound (on_extern t addr written sent s r w).0
  unfolding on_extern
  on_extern-IsSound addr written sent s panics w good h = absurd (good refl)
  on_extern-IsSound addr true sent s (returns (inbound bytes)) w good h = record {
    indexed = h;
    no_panic = λ e. cc;
  }
  on_extern-IsSound addr false sent s (returns (inbound bytes)) w good h = record {
    indexed = h;
    no_panic = λ e. cc;
  }
  on_extern-IsSound addr written sent s (returns (outbound bytes to)) w good h =
      rechecked-IsSound (not sent) s (datagram bytes addr ∷ []) w h
  on_extern-IsSound addr written sent s (returns nothing) w good h = record {
    indexed = h;
    no_panic = λ e. cc;
  }

  sent-IsSound :
      (now : ℕ) (s : Tunnel t) (bytes : List ℕ) (to : SocketAddr)
      → IsIndexed s
      → IsSound (postponed t s (datagram bytes to ∷ []) (on_sent now t.pairs s.peers to))
  sent-IsSound now s bytes to h =
      let (peers', returned, kept, stamped) = on_sent_postpones now s.peers to in
      let returned' : on_sent now t.pairs s.peers to ≡ returns peers' =
        ap (λ pairs. on_sent now pairs s.peers to) (sym h.endpoints) ∙ returned in
      rw returned' (record {
        indexed = record { endpoints = kept ∙ h.endpoints; first_host = h.first_host };
        no_panic = λ e. cc;
      })

  on_intern-IsSound :
      (sent : Bool) (now : ℕ) (s : Tunnel t) (r : Run Write) (w : World t)
      → r ≢ panics
      → IsIndexed s
      → IsSound (on_intern t sent now s r w).0
  unfolding on_intern
  on_intern-IsSound sent now s panics w good h = absurd (good refl)
  on_intern-IsSound true now s (returns (outbound bytes to)) w good h =
      sent-IsSound now s bytes to h
  on_intern-IsSound false now s (returns (outbound bytes to)) w good h =
      rechecked-IsSound true s (datagram bytes to ∷ []) w h
  on_intern-IsSound true now s (returns (inbound bytes)) w good h = record {
    indexed = h;
    no_panic = λ e. cc;
  }
  on_intern-IsSound false now s (returns (inbound bytes)) w good h = record {
    indexed = h;
    no_panic = λ e. cc;
  }
  on_intern-IsSound true now s (returns nothing) w good h = record {
    indexed = h;
    no_panic = λ e. cc;
  }
  on_intern-IsSound false now s (returns nothing) w good h = record {
    indexed = h;
    no_panic = λ e. cc;
  }

  -- A read gives a packet behind the kernel's header, with room for its frame and for a handshake.
  abbrev pub Fits : Event lib → Type 0
  Fits (Event.was_read tun_buf n sent now) =
      (start lib t.t4 t.t6 t.peer_net ≤ lib.tun_buf_start + n)
      × (frame_end lib t.t4 t.t6 t.peer_net (lib.tun_buf_start + n) ≤ length tun_buf)
      × (handshake_len ≤ length tun_buf)
  Fits _ = Unit

  module _ (layout : Layout lib) (fitting : Fitting lib) where
    on_event-IsSound :
        (e : Event lib) (s : Tunnel t) (w : World t)
        → Fits e
        → IsIndexed s
        → IsSound (on_event t e s w).0
    unfolding on_event on_tick
    on_event-IsSound Event.sigint s w fits h = record { indexed = h; no_panic = λ e. cc }
    on_event-IsSound Event.sigterm s w fits h = record { indexed = h; no_panic = λ e. cc }
    on_event-IsSound Event.recv_failed s w fits h = record { indexed = h; no_panic = λ e. cc }
    on_event-IsSound Event.read_failed s w fits h = record { indexed = h; no_panic = λ e. cc }
    on_event-IsSound (Event.tick now msgs sessions) s w fits h =
        ticked-IsSound now msgs (record s { sessions = sessions }) _ w
          (wants_recheck_in_range t.machine s.guard.added_routes t.host_idx h.first_host)
          (record { endpoints = h.endpoints; first_host = h.first_host })
    on_event-IsSound (Event.received addr bytes written sent) s w fits h =
        on_extern-IsSound addr written sent _ _ w
          (handle_extern-ne-panics lib t.t4 t.t6 t.peer_net s.sessions addr bytes layout)
          (record { endpoints = h.endpoints; first_host = h.first_host })
    on_event-IsSound (Event.was_read tun_buf n sent now) s w (from, room, long) h =
        on_intern-IsSound sent now _ _ w
          (handle_intern-ne-panics lib t.t4 t.t6 t.peer_net fitting s.sessions tun_buf
            (lib.tun_buf_start + n) from room long)
          (record { endpoints = h.endpoints; first_host = h.first_host })

    -- All events on the way to a state fit.
    abbrev pub EventsFit :
        {s : Tunnel t} {w : World t} {s' : Tunnel t} {w' : World t} {f : Flow}
        → Reach t s w s' w' f
        → Type 0
    EventsFit here = Unit
    EventsFit (next r e p) = EventsFit r × Fits e

    Reach-IsIndexed :
        {s : Tunnel t} {w : World t} {s' : Tunnel t} {w' : World t} {f : Flow}
        → IsIndexed s
        → (r : Reach t s w s' w' f) → EventsFit r
        → IsIndexed s'
    Reach-IsIndexed h here fits = h
    Reach-IsIndexed h (next {s'} {w'} r e p) fits =
        (on_event-IsSound e s' w' fits.1 (Reach-IsIndexed h r fits.0)).indexed

    pub Reach-ne-panicked :
        {s : Tunnel t} {w : World t} {s' : Tunnel t} {w' : World t} {f : Flow}
        → IsIndexed s
        → (r : Reach t s w s' w' f) → EventsFit r
        → f ≢ panicked
    Reach-ne-panicked h here fits = λ e. cc
    Reach-ne-panicked h (next {s'} {w'} r e p) fits =
        (on_event-IsSound e s' w' fits.1 (Reach-IsIndexed h r fits.0)).no_panic
