-- ===== src/Tunnel/Loop/Device.antt =====
-- smartguard/src/tunnel.rs: which rounds of the event loop write to the TUN device, and what.
use smartguard.Prelude.{
  ℕ, Bool, true, false, List, [], ◌∷◌, map, ◌≡◌, ◌↔◌, ◌⊎◌, inl, inr, Run, returns, panics, ap, sym,
}
use smartguard.Net.{SocketAddr}
use smartguard.Session.Extern.{Layout, Delivered, handle_extern_inbound_iff}
use smartguard.Session.Handle.{Write, inbound, outbound, nothing}
use smartguard.Tunnel.Keepalive.{PeerRuntime, wants_recheck, on_sent}
use smartguard.Tunnel.Loop.{
  Setting, World, Tunnel, Emitted, to_device, datagram, as_datagram, Event, ticked, on_tick,
  on_extern, on_intern, postponed, on_event,
}

abbrev pub IsEmitted : Emitted → List Emitted → Type 0
IsEmitted x [] = ⊥
IsEmitted x (y ∷ ys) = (x ≡ y) ⊎ IsEmitted x ys

not-IsEmitted-datagrams :
    (out : List ℕ) (ds : List (List ℕ × SocketAddr))
    → ¬ IsEmitted (to_device out) (map as_datagram ds)
not-IsEmitted-datagrams out [] h = h
not-IsEmitted-datagrams out ((bytes, to) ∷ ds) (inl e) = cc
not-IsEmitted-datagrams out ((bytes, to) ∷ ds) (inr h) = not-IsEmitted-datagrams out ds h

module _ (t : Setting) where
  open t use {lib}

  -- The event is what the socket received, and it is a packet of the peer that owns its source.
  abbrev pub FromOwner : Event lib → Tunnel t → List ℕ → Type 0
  FromOwner (Event.received addr bytes written sent) s out =
      Delivered lib t.t4 t.t6 t.peer_net (lib.recv_message s.sessions addr bytes).0 out
  FromOwner _ s out = ⊥

  ticked-to_device :
      (now : ℕ) (msgs : List (List ℕ × SocketAddr)) (s : Tunnel t) (wants : Run Bool) (w : World t)
      (out : List ℕ)
      → ¬ IsEmitted (to_device out) (ticked t now msgs s wants w).0.emitted
  ticked-to_device now msgs s panics w out h = h
  ticked-to_device now msgs s (returns wanted) w out h = not-IsEmitted-datagrams out _ h

  postponed-to_device :
      (s : Tunnel t) (bytes : List ℕ) (to : SocketAddr) (r : Run (List (PeerRuntime lib.PeerId)))
      (out : List ℕ)
      → ¬ IsEmitted (to_device out) (postponed t s (datagram bytes to ∷ []) r).emitted
  postponed-to_device s bytes to panics out (inl e) = cc
  postponed-to_device s bytes to (returns peers') out (inl e) = cc
  postponed-to_device s bytes to panics out (inr h) = h
  postponed-to_device s bytes to (returns peers') out (inr h) = h

  on_intern-to_device :
      (sent : Bool) (now : ℕ) (s : Tunnel t) (r : Run Write) (w : World t) (out : List ℕ)
      → ¬ IsEmitted (to_device out) (on_intern t sent now s r w).0.emitted
  unfolding on_intern
  on_intern-to_device sent now s panics w out h = h
  on_intern-to_device true now s (returns (outbound bytes to)) w out h =
      postponed-to_device s bytes to (on_sent now t.pairs s.peers to) out h
  on_intern-to_device false now s (returns (outbound bytes to)) w out (inl e) = cc
  on_intern-to_device false now s (returns (outbound bytes to)) w out (inr h) = h
  on_intern-to_device true now s (returns (inbound bytes)) w out h = h
  on_intern-to_device false now s (returns (inbound bytes)) w out h = h
  on_intern-to_device true now s (returns nothing) w out h = h
  on_intern-to_device false now s (returns nothing) w out h = h

  pub on_extern_to_device_iff :
      (addr : SocketAddr) (written sent : Bool) (s : Tunnel t) (r : Run Write) (w : World t)
      (out : List ℕ)
      → IsEmitted (to_device out) (on_extern t addr written sent s r w).0.emitted
        ↔ (r ≡ returns (inbound out))
  unfolding on_extern
  on_extern_to_device_iff addr written sent s panics w out = (λ h. absurd h, λ e. cc)
  on_extern_to_device_iff addr written sent s (returns (inbound bytes)) w out = (
    λ h. elim h [
      | inl e ↦ ap (λ b. returns (inbound b)) (sym (bytes_of e))
      | inr no_more ↦ absurd no_more
    ],
    λ e. inl (ap to_device (sym (written_of e))),
  )
    where
      bytes_of : to_device out ≡ to_device bytes → out ≡ bytes
      bytes_of e = cc

      written_of :
          ◌≡◌ {A = Run Write} (returns (inbound bytes)) (returns (inbound out)) → bytes ≡ out
      written_of e = cc
  on_extern_to_device_iff addr written sent s (returns (outbound bytes to)) w out =
      (λ h. elim h [ inl e ↦ absurd (cc) | inr no_more ↦ absurd no_more ], λ e. absurd (cc))
  on_extern_to_device_iff addr written sent s (returns nothing) w out =
      (λ h. absurd h, λ e. absurd (cc))

  -- Where the layout holds, a round writes bytes to the device exactly if its event is a datagram that
  -- holds a packet whose source belongs to the peer that sent it, and they are that packet behind its
  -- header: neither a timer nor a packet of the device nor another datagram leads to a write.
  pub on_event_to_device_iff :
      (e : Event lib) (s : Tunnel t) (w : World t) (out : List ℕ)
      → Layout lib
      → IsEmitted (to_device out) (on_event t e s w).0.emitted ↔ FromOwner e s out
  unfolding on_event on_tick
  on_event_to_device_iff Event.sigint s w out layout = (λ h. h, λ h. h)
  on_event_to_device_iff Event.sigterm s w out layout = (λ h. h, λ h. h)
  on_event_to_device_iff Event.recv_failed s w out layout = (λ h. h, λ h. h)
  on_event_to_device_iff Event.read_failed s w out layout = (λ h. h, λ h. h)
  on_event_to_device_iff (Event.tick now msgs sessions) s w out layout = (
    λ h.
        absurd
          (ticked-to_device now msgs _ (wants_recheck t.host_idx s.guard.added_routes) w out h),
    λ h. absurd h,
  )
  on_event_to_device_iff (Event.was_read tun_buf n sent now) s w out layout =
      (λ h. absurd (on_intern-to_device sent now _ _ w out h), λ h. absurd h)
  on_event_to_device_iff (Event.received addr bytes written sent) s w out layout =
      let (there, back) = on_extern_to_device_iff addr written sent _ _ w out in
      let (there', back') =
        handle_extern_inbound_iff lib t.t4 t.t6 t.peer_net s.sessions addr bytes out layout in
      (λ h. there' (there h), λ d. back (back' d))
