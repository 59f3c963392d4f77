-- ===== src/Tunnel/Loop/Across.antt =====
-- smartguard/src/tunnel.rs: a round in which one client reads a packet from its device, and the round of
-- another client that receives what the first sent.
use smartguard.Prelude.{
  ℕ, ◌+◌, ◌≤◌, Bool, true, false, Option, some, List, [], ◌∷◌, ◌≡◌, ◌↔◌, refl, length, Run, returns,
  panics,
}
use smartguard.Dns.{Platform}
use smartguard.Machine.{Machine}
use smartguard.Net.{IpAddr, SocketAddr}
use smartguard.Peers.PeerNet.{PeerNet, lookup}
use smartguard.Session.Across.{Paired, Passed, handle_intern-handle_extern}
use smartguard.Session.Extern.{Layout}
use smartguard.Session.Handle.{outbound, payload}
use smartguard.Session.Intern.{start, packet, plaintext, frame_end, asked}
use smartguard.Session.Packet.{ip_src, ip_dst}
use smartguard.Tunnel.Keepalive.{PeerRuntime, on_sent}
use smartguard.Tunnel.Loop.{
  Setting, World, Tunnel, Emitted, to_device, datagram, Event, on_intern, postponed, on_event,
}
use smartguard.Tunnel.Loop.Device.{IsEmitted, on_extern_to_device_iff}

module _ (t : Setting) where
  open t use {lib}

  postponed-emitted :
      (s : Tunnel t) (out : List Emitted) (r : Run (List (PeerRuntime lib.PeerId)))
      → (postponed t s out r).emitted ≡ out
  postponed-emitted s out panics = refl
  postponed-emitted s out (returns peers') = refl

  on_intern-outbound :
      (sent : Bool) (now : ℕ) (s : Tunnel t) (bytes : List ℕ) (to : SocketAddr) (w : World t)
      → (on_intern t sent now s (returns (outbound bytes to)) w).0.emitted ≡ datagram bytes to ∷ []
  unfolding on_intern
  on_intern-outbound true now s bytes to w = postponed-emitted s _ (on_sent now t.pairs s.peers to)
  on_intern-outbound false now s bytes to w = refl

  module _ (platform' : Platform) (machine' : Machine) (net' : PeerNet t.t4 t.t6)
      (pairs' : List (SocketAddr × ℕ)) (host_idx' : Option ℕ)
      (turn' : lib.Sessions → Option (List ℕ × SocketAddr) × lib.Sessions) where
    -- The loop of the other client.
    abbrev pub other : Setting
    other = record {
      platform = platform';
      machine = machine';
      lib = lib;
      t4 = t.t4;
      t6 = t.t6;
      peer_net = net';
      pairs = pairs';
      host_idx = host_idx';
      turn = turn';
    }

    module _ (s : Tunnel t) (w : World t) (s' : Tunnel other) (w' : World other) (peer : lib.PeerId)
        (addr : SocketAddr) where
      -- A round that reads a packet with a source, room for its frame and a session with the owner of
      -- its destination sends one datagram and nothing else. In a round of another client that has that
      -- session, the datagram leads to a write to the device exactly if that client's table gives the
      -- packet's source to the sender, and what is written is the packet, padded with zeros, behind its
      -- header.
      pub on_event-across :
          (tun_buf : List ℕ) (n now : ℕ) (sent written sent' : Bool) (src dst : IpAddr)
          (ep : SocketAddr) (metadata : lib.Metadata)
          → let filled = lib.tun_buf_start + n in
            Layout lib
            → Paired lib s.sessions s'.sessions peer (lookup t.t4 t.t6 t.peer_net dst) addr
            → (from : start lib t.t4 t.t6 t.peer_net ≤ filled) (upto : filled ≤ length tun_buf)
              (found : ip_dst (packet lib t.t4 t.t6 t.peer_net tun_buf filled) ≡ some dst)
            → frame_end lib t.t4 t.t6 t.peer_net filled ≤ length tun_buf
            → (asked lib t.t4 t.t6 t.peer_net s.sessions tun_buf filled dst from upto found).0
              ≡ payload ep metadata
            → ip_src (packet lib t.t4 t.t6 t.peer_net tun_buf filled) ≡ some src
            → (frame : List ℕ) × ((on_event t (Event.was_read tun_buf n sent now) s w).0.emitted
                ≡ datagram frame ep ∷ [])
              × ((out : List ℕ)
                  → IsEmitted
                      (to_device out)
                      (on_event other (Event.received addr frame written sent') s' w').0.emitted
                    ↔ Passed lib t.t4 t.t6 net' peer src
                        (plaintext lib t.t4 t.t6 t.peer_net tun_buf filled)
                        out)
      unfolding on_event
      on_event-across tun_buf n now sent written sent' src dst ep metadata layout paired from upto
            found room answer has_src =
          let (frame, sends, passes) =
            handle_intern-handle_extern lib t.t4 t.t6 t.peer_net net' s.sessions s'.sessions peer
              addr layout tun_buf (lib.tun_buf_start + n) dst from upto found src ep metadata paired
              room answer has_src in
          (
            frame,
            rw sends (on_intern-outbound sent now _ frame ep w),
            λ out.
                let (there, back) = on_extern_to_device_iff other addr written sent' _ _ w' out in
                (λ h. (passes out).0 (there h), λ p. back ((passes out).1 p)),
          )
