-- ===== src/Session/Extern.antt =====
-- smartguard-crypto/src/session/handle.rs: what `handle_extern` writes to the TUN device.
use smartguard.Prelude.{
  ℕ, ◌+◌, ◌≤◌, some, List, [], ◌∷◌, ◌++◌, ◌≡◌, ◌≢◌, ◌↔◌, refl, subst, ◌⊎◌, inl, inr, arith, length,
  drop, returns, panics, Option-cases,
}
use mathlib.Core.Logic.{if_pos, if_neg}
use smartguard.Net.{IpAddr, SocketAddr}
use smartguard.Peers.PeerNet.{TrieLib, PeerNet, lookup}
use smartguard.Session.Packet.{ip_src}
use smartguard.Session.Handle.{
  Message, error, noop, handshake_complete, read, write, SessionLib, inbound, nothing, slice,
  ip_packet_start, prepend_header, deliver, on_message, handle_extern,
}
use smartguard.Session.Buffer.{slice_earlier, leb_of_le}

-- What `handle_extern` relies on: a decrypted packet stands in the buffer where its IP packet
-- starts, an answer at the buffer's start, and the kernel's header fits in front of the packet.
pub record Layout (l : SessionLib) : Type 0 where
  pub header_fits : l.tun_buf_start + l.kernel_header_len ≡ ip_packet_start l
  pub read_in_place :
      (s : l.Sessions) (addr : SocketAddr) (buf : List ℕ) (peer : l.PeerId) (bytes : List ℕ)
      → (l.recv_message s addr buf).0 ≡ read peer bytes
      → slice (l.recv_message s addr buf).1 (ip_packet_start l) (ip_packet_start l + length bytes)
        ≡ returns bytes
  pub write_in_place :
      (s : l.Sessions) (addr : SocketAddr) (buf bytes : List ℕ)
      → (l.recv_message s addr buf).0 ≡ write bytes
      → slice (l.recv_message s addr buf).1 0 (length bytes) ≡ returns bytes

module _ (l : SessionLib) (t4 t6 : TrieLib l.PeerId) (net : PeerNet t4 t6) where
  -- What may be written to the device for a message: the packet of a peer that owns its source.
  pub record Delivered (msg : Message l.PeerId) (out : List ℕ) : Type 0 where
    pub peer : l.PeerId
    pub packet : List ℕ
    pub src : IpAddr
    pub received : msg ≡ read peer packet
    pub has_src : ip_src packet ≡ some src
    pub is_owner : lookup t4 t6 net src ≡ peer
    pub framed : out ≡ l.get_header_for packet ++ packet

  prepend_header-eq :
      (tun_buf packet : List ℕ)
      → l.kernel_header_len ≤ length tun_buf
      → drop l.kernel_header_len tun_buf ≡ packet
      → prepend_header l tun_buf ≡ returns (inbound (l.get_header_for packet ++ packet))
  unfolding prepend_header
  prepend_header-eq tun_buf packet h e = rw (leb_of_le l.kernel_header_len (length tun_buf) h, e)

  -- A delivery either is refused or writes the packet behind its header.
  deliver-cases :
      (peer : l.PeerId) (packet buf : List ℕ) (src : IpAddr)
      → l.tun_buf_start + l.kernel_header_len ≡ ip_packet_start l
      → slice buf (ip_packet_start l) (ip_packet_start l + length packet) ≡ returns packet
      → ((lookup t4 t6 net src ≢ peer)
          × (deliver l t4 t6 net peer packet buf (some src) ≡ returns nothing))
        ⊎ ((lookup t4 t6 net src ≡ peer)
            × (deliver l t4 t6 net peer packet buf (some src)
                ≡ returns (inbound (l.get_header_for packet ++ packet))))
  unfolding deliver
  deliver-cases peer packet buf src fits place = elim (l.peer_eq (lookup t4 t6 net src) peer) [
    | no differs ↦ inl (differs, rw (if_neg _ differs) refl)
    | yes same ↦
        let (tun_buf, e, h, d) =
          slice_earlier buf (ip_packet_start l) l.tun_buf_start l.kernel_header_len _ packet fits
            place in
        inr (same, rw (if_pos _ same) (rw e (prepend_header-eq tun_buf packet h d)))
  ]

  module _ (layout : Layout l) (addr : SocketAddr) where
    -- The outcome for each message, in the buffer that it came with.
    abbrev Placed : Message l.PeerId → List ℕ → Type 0
    Placed (read peer packet) buf =
        slice buf (ip_packet_start l) (ip_packet_start l + length packet) ≡ returns packet
    Placed (write bytes) buf = slice buf 0 (length bytes) ≡ returns bytes
    Placed error buf = Unit
    Placed noop buf = Unit
    Placed handshake_complete buf = Unit

    on_message_inbound :
        (msg : Message l.PeerId) (buf out : List ℕ)
        → Placed msg buf
        → on_message l t4 t6 net addr buf msg ≡ returns (inbound out)
        → Delivered msg out
    unfolding on_message deliver
    on_message_inbound (read peer []) buf out place e = absurd (cc)
    on_message_inbound (read peer (b ∷ bs)) buf out place e =
        elim (Option-cases (ip_src (b ∷ bs))) [
          | inl missing ↦ absurd (cc (rw missing at e))
          | inr (src, found) ↦ delivered src found (rw found at e)
        ]
      where
        delivered :
            (src : IpAddr)
            → ip_src (b ∷ bs) ≡ some src
            → deliver l t4 t6 net peer (b ∷ bs) buf (some src) ≡ returns (inbound out)
            → Delivered (read peer (b ∷ bs)) out
        delivered src found e' =
            elim (deliver-cases peer (b ∷ bs) buf src layout.header_fits place) [
              | inl (differs, refused) ↦ absurd (cc (refused, e'))
              | inr (same, done) ↦ record {
                peer = peer;
                packet = b ∷ bs;
                src = src;
                received = refl;
                has_src = found;
                is_owner = same;
                framed = cc (done, e');
              }
            ]
    on_message_inbound (write bytes) buf out place e = absurd (ground (arith))
    on_message_inbound error buf out place e = absurd (cc)
    on_message_inbound noop buf out place e = absurd (cc)
    on_message_inbound handshake_complete buf out place e = absurd (cc)

    on_message_read :
        (peer : l.PeerId) (packet buf : List ℕ) (src : IpAddr)
        → Placed (read peer packet) buf
        → ip_src packet ≡ some src
        → lookup t4 t6 net src ≡ peer
        → on_message l t4 t6 net addr buf (read peer packet)
          ≡ returns (inbound (l.get_header_for packet ++ packet))
    unfolding on_message ip_src
    on_message_read peer [] buf src place found same = absurd (cc)
    on_message_read peer (b ∷ bs) buf src place found same =
        rw found (elim (deliver-cases peer (b ∷ bs) buf src layout.header_fits place) [
          | inl (differs, refused) ↦ absurd (differs same)
          | inr (_, done) ↦ done
        ])

    on_message_delivers :
        (msg : Message l.PeerId) (buf out : List ℕ)
        → Placed msg buf
        → Delivered msg out
        → on_message l t4 t6 net addr buf msg ≡ returns (inbound out)
    on_message_delivers msg buf out place d =
        rw (d.received, d.framed)
          (on_message_read d.peer d.packet buf d.src (subst (λ m. Placed m buf) d.received place)
            d.has_src d.is_owner)

    on_message-ne-panics :
        (msg : Message l.PeerId) (buf : List ℕ)
        → Placed msg buf
        → on_message l t4 t6 net addr buf msg ≢ panics
    unfolding on_message deliver
    on_message-ne-panics (read peer []) buf place e = cc
    on_message-ne-panics (read peer (b ∷ bs)) buf place e = elim (Option-cases (ip_src (b ∷ bs))) [
      | inl missing ↦ cc (rw missing at e)
      | inr (src, found) ↦ elim (deliver-cases peer (b ∷ bs) buf src layout.header_fits place) [
        | inl (_, refused) ↦ cc (refused, rw found at e)
        | inr (_, done) ↦ cc (done, rw found at e)
      ]
    ]
    on_message-ne-panics (write bytes) buf place e = cc (rw place at e)
    on_message-ne-panics error buf place e = cc
    on_message-ne-panics noop buf place e = cc
    on_message-ne-panics handshake_complete buf place e = cc

  -- What `recv_message` leaves is placed as the layout says.
  recv-Placed :
      (layout : Layout l) (s : l.Sessions) (addr : SocketAddr) (buf : List ℕ)
      (msg : Message l.PeerId)
      → (l.recv_message s addr buf).0 ≡ msg
      → Placed layout addr msg (l.recv_message s addr buf).1
  recv-Placed layout s addr buf (read peer packet) e = layout.read_in_place s addr buf peer packet e
  recv-Placed layout s addr buf (write bytes) e = layout.write_in_place s addr buf bytes e
  recv-Placed layout s addr buf error e = tt
  recv-Placed layout s addr buf noop e = tt
  recv-Placed layout s addr buf handshake_complete e = tt

  -- Where the layout holds, bytes are written to the device exactly if what was received is a packet
  -- whose source belongs to the peer that sent it, and they are the packet behind its header.
  pub handle_extern_inbound_iff :
      (s : l.Sessions) (addr : SocketAddr) (buf out : List ℕ)
      → Layout l
      → ((handle_extern l t4 t6 s net addr buf).0 ≡ returns (inbound out))
        ↔ Delivered (l.recv_message s addr buf).0 out
  unfolding handle_extern
  handle_extern_inbound_iff s addr buf out layout = (
    on_message_inbound layout addr _ _ out (recv-Placed layout s addr buf _ refl),
    on_message_delivers layout addr _ _ out (recv-Placed layout s addr buf _ refl),
  )

  -- Where the layout holds, the handler of what comes from the network does not panic.
  pub handle_extern-ne-panics :
      (s : l.Sessions) (addr : SocketAddr) (buf : List ℕ)
      → Layout l
      → (handle_extern l t4 t6 s net addr buf).0 ≢ panics
  unfolding handle_extern
  handle_extern-ne-panics s addr buf layout =
      on_message-ne-panics layout addr _ _ (recv-Placed layout s addr buf _ refl)
