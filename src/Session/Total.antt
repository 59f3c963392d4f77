-- ===== src/Session/Total.antt =====
-- smartguard-crypto/src/session/handle.rs: a packet from the device that fits is handled without a
-- panic, whatever its bytes and whatever the sessions answer.
use smartguard.Prelude.{
  ℕ, ◌+◌, ◌-◌, ◌≤◌, some, List, ◌≡◌, ◌≢◌, refl, sym, ◌∙◌, ap, arith, length, inl, inr, panics, Run,
  Option-cases,
}
use smartguard.Net.{IpAddr, SocketAddr}
use smartguard.Peers.PeerNet.{TrieLib, PeerNet}
use smartguard.Session.Packet.{ip_dst}
use smartguard.Session.Handle.{
  SendMessage, error, maintenance, payload, SessionLib, tag_footer_size, wg_packet_start, on_send,
  handle_intern, Write, next_multiple_of_16,
}
use smartguard.Session.Buffer.{slice-eq, leb_of_le}
use smartguard.Session.Intern.{
  start, packet, frame_end, asked, intern-forward, forward-eq, left, length-left,
}

-- The length of the longest message that starts a handshake.
abbrev pub handshake_len : ℕ
handshake_len = 148

-- What the handler relies on: data is encrypted in place, and a message of the protocol is at most
-- as long as a handshake's first.
pub record Fitting (l : SessionLib) : Type 0 where
  pub keeps_length :
      (s : l.Sessions) (peer : l.PeerId) (plain : List ℕ)
      → length (l.send_message s peer plain).1 ≡ length plain
  pub maintenance_fits :
      (s : l.Sessions) (peer : l.PeerId) (plain bytes : List ℕ) (to : SocketAddr)
      → (l.send_message s peer plain).0 ≡ maintenance bytes to
      → length bytes ≤ handshake_len

module _ (l : SessionLib) (t4 t6 : TrieLib l.PeerId) (net : PeerNet t4 t6)
    (fitting : Fitting l) where
  on_send-ne-panics :
      (buf : List ℕ) (pad_to : ℕ) (msg : SendMessage l.Metadata)
      → handshake_len ≤ length buf
      → pad_to + tag_footer_size ≤ length buf
      → wg_packet_start l ≤ pad_to
      → ((bytes : List ℕ) (to : SocketAddr)
          → msg ≡ maintenance bytes to
          → length bytes ≤ handshake_len)
      → on_send l t4 t6 buf pad_to msg ≢ panics
  unfolding on_send
  on_send-ne-panics buf pad_to error long room after short e = cc
  on_send-ne-panics buf pad_to (maintenance bytes to) long room after short e =
      cc (rw (leb_of_le (length bytes) (length buf) (omega (arith, short bytes to refl))) at e)
  on_send-ne-panics buf pad_to (payload ep metadata) long room after short e =
      cc (rw (slice-eq buf (wg_packet_start l) (pad_to + tag_footer_size) (omega arith) room) at e)

  module _ (s : l.Sessions) (buf : List ℕ) (filled : ℕ) (from : start l t4 t6 net ≤ filled)
      (room : frame_end l t4 t6 net filled ≤ length buf) (long : handshake_len ≤ length buf) where
    upto : filled ≤ length buf
    upto = omega arith

    known-ne-panics :
        (dst : IpAddr)
        → ip_dst (packet l t4 t6 net buf filled) ≡ some dst
        → (handle_intern l t4 t6 s net buf filled).0 ≢ panics
    unfolding left
    known-ne-panics dst found e =
        on_send-ne-panics after
          (start l t4 t6 net + next_multiple_of_16 (filled - start l t4 t6 net))
          (asked l t4 t6 net s buf filled dst from upto found).0 (omega (arith, same_length))
          (omega (arith, same_length)) (ground arith) (fitting.maintenance_fits s _ _)
          (sym sends ∙ e)
      where
        after : List ℕ
        after = left l t4 t6 net s buf filled dst from upto found

        same_length : length after ≡ length buf
        same_length =
            length-left l t4 t6 net s buf filled dst from upto found (fitting.keeps_length s _ _)
              (omega arith)

        sends :
            (handle_intern l t4 t6 s net buf filled).0
            ≡ on_send l t4 t6 after
                (start l t4 t6 net + next_multiple_of_16 (filled - start l t4 t6 net))
                (asked l t4 t6 net s buf filled dst from upto found).0
        sends =
            ap (λ (r : Run Write × l.Sessions). r.0)
              (intern-forward l t4 t6 net s buf filled dst from upto found
                ∙ forward-eq l t4 t6 net s buf filled dst from upto found (omega arith))

    -- A packet that was read behind the header, with room for its frame and for a handshake in the
    -- buffer, is handled without a panic.
    pub handle_intern-ne-panics : (handle_intern l t4 t6 s net buf filled).0 ≢ panics
    unfolding handle_intern
    handle_intern-ne-panics e = elim (Option-cases (ip_dst (packet l t4 t6 net buf filled))) [
      | inl unknown ↦ cc (rw (slice-eq buf (start l t4 t6 net) filled from upto, unknown) at e)
      | inr (dst, found) ↦ known-ne-panics dst found e
    ]
