-- ===== src/Session/Intern.antt =====
-- smartguard-crypto/src/session/handle.rs: what `handle_intern` hands to the sessions and sends.
use smartguard.Prelude.{
  ℕ, ◌+◌, ◌-◌, ◌≤◌, ◌<◌, some, List, ◌++◌, ◌≡◌, ap, ◌∙◌, ◌↔◌, arith, length, take, drop, replicate,
  returns, panics, length-take, length-drop, length-append, length-replicate,
}
use native.Mathlib.Decide.{dec_lt}
use smartguard.Net.{IpAddr, SocketAddr}
use smartguard.Peers.PeerNet.{TrieLib, PeerNet, lookup}
use smartguard.Session.Packet.{ip_dst}
use smartguard.Session.Handle.{
  SendMessage, payload, SessionLib, outbound, overwrite, next_multiple_of_16, tag_footer_size,
  ip_packet_start, wg_packet_start, on_send, forward, handle_intern,
}
use smartguard.Session.Buffer.{
  slice-eq, slice_short, leb_of_le, leb_of_lt, overwrite_tail, overwrite_read, length-overwrite,
  take-take, drop-take, drop-drop,
}

module _ (l : SessionLib) (t4 t6 : TrieLib l.PeerId) (net : PeerNet t4 t6) where
  abbrev pub start : ℕ
  start = ip_packet_start l

  header-le-start : l.data_header_len ≤ start
  header-le-start = ground arith

  -- The packet in the buffer, and the same padded with zeros to a multiple of 16 bytes.
  abbrev pub packet : List ℕ → ℕ → List ℕ
  packet buf filled = take (filled - start) (drop start buf)

  abbrev pub padding : ℕ → ℕ
  padding filled = next_multiple_of_16 (filled - start) - (filled - start)

  abbrev pub plaintext : List ℕ → ℕ → List ℕ
  plaintext buf filled = packet buf filled ++ replicate (padding filled) 0

  -- Where the frame of the padded packet ends.
  abbrev pub frame_end : ℕ → ℕ
  frame_end filled = start + next_multiple_of_16 (filled - start) + tag_footer_size

  module _ (s : l.Sessions) (buf : List ℕ) (filled : ℕ) (dst : IpAddr) (from : start ≤ filled)
      (upto : filled ≤ length buf) (found : ip_dst (packet buf filled) ≡ some dst) where
    pub intern-forward :
        handle_intern l t4 t6 s net buf filled ≡ forward l t4 t6 s net buf filled dst
    unfolding handle_intern
    intern-forward = rw (slice-eq buf start filled from upto, found)

    abbrev pub asked : SendMessage l.Metadata × List ℕ × l.Sessions
    asked = l.send_message s (lookup t4 t6 net dst) (plaintext buf filled)

    -- With room for the padding, the sessions are given the padded packet for the owner of the
    -- destination, and their answer is sent from the buffer that they leave.
    pub forward-eq :
        start + next_multiple_of_16 (filled - start) ≤ length buf
        → forward l t4 t6 s net buf filled dst ≡ (
          on_send l t4 t6
              (overwrite (overwrite buf filled (replicate (padding filled) 0)) start asked.1)
              (start + next_multiple_of_16 (filled - start))
              asked.0,
          asked.2,
        )
    unfolding forward
    forward-eq room =
        rw
          (leb_of_le (start + next_multiple_of_16 (filled - start)) (length buf) room, zeros, plain)
      where
        zeros : start + next_multiple_of_16 (filled - start) - filled ≡ padding filled
        zeros = omega arith

        plain :
            take
              (start + next_multiple_of_16 (filled - start) - start)
              (drop start (overwrite buf filled (replicate (padding filled) 0)))
            ≡ plaintext buf filled
        plain =
            overwrite_tail buf (replicate (padding filled) 0) start filled _ from upto
              (omega (arith, length-replicate {A = ℕ} (padding filled) 0))

    -- The buffer that the sessions' work leaves, as long as it was.
    unfoldable pub left : List ℕ
    left = overwrite (overwrite buf filled (replicate (padding filled) 0)) start asked.1

    abbrev pub KeepsLength : Type 0
    KeepsLength = length asked.1 ≡ length (plaintext buf filled)

    pub length-plaintext : length (plaintext buf filled) ≡ next_multiple_of_16 (filled - start)
    length-plaintext = omega (
      arith,
      length-append (packet buf filled) (replicate (padding filled) 0),
      length-take (filled - start) (drop start buf),
      length-drop start buf,
      length-replicate {A = ℕ} (padding filled) 0,
    )

    length-padded :
        start + next_multiple_of_16 (filled - start) ≤ length buf
        → length (overwrite buf filled (replicate (padding filled) 0)) ≡ length buf
    length-padded room =
        length-overwrite buf (replicate (padding filled) 0) filled
          (omega (arith, length-replicate {A = ℕ} (padding filled) 0))

    pub length-left :
        KeepsLength
        → start + next_multiple_of_16 (filled - start) ≤ length buf
        → length left ≡ length buf
    unfolding left
    length-left keeps room =
        length-overwrite (overwrite buf filled (replicate (padding filled) 0)) asked.1 start
          (omega (arith, length-padded room, length-plaintext, keeps))
        ∙ length-padded room

    -- The part of the buffer that is framed and sent.
    framed_area : List ℕ
    framed_area = take (frame_end filled - wg_packet_start l) (drop (wg_packet_start l) left)

    -- Its length, and the encrypted packet behind the header.
    framed_area-content :
        KeepsLength
        → frame_end filled ≤ length buf
        → (length framed_area
            ≡ l.data_header_len + next_multiple_of_16 (filled - start) + tag_footer_size)
          × (take (length asked.1) (drop l.data_header_len framed_area) ≡ asked.1)
    unfolding framed_area left
    framed_area-content keeps room = (
      omega (
        arith,
        length-take (frame_end filled - wg) (drop wg left),
        length-drop wg left,
        length-left keeps (omega arith),
        header-le-start,
      ),
      ap (take (length asked.1)) (
            drop-take (drop wg left) l.data_header_len (frame_end filled - start)
              (frame_end filled - wg) (omega (arith, header-le-start))
            ∙ ap (take (frame_end filled - start))
                (drop-drop left wg l.data_header_len start (omega (arith, header-le-start))))
          ∙ take-take (drop start left) (length asked.1) (frame_end filled - start)
              (omega (arith, keeps, length-plaintext))
          ∙ overwrite_read (overwrite buf filled (replicate (padding filled) 0)) asked.1 start
              (omega (arith, length-padded (omega arith))),
    )
      where
        wg : ℕ
        wg = wg_packet_start l

    handle_intern_sends :
        (ep : SocketAddr) (metadata : l.Metadata)
        → KeepsLength
        → frame_end filled ≤ length buf
        → asked.0 ≡ payload ep metadata
        → handle_intern l t4 t6 s net buf filled
          ≡ (returns (outbound (l.frame_in_place metadata framed_area) ep), asked.2)
    unfolding on_send framed_area left
    handle_intern_sends ep metadata keeps room answer =
        intern-forward
        ∙ forward-eq (omega arith)
        ∙ rw (answer, on_send)
            (rw (
              slice-eq left (wg_packet_start l) (frame_end filled) (omega (arith, header-le-start))
                (omega (arith, length-left keeps (omega arith)))))

    -- A packet from the device whose destination is known, for which the sessions answer with
    -- encrypted data as long as what they were given, and with room for the frame, is sent to the
    -- address that they name: the sessions are given the packet for the owner of its destination,
    -- padded with zeros, and the frame has the data header, the encrypted bytes and the tag.
    pub handle_intern_frames :
        (ep : SocketAddr) (metadata : l.Metadata)
        → KeepsLength
        → frame_end filled ≤ length buf
        → asked.0 ≡ payload ep metadata
        → (area : List ℕ) × (handle_intern l t4 t6 s net buf filled
            ≡ (returns (outbound (l.frame_in_place metadata area) ep), asked.2))
          × (length area
              ≡ l.data_header_len + next_multiple_of_16 (filled - start) + tag_footer_size)
          × (take (length asked.1) (drop l.data_header_len area) ≡ asked.1)
    handle_intern_frames ep metadata keeps room answer =
        let content = framed_area-content keeps room in
        (framed_area, handle_intern_sends ep metadata keeps room answer, content.0, content.1)

    forward_no_room :
        length buf < start + next_multiple_of_16 (filled - start)
        → (forward l t4 t6 s net buf filled dst).0 ≡ panics
    unfolding forward
    forward_no_room h = rw (leb_of_lt (start + next_multiple_of_16 (filled - start)) (length buf) h)

    no_room_panics :
        (ep : SocketAddr) (metadata : l.Metadata)
        → KeepsLength
        → asked.0 ≡ payload ep metadata
        → length buf < frame_end filled
        → (handle_intern l t4 t6 s net buf filled).0 ≡ panics
    unfolding on_send left
    no_room_panics ep metadata keeps answer short =
        elim (dec_lt (length buf) (start + next_multiple_of_16 (filled - start))) [
          | yes h ↦ rw intern-forward (forward_no_room h)
          | no h ↦
              rw (intern-forward, forward-eq (omega arith), answer, on_send)
                (rw (
                  slice_short left (wg_packet_start l) (frame_end filled)
                    (omega (arith, length-left keeps (omega arith)))))
        ]

    -- Where the sessions answer a packet with encrypted data as long as what they were given, the
    -- handler panics exactly if the frame does not fit in the buffer.
    pub handle_intern-eq-panics_iff :
        (ep : SocketAddr) (metadata : l.Metadata)
        → KeepsLength
        → asked.0 ≡ payload ep metadata
        → ((handle_intern l t4 t6 s net buf filled).0 ≡ panics) ↔ (length buf < frame_end filled)
    handle_intern-eq-panics_iff ep metadata keeps answer = (
      λ e. elim (dec_lt (length buf) (frame_end filled)) [
        | yes h ↦ h
        | no h ↦
            absurd
              (cc (ap (λ r. r.0) (handle_intern_sends ep metadata keeps (omega arith) answer), e))
      ],
      no_room_panics ep metadata keeps answer,
    )
