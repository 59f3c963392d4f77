-- ===== src/Session/Across.antt =====
-- smartguard-crypto/src/session/handle.rs: a packet that one client's `handle_intern` sends, at another
-- client's `handle_extern`.
use smartguard.Prelude.{
  ℕ, zero, suc, ◌+◌, ◌/◌, ◌≤◌, ◌<◌, some, List, [], ◌∷◌, ◌++◌, ◌≡◌, ◌↔◌, refl, subst, ap, ◌∙◌,
  arith, length, take, drop, get_or, returns, leb, leb→le, ◌==◌, Bool-cases, inl, inr,
  length-append, length-drop, true, false,
}
use smartguard.Net.{IpAddr, SocketAddr}
use smartguard.Peers.PeerNet.{TrieLib, PeerNet, lookup}
use smartguard.Session.Packet.{ip_src, ip_dst}
use smartguard.Session.Handle.{
  payload, SessionLib, inbound, outbound, tag_footer_size, handle_intern, read, handle_extern,
}
use smartguard.Session.Buffer.{leb_of_le, drop-append}
use smartguard.Session.Extern.{Layout, Delivered, handle_extern_inbound_iff}
use smartguard.Session.Intern.{
  start, packet, plaintext, frame_end, asked, handle_intern_frames, length-plaintext,
}

get_or-append : (xs ys : List ℕ) (i d : ℕ) → i < length xs → get_or (xs ++ ys) i d ≡ get_or xs i d
get_or-append [] ys i d h = absurd (omega arith)
get_or-append (x ∷ xs) ys zero d h = refl
get_or-append (x ∷ xs) ys (suc i) d h = get_or-append xs ys i d (omega arith)

take_within : (xs ys : List ℕ) (n : ℕ) → n ≤ length xs → take n (xs ++ ys) ≡ take n xs
take_within xs ys zero h = refl
take_within [] ys (suc n) h = absurd (omega arith)
take_within (x ∷ xs) ys (suc n) h = ap (λ zs. x ∷ zs) (take_within xs ys n (omega arith))

-- What stands behind a packet does not change its source.
pub ip_src-append :
    (xs ys : List ℕ) (src : IpAddr) → ip_src xs ≡ some src → ip_src (xs ++ ys) ≡ some src
unfolding ip_src
ip_src-append [] ys src e = absurd (cc)
ip_src-append (first ∷ rest) ys src e = elim (Bool-cases (first / 16 == 4)) [
  | inl four ↦ elim (Bool-cases (leb 20 (length (first ∷ rest)))) [
    | inl long ↦
        let h = leb→le 20 (length (first ∷ rest)) long in
        rw
          (
            four,
            longer 20 h,
            at h 12 (omega arith),
            at h 13 (omega arith),
            at h 14 (omega arith),
            at h 15 (omega arith),
          )
          (rw (four, long) at e)
    | inr short ↦ absurd (cc (rw (four, short, not_six four) at e))
  ]
  | inr other ↦ elim (Bool-cases (first / 16 == 6)) [
    | inl six ↦ elim (Bool-cases (leb 40 (length (first ∷ rest)))) [
      | inl long ↦
          let h = leb→le 40 (length (first ∷ rest)) long in
          rw (other, six, longer 40 h, sixteen h) (rw (other, six, long) at e)
      | inr short ↦ absurd (cc (rw (other, six, short) at e))
    ]
    | inr neither ↦ absurd (cc (rw (other, neither) at e))
  ]
]
  where
    longer : (n : ℕ) → n ≤ length (first ∷ rest) → leb n (length ((first ∷ rest) ++ ys)) ≡ true
    longer n h = leb_of_le n _ (omega (arith, length-append (first ∷ rest) ys))

    at :
        20 ≤ length (first ∷ rest)
        → (i : ℕ) → i < 20
        → get_or ((first ∷ rest) ++ ys) i 0 ≡ get_or (first ∷ rest) i 0
    at h i k = get_or-append (first ∷ rest) ys i 0 (omega arith)

    sixteen :
        40 ≤ length (first ∷ rest)
        → take 16 (drop 8 ((first ∷ rest) ++ ys)) ≡ take 16 (drop 8 (first ∷ rest))
    sixteen h =
        ap (take 16) (drop-append (first ∷ rest) ys 8 (omega arith))
        ∙ take_within (drop 8 (first ∷ rest)) ys 16 (omega (arith, length-drop 8 (first ∷ rest)))

    not_six : first / 16 == 4 ≡ true → first / 16 == 6 ≡ false
    not_six four = ground arith

-- What the handlers rely on in `rustyguard_core` between two ends with a session for each other: data
-- that one encrypts for the other keeps its length, and the other reads it, as data of the first, in any
-- frame that has it behind the header and has room for the tag.
pub record Paired (l : SessionLib) (a b : l.Sessions) (peer_a peer_b : l.PeerId) (addr : SocketAddr)
    : Type 0 where
  pub keeps_length :
      (plain : List ℕ) (ep : SocketAddr) (metadata : l.Metadata)
      → (l.send_message a peer_b plain).0 ≡ payload ep metadata
      → length (l.send_message a peer_b plain).1 ≡ length plain
  pub opens :
      (plain area : List ℕ) (ep : SocketAddr) (metadata : l.Metadata)
      → (l.send_message a peer_b plain).0 ≡ payload ep metadata
      → length area ≡ l.data_header_len + length plain + tag_footer_size
      → take (length plain) (drop l.data_header_len area) ≡ (l.send_message a peer_b plain).1
      → (l.recv_message b addr (l.frame_in_place metadata area)).0 ≡ read peer_a plain

module _ (l : SessionLib) (t4 t6 : TrieLib l.PeerId) (net' : PeerNet t4 t6) where
  -- A packet of a peer is written behind its header, if the table gives its source to that peer.
  abbrev pub Passed : l.PeerId → IpAddr → List ℕ → List ℕ → Type 0
  Passed peer src plain out =
      (lookup t4 t6 net' src ≡ peer) × (out ≡ l.get_header_for plain ++ plain)

module _ (l : SessionLib) (t4 t6 : TrieLib l.PeerId) (net net' : PeerNet t4 t6) (a b : l.Sessions)
    (peer_a : l.PeerId) (addr : SocketAddr) (layout : Layout l) where
  passes_iff :
      (plain : List ℕ) (src : IpAddr) (out : List ℕ)
      → ip_src plain ≡ some src
      → Delivered l t4 t6 net' (read peer_a plain) out ↔ Passed l t4 t6 net' peer_a src plain out
  passes_iff plain src out found = (
    λ d. (cc, cc),
    λ (owner, framed). record {
      peer = peer_a;
      packet = plain;
      src = src;
      received = refl;
      has_src = found;
      is_owner = owner;
      framed = framed;
    },
  )

  handle_extern-passes_iff :
      (frame plain : List ℕ) (src : IpAddr) (out : List ℕ)
      → (l.recv_message b addr frame).0 ≡ read peer_a plain
      → ip_src plain ≡ some src
      → ((handle_extern l t4 t6 b net' addr frame).0 ≡ returns (inbound out))
        ↔ Passed l t4 t6 net' peer_a src plain out
  handle_extern-passes_iff frame plain src out received found =
      let (there, back) =
        rw received at (handle_extern_inbound_iff l t4 t6 net' b addr frame out layout) in
      let (there', back') = passes_iff plain src out found in
      (λ e. there' (there e), λ p. back (back' p))

  module _ (buf : List ℕ) (filled : ℕ) (dst : IpAddr) (from : start l t4 t6 net ≤ filled)
      (upto : filled ≤ length buf) (found : ip_dst (packet l t4 t6 net buf filled) ≡ some dst) where
    -- A packet from the device, with a source, room for its frame and a session with the owner of its
    -- destination, is sent in one datagram; another client with that session writes something for the
    -- datagram exactly if its table gives the source to the sender, and then the packet, padded with
    -- zeros, behind its header.
    pub handle_intern-handle_extern :
        (src : IpAddr) (ep : SocketAddr) (metadata : l.Metadata)
        → Paired l a b peer_a (lookup t4 t6 net dst) addr
        → frame_end l t4 t6 net filled ≤ length buf
        → (asked l t4 t6 net a buf filled dst from upto found).0 ≡ payload ep metadata
        → ip_src (packet l t4 t6 net buf filled) ≡ some src
        → (frame : List ℕ) × ((handle_intern l t4 t6 a net buf filled).0
            ≡ returns (outbound frame ep))
          × ((out : List ℕ)
              → ((handle_extern l t4 t6 b net' addr frame).0 ≡ returns (inbound out))
                ↔ Passed l t4 t6 net' peer_a src (plaintext l t4 t6 net buf filled) out)
    handle_intern-handle_extern src ep metadata paired room answer has_src =
        let keeps = paired.keeps_length plain ep metadata answer in
        let (area, sends, long, content) =
          handle_intern_frames l t4 t6 net a buf filled dst from upto found ep metadata keeps room
            answer in
        let is_read =
          paired.opens plain area ep metadata answer
            (omega (arith, long, length-plaintext l t4 t6 net a buf filled dst from upto found))
            (subst (λ n. take n (drop l.data_header_len area) ≡ cypher) keeps content) in
        (
          l.frame_in_place metadata area,
          ap (λ r. r.0) sends,
          λ out.
              handle_extern-passes_iff (l.frame_in_place metadata area) plain src out is_read
                (ip_src-append (packet l t4 t6 net buf filled) _ src has_src),
        )
      where
        plain : List ℕ
        plain = plaintext l t4 t6 net buf filled

        cypher : List ℕ
        cypher = (asked l t4 t6 net a buf filled dst from upto found).1
