-- ===== src/Session/Handle.antt =====
-- smartguard-crypto/src/session/handle.rs: `handle_extern` and `handle_intern`. A buffer is the list
-- of its bytes, and a slice out of its range is a panic. What is printed is left out.
use smartguard.Prelude.{
  ℕ, ◌+◌, ◌-◌, ◌*◌, ◌/◌, ◌&&◌, Option, none, some, List, [], ◌∷◌, ◌++◌, length, take, drop,
  replicate, leb, if◌then◌else◌, Run, returns, panics, run_bind,
}
use mathlib.Core.Logic.{ite}
use smartguard.Net.{IpAddr, SocketAddr}
use smartguard.Peers.PeerNet.{TrieLib, PeerNet, lookup}
use smartguard.Session.Packet.{ip_src, ip_dst}

-- `rustyguard_core::Message`, with the bytes that a message refers to, or an error.
pub data Message (P : Type 0) : Type 0 where
  error noop handshake_complete : Message P
  read : P → List ℕ → Message P
  write : List ℕ → Message P

-- `rustyguard_core::SendMessage`, with the bytes and the address of a maintenance message, or an
-- error.
pub data SendMessage (M : Type 0) : Type 0 where
  error : SendMessage M
  maintenance : List ℕ → SocketAddr → SendMessage M
  payload : SocketAddr → M → SendMessage M

-- The session manager of `rustyguard_core` and the TUN device's kernel header. A call returns its
-- message, the buffer with what it wrote there, and the sessions after it.
pub record SessionLib : Type 1 where
  pub PeerId : Type 0
  pub peer_eq : Discrete PeerId
  pub Sessions : Type 0
  pub Metadata : Type 0
  pub recv_message : Sessions → SocketAddr → List ℕ → Message PeerId × List ℕ × Sessions
  pub send_message : Sessions → PeerId → List ℕ → SendMessage Metadata × List ℕ × Sessions
  pub frame_in_place : Metadata → List ℕ → List ℕ
  pub get_header_for : List ℕ → List ℕ
  pub data_header_len : ℕ
  pub kernel_header_len : ℕ
  pub tun_buf_start : ℕ

-- `rustyguard_tun::Write`.
pub data Write : Type 0 where
  inbound : List ℕ → Write
  outbound : List ℕ → SocketAddr → Write
  nothing : Write

abbrev pub const_max : ℕ → ℕ → ℕ
const_max a b = if leb a b then b else a

-- `&buf[start..end]`.
unfoldable pub slice : List ℕ → ℕ → ℕ → Run (List ℕ)
slice buf start end =
    if leb start end && leb end (length buf)
    then returns (take (end - start) (drop start buf))
    else panics

-- `buf[start..][..bytes.len()]` is assigned; the range was tested before.
abbrev pub overwrite : List ℕ → ℕ → List ℕ → List ℕ
overwrite buf start bytes = take start buf ++ (bytes ++ drop (start + length bytes) buf)

-- `n.next_multiple_of(16)`.
abbrev pub next_multiple_of_16 : ℕ → ℕ
next_multiple_of_16 n = (n + 15) / 16 * 16

-- `TAG_FOOTER_SIZE`.
abbrev pub tag_footer_size : ℕ
tag_footer_size = 16

module _ (l : SessionLib) where
  open l use {PeerId, Sessions}

  abbrev pub ip_packet_start : ℕ
  ip_packet_start = const_max l.data_header_len l.kernel_header_len

  -- `WG_PACKET_START`.
  abbrev pub wg_packet_start : ℕ
  wg_packet_start = ip_packet_start - l.data_header_len

  -- `split_first_chunk_mut` of the kernel header's size, and the header put there.
  unfoldable pub prepend_header : List ℕ → Run Write
  prepend_header tun_buf =
      if leb l.kernel_header_len (length tun_buf)
      then (let packet = drop l.kernel_header_len tun_buf in
          returns (inbound (l.get_header_for packet ++ packet)))
      else panics

  module _ (t4 t6 : TrieLib PeerId) where
    -- Cryptokey routing: the source must belong to the peer that sent the packet.
    unfoldable pub deliver : PeerNet t4 t6 → PeerId → List ℕ → List ℕ → Option IpAddr → Run Write
    deliver peer_net peer_idx buf ep_buf none = returns nothing
    deliver peer_net peer_idx buf ep_buf (some src) =
        ite (l.peer_eq (lookup t4 t6 peer_net src) peer_idx)
          (run_bind (slice ep_buf l.tun_buf_start (ip_packet_start + length buf)) prepend_header)
          (returns nothing)

    unfoldable pub on_message : PeerNet t4 t6 → SocketAddr → List ℕ → Message PeerId → Run Write
    on_message peer_net addr ep_buf error = returns nothing
    on_message peer_net addr ep_buf noop = returns nothing
    on_message peer_net addr ep_buf handshake_complete = returns nothing
    on_message peer_net addr ep_buf (read peer_idx []) = returns nothing
    on_message peer_net addr ep_buf (read peer_idx (b ∷ bs)) =
        deliver peer_net peer_idx (b ∷ bs) ep_buf (ip_src (b ∷ bs))
    on_message peer_net addr ep_buf (write buf) =
        run_bind (slice ep_buf 0 (length buf)) λ bytes. returns (outbound bytes addr)

    unfoldable pub handle_extern :
        Sessions → PeerNet t4 t6 → SocketAddr → List ℕ → Run Write × Sessions
    handle_extern sessions peer_net addr ep_buf =
        let (msg, ep_buf', sessions') = l.recv_message sessions addr ep_buf in
        (on_message peer_net addr ep_buf' msg, sessions')

    -- What is made of the answer of `send_message`, in the buffer that it leaves.
    unfoldable pub on_send : List ℕ → ℕ → SendMessage l.Metadata → Run Write
    on_send reply_buf pad_to error = returns nothing
    on_send reply_buf pad_to (maintenance bytes to) =
        if leb (length bytes) (length reply_buf) then returns (outbound bytes to) else panics
    on_send reply_buf pad_to (payload ep metadata) =
        run_bind (slice reply_buf wg_packet_start (pad_to + tag_footer_size))
          λ buf. returns (outbound (l.frame_in_place metadata buf) ep)

    -- The packet, padded with zeros, goes to the sessions.
    unfoldable pub forward : Sessions → PeerNet t4 t6 → List ℕ → ℕ → IpAddr → Run Write × Sessions
    forward sessions peer_net reply_buf filled dst =
        let pad_to = ip_packet_start + next_multiple_of_16 (filled - ip_packet_start) in
        if leb pad_to (length reply_buf)
        then (let padded = overwrite reply_buf filled (replicate (pad_to - filled) 0) in
            let plain = take (pad_to - ip_packet_start) (drop ip_packet_start padded) in
            let (msg, cypher, sessions') =
              l.send_message sessions (lookup t4 t6 peer_net dst) plain in
            (on_send (overwrite padded ip_packet_start cypher) pad_to msg, sessions'))
        else (panics, sessions)

    abbrev forward_to : Sessions → PeerNet t4 t6 → List ℕ → ℕ → Option IpAddr → Run Write × Sessions
    forward_to sessions peer_net reply_buf filled none = (returns nothing, sessions)
    forward_to sessions peer_net reply_buf filled (some dst) =
        forward sessions peer_net reply_buf filled dst

    abbrev forward_packet :
        Sessions → PeerNet t4 t6 → List ℕ → ℕ → Run (List ℕ) → Run Write × Sessions
    forward_packet sessions peer_net reply_buf filled panics = (panics, sessions)
    forward_packet sessions peer_net reply_buf filled (returns packet) =
        forward_to sessions peer_net reply_buf filled (ip_dst packet)

    unfoldable pub handle_intern : Sessions → PeerNet t4 t6 → List ℕ → ℕ → Run Write × Sessions
    handle_intern sessions peer_net reply_buf filled =
        forward_packet sessions peer_net reply_buf filled (slice reply_buf ip_packet_start filled)
