-- ===== src/Tunnel/Bounded.antt =====
-- smartguard/src/tunnel.rs: the buffer of the event loop and the MTU.
use smartguard.Prelude.{ℕ, ◌+◌, ◌-◌, ◌≤◌, List, ◌≡◌, ◌≢◌, Option, arith, length}
use smartguard.Dns.{Platform}
use smartguard.Machine.{Machine}
use smartguard.Net.{SocketAddr, IpNetLib}
use smartguard.Peers.PeerNet.{TrieLib}
use smartguard.Session.Extern.{Layout}
use smartguard.Session.Handle.{SessionLib, ip_packet_start, next_multiple_of_16, tag_footer_size}
use smartguard.Session.Total.{Fitting}
use smartguard.Tunnel.Loop.{
  Setting, World, Tunnel, LoopState, Event, Flow, panicked, Reach, here, next,
}
use smartguard.Tunnel.Loop.Indexed.{Fits, EventsFit}
use smartguard.Tunnel.Start.{CoreOf, Begun, state_of}
use smartguard.Tunnel.Whole.{at_start, begun-ne-panicked}

-- The bytes of `tun_buffer`.
abbrev pub tun_buffer_len : ℕ
tun_buffer_len = 2048

-- The MTU up to which a padded packet has room for its header and its tag in the buffer.
abbrev pub largest_mtu : ℕ
largest_mtu = 2016

-- The sizes of `rustyguard_core` and of the TUN device: a data header of 16 bytes, and a kernel header
-- that is no longer.
pub record Sizes (l : SessionLib) : Type 0 where
  pub data_header : l.data_header_len ≡ 16
  pub kernel_header : l.kernel_header_len ≤ 16

-- With these sizes a packet starts in the buffer behind a data header.
start-16 : {l : SessionLib} → Sizes l → ip_packet_start l ≡ 16
start-16 {l = l} sizes = ground (arith, sizes.data_header, sizes.kernel_header)

behind : (start kernel n first : ℕ) → first + kernel ≡ start → kernel ≤ n → start ≤ first + n
behind start kernel n first e h = omega arith

has_room :
    (start kernel n first mtu len : ℕ)
    → start ≡ 16
    → first + kernel ≡ start
    → n ≤ kernel + mtu
    → mtu ≤ largest_mtu
    → len ≡ tun_buffer_len
    → start + next_multiple_of_16 (first + n - start) + tag_footer_size ≤ len
has_room start kernel n first mtu len e e' h small e'' = omega arith

module _ (t : Setting) (mtu : ℕ) where
  open t use {lib}

  -- What the device documents: a read fills the buffer with the kernel's header and a packet within the
  -- MTU.
  abbrev pub IsWithin : Event lib → Type 0
  IsWithin (Event.was_read tun_buf n sent now) =
      (length tun_buf ≡ tun_buffer_len)
      × (lib.kernel_header_len ≤ n)
      × (n ≤ lib.kernel_header_len + mtu)
  IsWithin _ = Unit

  abbrev pub EventsWithin :
      {s : Tunnel t} {w : World t} {s' : Tunnel t} {w' : World t} {f : Flow}
      → Reach t s w s' w' f
      → Type 0
  EventsWithin here = Unit
  EventsWithin (next r e p) = EventsWithin r × IsWithin e

  within-Fits : (e : Event lib) → Layout lib → Sizes lib → mtu ≤ largest_mtu → IsWithin e → Fits t e
  within-Fits (Event.was_read tun_buf n sent now) layout sizes small (len, from, upto) =
      let start_at = start-16 sizes in
      (
        behind _ _ n lib.tun_buf_start layout.header_fits from,
        has_room _ _ n lib.tun_buf_start mtu (length tun_buf) start_at layout.header_fits upto small
            len,
        omega arith,
      )
  within-Fits Event.sigint layout sizes small h = tt
  within-Fits Event.sigterm layout sizes small h = tt
  within-Fits (Event.tick now msgs sessions) layout sizes small h = tt
  within-Fits Event.recv_failed layout sizes small h = tt
  within-Fits Event.read_failed layout sizes small h = tt
  within-Fits (Event.received addr bytes written sent) layout sizes small h = tt

  pub within-EventsFit :
      {s : Tunnel t} {w : World t} {s' : Tunnel t} {w' : World t} {f : Flow} (layout : Layout lib)
      (fitting : Fitting lib)
      → Sizes lib
      → mtu ≤ largest_mtu
      → (r : Reach t s w s' w' f) → EventsWithin r
      → EventsFit t layout fitting r
  within-EventsFit layout fitting sizes small here h = tt
  within-EventsFit layout fitting sizes small (next r e p) h =
      (within-EventsFit layout fitting sizes small r h.0, within-Fits e layout sizes small h.1)

module _ (platform : Platform) (m : Machine) (l : SessionLib) (t4 t6 : TrieLib l.PeerId)
    (turn : l.Sessions → Option (List ℕ × SocketAddr) × l.Sessions) (n : IpNetLib) (core : CoreOf l)
    (b : Begun platform m l t4 t6 turn n core) where
  -- Where the layout holds, with a data header of 16 bytes and a kernel header that is no longer, data is
  -- encrypted in place and a message of the protocol is at most 148 bytes (as long as a handshake's
  -- first), the loop never panics, however it was begun and whatever events come, as long as the MTU is
  -- at most 2016 and each read of the device fills the buffer of 2048 bytes with at least the kernel's
  -- header, and with a packet behind it that is no longer than the MTU.
  pub begun_within-ne-panicked :
      (mtu : ℕ) (layout : Layout l) (fitting : Fitting l)
      (w : World (at_start platform m l t4 t6 turn n core b)) (s : LoopState l)
      (w' : World (at_start platform m l t4 t6 turn n core b)) (f : Flow)
      (r : Reach
        (at_start platform m l t4 t6 turn n core b)
        (state_of platform m l t4 t6 turn n core b)
        w
        s
        w'
        f)
      → Sizes l
      → mtu ≤ largest_mtu
      → EventsWithin (at_start platform m l t4 t6 turn n core b) mtu r
      → f ≢ panicked
  begun_within-ne-panicked mtu layout fitting w s w' f r sizes small within =
      begun-ne-panicked platform m l t4 t6 turn n core b layout fitting w s w' f r (
        within-EventsFit (at_start platform m l t4 t6 turn n core b) mtu layout fitting sizes small
          r within)
