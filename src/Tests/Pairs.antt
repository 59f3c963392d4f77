-- ===== src/Tests/Pairs.antt =====
-- Two ends whose sessions take the header and the tag away again, and the theorem on a packet that goes
-- from one event loop to another.
use smartguard.Prelude.{
  ℕ, ◌+◌, ◌-◌, ◌≤◌, true, none, some, List, [], ◌∷◌, ◌++◌, ◌≡◌, ◌↔◌, refl, arith, leb,
  if◌then◌else◌, length, take, drop, replicate, returns, Bool-cases, inl, inr, leb→le, length-drop,
  length-take, ap, ◌∙◌,
}
use smartguard.Dns.{macos}
use smartguard.Net.{IpAddr}
use smartguard.Session.Across.{Paired, Passed}
use smartguard.Session.Buffer.{slice-eq, leb_of_le}
use smartguard.Session.Extern.{Layout}
use smartguard.Session.Handle.{Message, noop, read, write, payload, SessionLib, slice}
use smartguard.Session.Packet.{ip_src, ip_dst}
use smartguard.Tests.Toy.{toy, empty_table}
use smartguard.Tests.ToySessions.{
  toy_trie, toy_sessions, somewhere, toy_net, toy_buffer, toy_packet,
}
use smartguard.Tunnel.Loop.{Setting, LoopState, Event, to_device, datagram, on_event}
use smartguard.Tunnel.Loop.Across.{on_event-across}
use smartguard.Tunnel.Loop.Device.{IsEmitted}

abbrev opened : ℕ → List ℕ → Message ℕ
opened s buf = if leb 32 (length buf) then read s (take (length buf - 32) (drop 16 buf)) else noop

abbrev ends : SessionLib
ends = record {
  PeerId = ℕ;
  peer_eq = toy_sessions.peer_eq;
  Sessions = ℕ;
  Metadata = Unit {0};
  recv_message = λ s addr buf. (opened s buf, buf, s);
  send_message = λ s peer plain. (payload somewhere tt, plain, s);
  frame_in_place = λ metadata area. area;
  get_header_for = toy_sessions.get_header_for;
  data_header_len = 16;
  kernel_header_len = 4;
  tun_buf_start = 12;
}

opened_in_place :
    (s : ℕ) (buf : List ℕ) (peer : ℕ) (bytes : List ℕ)
    → opened s buf ≡ read peer bytes
    → slice buf 16 (16 + length bytes) ≡ returns bytes
opened_in_place s buf peer bytes e = elim (Bool-cases (leb 32 (length buf))) [
  | inr short ↦ absurd (cc (rw short at e))
  | inl long ↦ placed (bytes_of (rw long at e)) (leb→le 32 (length buf) long)
]
  where
    bytes_of :
        ◌≡◌ {A = Message ℕ} (read s (take (length buf - 32) (drop 16 buf))) (read peer bytes)
        → take (length buf - 32) (drop 16 buf) ≡ bytes
    bytes_of e = cc

    placed :
        take (length buf - 32) (drop 16 buf) ≡ bytes
        → 32 ≤ length buf
        → slice buf 16 (16 + length bytes) ≡ returns bytes
    placed same long =
        let count : length bytes ≡ length buf - 32 = omega (
          arith,
          ap length same,
          length-take (length buf - 32) (drop 16 buf),
          length-drop 16 buf,
        ) in
        slice-eq buf 16 (16 + length bytes) (omega arith) (omega arith)
        ∙ ap returns (ap (λ n. take n (drop 16 buf)) (omega arith) ∙ same)

not_written :
    (s : ℕ) (buf bytes : List ℕ)
    → opened s buf ≡ write bytes
    → slice buf 0 (length bytes) ≡ returns bytes
not_written s buf bytes e = elim (Bool-cases (leb 32 (length buf))) [
  | inl long ↦ absurd (cc (rw long at e))
  | inr short ↦ absurd (cc (rw short at e))
]

ends-Layout : Layout ends
ends-Layout = record {
  header_fits = refl;
  read_in_place = λ s addr buf peer bytes e. opened_in_place s buf peer bytes e;
  write_in_place = λ s addr buf bytes e. not_written s buf bytes e;
}

opened_again :
    (s : ℕ) (plain area : List ℕ)
    → length area ≡ 16 + length plain + 16
    → take (length plain) (drop 16 area) ≡ plain
    → opened s area ≡ read s plain
opened_again s plain area long content =
    rw (leb_of_le 32 (length area) (omega arith))
      (ap (read s) (ap (λ n. take n (drop 16 area)) (omega arith) ∙ content))

ends-Paired : (a b peer_b : ℕ) → Paired ends a b b peer_b somewhere
ends-Paired a b peer_b = record {
  keeps_length = λ plain ep metadata e. refl;
  opens = λ plain area ep metadata e long content. opened_again b plain area long content;
}

abbrev pair_setting : Setting
pair_setting = record {
  platform = macos;
  machine = toy;
  lib = ends;
  t4 = toy_trie;
  t6 = toy_trie;
  peer_net = toy_net;
  pairs = (somewhere, 0) ∷ [];
  host_idx = none;
  turn = λ s. (none, s);
}

abbrev in_state : ℕ → LoopState ends
in_state s = record {
  peers = [];
  sessions = s;
  guard = record { added_routes = []; applied_dns = none };
}

abbrev tun_buffer : List ℕ
tun_buffer = toy_buffer ++ replicate 28 1

toy_dst : ip_dst toy_packet ≡ some (IpAddr.v4 10 0 0 1)
unfolding ip_dst
toy_dst = refl

toy_src : ip_src toy_packet ≡ some (IpAddr.v4 10 0 0 2)
unfolding ip_src
toy_src = refl

on_event-across_example :
    (frame : List ℕ) × ((on_event pair_setting
        (Event.was_read tun_buffer 24 true 5)
        (in_state 0)
        empty_table).0.emitted
      ≡ datagram frame somewhere ∷ [])
    × ((out : List ℕ)
        → IsEmitted
            (to_device out)
            (on_event pair_setting
              (Event.received somewhere frame true true)
              (in_state 3)
              empty_table).0.emitted
          ↔ Passed ends toy_trie toy_trie toy_net 3
              (IpAddr.v4 10 0 0 2)
              (toy_packet ++ replicate 12 0)
              out)
on_event-across_example =
    on_event-across pair_setting macos toy toy_net ((somewhere, 0) ∷ []) none (λ s. (none, s))
      (in_state 0) empty_table (in_state 3) empty_table 3 somewhere tun_buffer 24 5 true true true
      (IpAddr.v4 10 0 0 2) (IpAddr.v4 10 0 0 1) somewhere tt ends-Layout (ends-Paired 0 3 _)
      (omega arith) (omega arith) toy_dst (omega arith) refl toy_src
