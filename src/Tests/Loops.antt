-- ===== src/Tests/Loops.antt =====
-- The theorems on whole runs of smartguard/src/tunnel.rs, at toy sessions in which one message is due.

use smartguard.Prelude.{
  ℕ, zero, suc, ◌+◌, true, false, Option, none, some, List, [], ◌∷◌, ◌++◌, ◌≢◌, ◌↔◌, refl, arith,
  replicate, All,
}
use smartguard.Config.{pos}
use smartguard.Dns.{macos}
use smartguard.Net.{SocketAddr, IpNet}
use smartguard.Peers.{PeerConfig}
use smartguard.Route.Command.{Family, host}
use smartguard.Session.Handle.{read}
use smartguard.Session.Extern.{Delivered}
use smartguard.Session.Total.{Fitting}
use smartguard.Tunnel.Keepalive.{host_route_idx}
use smartguard.Tunnel.Loop.{
  Setting, LoopState, Turns, settled, turned, Event, to_device, goes_on, panicked, here, next,
  on_event,
}
use smartguard.Tunnel.Loop.Device.{IsEmitted, on_event_to_device_iff}
use smartguard.Tunnel.Loop.Clock.{IsHeardWithin, tick-IsHeardWithin}
use smartguard.Tunnel.Start.{CoreOf, Answers, Begun, begin_tunnel, state_of}
use smartguard.Tunnel.Whole.{RestoresTable, begin_tunnel-RestoresTable, at_start}
use smartguard.Tunnel.Bounded.{Sizes, begun_within-ne-panicked}
use smartguard.Tests.Toy.{toy, toy_kernel, toy_nets, empty_table}
use smartguard.Tests.ToySessions.{
  toy_trie, toy_sessions, toy_layout, toy_net, toy_packet, toy_buffer, somewhere,
}

-- As many messages are due as the sessions' number says.
unfoldable pub toy_turn : ℕ → Option (List ℕ × SocketAddr) × ℕ
toy_turn zero = (none, 0)
toy_turn (suc n) = (some (7 ∷ [], somewhere), n)

toy_fitting : Fitting toy_sessions
toy_fitting = record {
  keeps_length = λ s peer plain. refl;
  maintenance_fits = λ s peer plain bytes to e. absurd (cc);
}

abbrev pub toy_core_of : CoreOf toy_sessions
toy_core_of = record {
  Config = ℕ;
  sentinal = 0;
  insert_peer = λ config peer. (config + 1, config + 1);
  new_with = λ config. config;
}

-- A run that has begun with a bypass in interface mode and a peer with a keepalive.
abbrev running : Begun macos toy toy_sessions toy_trie toy_trie toy_turn toy_nets toy_core_of
running = record {
  peer_net = toy_net;
  peers = record { id = 3; endpoint = some somewhere; keepalive = some 25; last_sent = 100 } ∷ [];
  sessions = 1;
  guard = record { added_routes = host "203.0.113.2" Family.v4 none ∷ []; applied_dns = none };
  initiated = [];
  flow = goes_on;
}

abbrev setting : Setting
setting = at_start macos toy toy_sessions toy_trie toy_trie toy_turn toy_nets toy_core_of running

abbrev at_first : LoopState toy_sessions
at_first = state_of macos toy toy_sessions toy_trie toy_trie toy_turn toy_nets toy_core_of running

abbrev long_buffer : List ℕ
long_buffer = toy_buffer ++ replicate 2012 1

-- A tick with one message, a packet from the device, and the signal.
abbrev a_tick : Event toy_sessions
a_tick = Event.tick 130 ((7 ∷ [], somewhere) ∷ []) 0

abbrev a_packet : Event toy_sessions
a_packet = Event.was_read long_buffer 24 false 131

one_message : Turns toy_sessions toy_turn 1 ((7 ∷ [], somewhere) ∷ []) 0
unfolding toy_turn
one_message = turned refl (settled refl)

toy_sizes : Sizes toy_sessions
toy_sizes = record { data_header = refl; kernel_header = omega arith }

begun_within-ne-panicked_example :
    let ticked = on_event setting a_tick at_first empty_table in
    let sent = on_event setting a_packet ticked.0.state ticked.1 in sent.0.flow ≢ panicked
unfolding on_event host_route_idx
begun_within-ne-panicked_example =
    begun_within-ne-panicked macos toy toy_sessions toy_trie toy_trie toy_turn toy_nets toy_core_of
      running 1420 toy_layout toy_fitting empty_table _ _ _
      (next (next here a_tick one_message) a_packet tt) toy_sizes (omega arith)
      ((tt, tt), (refl, omega arith, omega arith))

-- At the tick the peer is due; the packet comes an instant later.
ticks_on : (on_event setting a_tick at_first empty_table).0.flow ≢ panicked
unfolding on_event host_route_idx
ticks_on e = cc

tick-IsHeardWithin_example :
    let ticked = on_event setting a_tick at_first empty_table in
    let sent = on_event setting a_packet ticked.0.state ticked.1 in
    All (IsHeardWithin 130) sent.0.state.peers
unfolding on_event host_route_idx
tick-IsHeardWithin_example =
    tick-IsHeardWithin setting 130 ((7 ∷ [], somewhere) ∷ []) 0 at_first empty_table _ _ _ ticks_on
      (next here a_packet tt) (tt, omega arith)

-- A datagram of the owner of 10.x.
abbrev a_datagram : Event toy_sessions
a_datagram = Event.received somewhere toy_buffer true true

abbrev at_three : LoopState toy_sessions
at_three = record at_first { sessions = 3 }

on_event_to_device_iff_example :
    IsEmitted
      (to_device (0 ∷ 0 ∷ 0 ∷ 2 ∷ toy_packet))
      (on_event setting a_datagram at_three empty_table).0.emitted
    ↔ Delivered toy_sessions toy_trie toy_trie toy_net
        (read 3 toy_packet)
        (0 ∷ 0 ∷ 0 ∷ 2 ∷ toy_packet)
on_event_to_device_iff_example =
    on_event_to_device_iff setting a_datagram at_three empty_table (0 ∷ 0 ∷ 0 ∷ 2 ∷ toy_packet)
      toy_layout

abbrev pub answers : Answers toy_nets
answers = record {
  bound = true;
  created = λ config. some "utun5";
  wrapped = true;
  signals = true;
  now = 100;
}

abbrev pub default_route : PeerConfig toy_nets
default_route = record {
  public_key = [];
  preshared_key = none;
  endpoint = some somewhere;
  allowed_ips = IpNet.v4 ("0.0.0.0/0", 0) ∷ [];
  persistent_keepalive = some 25;
}

abbrev pub addresses : List (IpNet toy_nets)
addresses = IpNet.v4 ("10.0.0.2/32", 32) ∷ IpNet.v6 ("fd00::2/128", 128) ∷ []

begin_tunnel-RestoresTable_example :
    let r =
      begin_tunnel macos toy toy_sessions toy_trie toy_trie toy_turn toy_nets toy_core_of answers 0
        (default_route ∷ [])
        addresses
        (pos 1420)
        []
        empty_table in
    RestoresTable macos toy_kernel toy_sessions toy_trie toy_trie toy_turn toy_nets toy_core_of
      answers 0
      (default_route ∷ [])
      addresses
      (pos 1420)
      []
      empty_table
      r.0
      r.1
begin_tunnel-RestoresTable_example =
    begin_tunnel-RestoresTable macos toy_kernel toy_sessions toy_trie toy_trie toy_turn toy_nets
      toy_core_of answers 0 (default_route ∷ []) addresses (pos 1420) [] empty_table
