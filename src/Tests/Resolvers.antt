-- ===== src/Tests/Resolvers.antt =====
-- The theorems on the resolver of smartguard/src/dns.rs and tunnel.rs, at a machine that keeps what
-- `resolvconf` was given under each tag, and at one with a `scutil` that reads the scripts of one
-- interface.
use smartguard.Prelude.{
  String, Bool, true, false, Option, none, some, List, [], ◌∷◌, ◌++◌, ◌<>◌, ◌≡◌, refl, str_eq,
  if◌then◌else◌, State,
}
use smartguard.Config.{pos}
use smartguard.Dns.{macos}
use smartguard.Machine.{Output, Machine, Piped, spawn_failed, exited}
use smartguard.Net.{IpAddr}
use smartguard.Net.Display.{display_ip}
use smartguard.Tunnel.Start.{begin_tunnel}
use smartguard.Tunnel.Resolver.Programs.{Resolver, Scutil, on_macos, unlines, dictionary, service}
use smartguard.Tunnel.Resolver.Restored.{RestoresResolver, begin_tunnel-RestoresKeys}
use smartguard.Tests.Toy.{toy_nets}
use smartguard.Tests.ToySessions.{toy_trie, toy_sessions}
use smartguard.Tests.Loops.{toy_turn, toy_core_of, answers, default_route, addresses}

abbrev Tags : Type 0
Tags = String → Option String

abbrev set_tag : String → Option String → Tags → Tags
set_tag tag text w j = if str_eq tag j then text else w j

abbrev keep : List String → String → State Tags Piped
keep [] input w = (spawn_failed, w)
keep (a ∷ []) input w = (spawn_failed, w)
keep (a ∷ tag ∷ args) input w = (exited true, set_tag tag (some input) w)

abbrev forget : List String → State Tags (Option Bool)
forget [] w = (none, w)
forget (a ∷ []) w = (none, w)
forget (a ∷ tag ∷ args) w = (some true, set_tag tag none w)

abbrev nobody : State Tags (Option Output)
nobody w = (none, w)

abbrev with_resolvconf : Machine
with_resolvconf = record {
  World = Tags;
  route = λ args. nobody;
  pipe = λ program args input. keep args input;
  status = λ program args w. if str_eq program "resolvconf" then forget args w else (some true, w);
}

abbrev servers : List IpAddr
servers = IpAddr.v4 9 9 9 9 ∷ []

abbrev before : Tags
before j = if str_eq j "eth0" then some "nameserver 192.168.1.1\n" else none

abbrev set_text : String
set_text =
    unlines
      ("open" ∷ "d.init" ∷ (dictionary servers ++ (("set " <> service "utun5") ∷ "quit" ∷ [])))

abbrev remove_text : String
remove_text = unlines ("open" ∷ ("remove " <> service "utun5") ∷ "quit" ∷ [])

abbrev perform : String → State Tags Piped
perform script w =
    if str_eq script set_text
    then (exited true, set_tag (service "utun5") (some (unlines (dictionary servers))) w)
    else if str_eq script remove_text
    then (exited true, set_tag (service "utun5") none w)
    else (exited false, w)

abbrev with_scutil : Machine
with_scutil = record {
  World = Tags;
  route = λ args. nobody;
  pipe = λ program args input. perform input;
  status = λ program args w. (some true, w);
}

keys : Scutil with_scutil
unfolding display_ip
keys = record {
  Readable = λ tun_name ips. (tun_name ≡ "utun5") × (ips ≡ servers);
  stored = λ w. w;
  route_keeps = λ args w j. refl;
  ifconfig_keeps = λ args w j. refl;
  set = λ tun_name ips w j (same, these). rw (same, these) refl;
  removed = λ tun_name ips w j (same, these) done. rw same refl;
}

created_known :
    (tun_name : String)
    → ◌≡◌ {A = Option String} (some "utun5") (some tun_name)
    → keys.Readable tun_name servers
unfolding keys
created_known tun_name e = (cc, refl)

begin_tunnel-RestoresKeys_example :
    let s =
      begin_tunnel macos with_scutil toy_sessions toy_trie toy_trie toy_turn toy_nets toy_core_of
        answers 0
        (default_route ∷ [])
        addresses
        (pos 1420)
        servers
        before in
    RestoresResolver
      (on_macos keys)
      toy_sessions
      toy_trie
      toy_trie
      toy_turn
      toy_nets
      toy_core_of
      answers
      0
      (default_route ∷ [])
      addresses
      (pos 1420)
      servers
      before
      s.0
      s.1
begin_tunnel-RestoresKeys_example =
    begin_tunnel-RestoresKeys toy_sessions toy_trie toy_trie toy_turn toy_nets toy_core_of answers 0
      (default_route ∷ []) addresses (pos 1420) servers keys before created_known
