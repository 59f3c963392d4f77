-- ===== src/Tests/Runs.antt =====
-- The theorems on smartguard/src/route.rs and the start in tunnel.rs at a catch-all network and one
-- peer with an endpoint.
use smartguard.Prelude.{
  List, none, some, [], ◌∷◌, ◌≡◌, ◌⊎◌, inl, inr, refl, lines, strip_prefix, trim, is_whitespace,
}
use smartguard.Net.{IpAddr, SocketAddr, IpNet}
use smartguard.Net.Display.{display_ip}
use smartguard.Route.Command.{Family, net, host, route_flag, route_cmd}
use smartguard.Route.Info.{parse_info}
use smartguard.Route.Setup.{setup_routes, cleanup_routes}
use smartguard.Route.Recheck.{recheck_routes}
use smartguard.Route.Kernel.{RouteKey, key_eq, key_of}
use smartguard.Route.Adds.{Adds}
use smartguard.Route.Installed.{Installed}
use smartguard.Route.Installs.{setup_routes-Installs}
use smartguard.Route.RecheckKeeps.{recheck_routes-Adds}
use smartguard.Route.Lifecycle.{Refused, cleanup_routes-entry}
use smartguard.Dns.{linux}
use smartguard.Peers.{PeerConfig}
use smartguard.Tunnel.Guard.{bring_up}
use smartguard.Tunnel.Restore.{bring_up-Installed}
use smartguard.Tests.Stuck.{stuck, stuck_kernel}
use smartguard.Tests.Toy.{empty_table, toy, toy_route, toy_kernel, toy_nets}

abbrev server : SocketAddr
server = record { ip = IpAddr.v4 203 0 113 2; port = 51820 }

abbrev catch_all : IpNet toy_nets
catch_all = IpNet.v4 ("0.0.0.0/0", 0)

abbrev half : RouteKey
half = record { family = Family.v4; kind = "-net"; dest = "128.0.0.0/1" }

-- The routes that `setup_routes` installs there: the bypass first, then the halves.
setup_test :
    (setup_routes toy_nets toy "utun5" (catch_all ∷ []) (server ∷ []) empty_table).0
    ≡ host "203.0.113.2" Family.v4 (some "192.168.1.1")
      ∷ net "0.0.0.0/1" "utun5" Family.v4
      ∷ net "128.0.0.0/1" "utun5" Family.v4
      ∷ []
unfolding setup_routes toy_route key_eq display_ip parse_info lines strip_prefix trim is_whitespace
    route_flag
setup_test = refl

-- The table in between and after the clean-up.
table_test :
    ((setup_routes toy_nets toy "utun5" (catch_all ∷ []) (server ∷ []) empty_table).1 half
      ≡ some (record { via = "-interface"; name = "utun5" }))
    × ((cleanup_routes toy
            (setup_routes toy_nets toy "utun5" (catch_all ∷ []) (server ∷ []) empty_table).0
            (setup_routes toy_nets toy "utun5" (catch_all ∷ []) (server ∷ []) empty_table).1).1
          half
        ≡ none)
unfolding setup_routes cleanup_routes toy_route key_eq display_ip parse_info lines strip_prefix trim
    is_whitespace route_flag
table_test = (refl, refl)

setup_routes-Installs_example :
    Installed toy_kernel empty_table
      (setup_routes toy_nets toy "utun5" (catch_all ∷ []) (server ∷ []) empty_table).1
      (setup_routes toy_nets toy "utun5" (catch_all ∷ []) (server ∷ []) empty_table).0
setup_routes-Installs_example =
    setup_routes-Installs toy_kernel toy_nets "utun5" (catch_all ∷ []) (server ∷ []) empty_table

-- One peer, an interface with an IPv4 address only, and one name server.
abbrev peer : PeerConfig toy_nets
peer = record {
  public_key = [];
  preshared_key = none;
  endpoint = some server;
  allowed_ips = catch_all ∷ [];
  persistent_keepalive = some 25;
}

abbrev own : List (IpNet toy_nets)
own = IpNet.v4 ("10.0.0.1/24", 24) ∷ []

bring_up-Installed_example :
    let up =
      bring_up linux toy toy_nets "utun5" (peer ∷ []) own (IpAddr.v4 1 1 1 1 ∷ []) empty_table in
    Installed toy_kernel empty_table up.1 up.0.added_routes
bring_up-Installed_example =
    bring_up-Installed toy_kernel linux toy_nets "utun5" (peer ∷ []) own (IpAddr.v4 1 1 1 1 ∷ [])
      empty_table

-- The IPv6 halves are there, for which the interface has no address.
brought_up_test :
    let up =
      bring_up linux toy toy_nets "utun5" (peer ∷ []) own (IpAddr.v4 1 1 1 1 ∷ []) empty_table in
    up.1 (record { family = Family.v6; kind = "-net"; dest = "::/1" })
    ≡ some (record { via = "-interface"; name = "utun5" })
unfolding bring_up toy_route key_eq display_ip parse_info lines strip_prefix trim is_whitespace
    route_flag
brought_up_test = refl

recheck_routes-Adds_example :
    Adds toy_kernel empty_table
      (recheck_routes toy
        (setup_routes toy_nets toy "utun5" (catch_all ∷ []) (server ∷ []) empty_table).0
        (setup_routes toy_nets toy "utun5" (catch_all ∷ []) (server ∷ []) empty_table).1).1
      (recheck_routes toy
        (setup_routes toy_nets toy "utun5" (catch_all ∷ []) (server ∷ []) empty_table).0
        (setup_routes toy_nets toy "utun5" (catch_all ∷ []) (server ∷ []) empty_table).1).0
recheck_routes-Adds_example =
    recheck_routes-Adds toy_kernel empty_table
      (setup_routes toy_nets toy "utun5" (catch_all ∷ []) (server ∷ []) empty_table).1
      (setup_routes toy_nets toy "utun5" (catch_all ∷ []) (server ∷ []) empty_table).0
      setup_routes-Installs_example.adds

cleanup_routes-entry_example :
    ((cleanup_routes toy
          (setup_routes toy_nets toy "utun5" (catch_all ∷ []) (server ∷ []) empty_table).0
          (setup_routes toy_nets toy "utun5" (catch_all ∷ []) (server ∷ []) empty_table).1).1
        half
      ≡ none)
    ⊎ (Refused toy_kernel
          (setup_routes toy_nets toy "utun5" (catch_all ∷ []) (server ∷ []) empty_table).0
          (setup_routes toy_nets toy "utun5" (catch_all ∷ []) (server ∷ []) empty_table).1
          half
        × ((cleanup_routes toy
                (setup_routes toy_nets toy "utun5" (catch_all ∷ []) (server ∷ []) empty_table).0
                (setup_routes toy_nets toy "utun5" (catch_all ∷ []) (server ∷ []) empty_table).1).1
              half
            ≡ (setup_routes toy_nets toy "utun5" (catch_all ∷ []) (server ∷ []) empty_table).1
                half))
cleanup_routes-entry_example =
    cleanup_routes-entry toy_kernel empty_table
      (setup_routes toy_nets toy "utun5" (catch_all ∷ []) (server ∷ []) empty_table).1
      (setup_routes toy_nets toy "utun5" (catch_all ∷ []) (server ∷ []) empty_table).0
      setup_routes-Installs_example.adds half

-- Where no `route delete` can be started, the clean-up is refused and the table keeps the route.
stuck_test :
    let up = setup_routes toy_nets stuck "utun5" (catch_all ∷ []) (server ∷ []) empty_table in
    Refused stuck_kernel up.0 up.1 half
    × ((cleanup_routes stuck up.0 up.1).1 half
        ≡ some (record { via = "-interface"; name = "utun5" }))
unfolding setup_routes cleanup_routes toy_route key_eq key_of display_ip parse_info lines
    strip_prefix trim is_whitespace route_flag route_cmd stuck_kernel
stuck_test = (inr (inr (inl (refl, refl, refl))), refl)
