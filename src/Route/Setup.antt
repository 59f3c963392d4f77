-- ===== src/Route/Setup.antt =====
-- smartguard/src/route.rs: the routes installed when the tunnel comes up, and their removal.
use smartguard.Prelude.{
  String, Bool, true, false, ◌||◌, Option, none, some, List, [], ◌∷◌, ◌++◌, State, ◌>>=◌, ◌>>◌,
  pure, if◌then◌else◌, ◌==◌,
}
use smartguard.Net.{IpAddr, SocketAddr, IpNetLib, IpNet}
use smartguard.Net.Display.{display_ip}
use smartguard.Machine.{Machine}
use smartguard.Route.Command.{
  Family, AddedRoute, net, host, passthrough, route_flag, route_cmd, add_net,
}
use smartguard.Route.Info.{RouteInfo, get_route_info}

-- `V4_BLACKHOLE_EXEMPTIONS` and `V6_BLACKHOLE_EXEMPTIONS`, chosen by family.
abbrev pub exemptions : Family → List String
exemptions Family.v4 = "10.0.0.0/8" ∷ "100.64.0.0/10" ∷ "172.16.0.0/12" ∷ "192.168.0.0/16" ∷ []
exemptions Family.v6 = []

-- The two halves that stand for a catch-all.
abbrev pub halves : Family → List String
halves Family.v4 = "0.0.0.0/1" ∷ "128.0.0.0/1" ∷ []
halves Family.v6 = "::/1" ∷ "8000::/1" ∷ []

abbrev pub probe : Family → String
probe Family.v4 = "1.1.1.1"
probe Family.v6 = "2606:4700:4700::1111"

-- `ep.ip()` by family.
abbrev pub family_of : IpAddr → Family
family_of (IpAddr.v4 a b c d) = Family.v4
family_of (IpAddr.v6 bs) = Family.v6

abbrev pub same_family : Family → Family → Bool
same_family Family.v4 Family.v4 = true
same_family Family.v6 Family.v6 = true
same_family _ _ = false

abbrev pub to_list : Option AddedRoute → List AddedRoute
to_list none = []
to_list (some r) = r ∷ []

abbrev pub keep_if : Bool → AddedRoute → List AddedRoute
keep_if true r = r ∷ []
keep_if false r = []

module _ (m : Machine) where
  open m use {World, route}

  -- The choice that both kinds of bypass make: by the gateway, else by the interface, else nothing.
  unfoldable pub add_via : Family → String → String → RouteInfo → State World Bool
  add_via family kind dest info = elim info.gateway [
    | some gw ↦ route_cmd m ("-n" ∷ "add" ∷ route_flag family ∷ kind ∷ dest ∷ "-gateway" ∷ gw ∷ [])
    | none ↦ elim info.interface [
      | some iface ↦
          route_cmd m ("-n" ∷ "add" ∷ route_flag family ∷ kind ∷ dest ∷ "-interface" ∷ iface ∷ [])
      | none ↦ pure false
    ]
  ]

  unfoldable pub add_passthroughs : Family → RouteInfo → List String → State World (List AddedRoute)
  unfolding add_via
  add_passthroughs family info [] = pure []
  add_passthroughs family info (prefix ∷ rest) = do
    added ← add_via family "-net" prefix info
    routes ← add_passthroughs family info rest
    pure (keep_if added (passthrough prefix family) ++ routes)

  abbrev pub passthroughs_for : Family → Option RouteInfo → State World (List AddedRoute)
  passthroughs_for family none = pure []
  passthroughs_for family (some info) = add_passthroughs family info (exemptions family)

  abbrev pub unless_empty :
      List String → State World (List AddedRoute) → State World (List AddedRoute)
  unless_empty [] k = pure []
  unless_empty (x ∷ xs) k = k

  unfoldable pub install_passthroughs : Family → State World (List AddedRoute)
  unfolding add_passthroughs get_route_info
  install_passthroughs family =
      unless_empty (exemptions family)
        (do info ← get_route_info m (probe family) family; passthroughs_for family info)

  abbrev pub bypass_for : String → Family → Option RouteInfo → State World (List AddedRoute)
  bypass_for ip family none = pure []
  bypass_for ip family (some info) = do
    added ← add_via family "-host" ip info
    pure (keep_if added (host ip family info.gateway))

  -- One round of the loop over the peers' endpoints.
  unfoldable pub bypass_endpoint : Family → SocketAddr → State World (List AddedRoute)
  unfolding add_via get_route_info
  bypass_endpoint family ep =
      if same_family (family_of ep.ip) family
      then (do
        info ← get_route_info m (display_ip ep.ip) family
        bypass_for (display_ip ep.ip) family info)
      else pure []

  unfoldable pub install_endpoint_bypass : List SocketAddr → Family → State World (List AddedRoute)
  unfolding bypass_endpoint
  install_endpoint_bypass [] family = pure []
  install_endpoint_bypass (ep ∷ eps) family = do
    here ← bypass_endpoint family ep
    rest ← install_endpoint_bypass eps family
    pure (here ++ rest)

  unfoldable pub add_nets : String → Family → List String → State World (List AddedRoute)
  unfolding add_net
  add_nets tun_name family [] = pure []
  add_nets tun_name family (prefix ∷ rest) = do
    r ← add_net m tun_name prefix family
    routes ← add_nets tun_name family rest
    pure (to_list r ++ routes)

  unfoldable pub setup_unconfigured_family :
      Family → String → List SocketAddr → State World (List AddedRoute)
  unfolding install_endpoint_bypass install_passthroughs add_nets
  setup_unconfigured_family family tun_name peer_endpoints = do
    bypass ← install_endpoint_bypass peer_endpoints family
    passthroughs ← install_passthroughs family
    nets ← add_nets tun_name family (halves family)
    pure (bypass ++ (passthroughs ++ nets))

  -- The removal of one route.
  unfoldable pub remove_route : AddedRoute → State World Bool
  unfolding route_cmd
  remove_route (net prefix tun_name family) =
      route_cmd m
        ("-n" ∷ "delete" ∷ route_flag family ∷ "-net" ∷ prefix ∷ "-interface" ∷ tun_name ∷ [])
  remove_route (host ip family gateway) =
      route_cmd m ("-n" ∷ "delete" ∷ route_flag family ∷ "-host" ∷ ip ∷ [])
  remove_route (passthrough prefix family) =
      route_cmd m ("-n" ∷ "delete" ∷ route_flag family ∷ "-net" ∷ prefix ∷ [])

  unfoldable pub cleanup_routes : List AddedRoute → State World (Unit {0})
  unfolding remove_route
  cleanup_routes [] = pure tt
  cleanup_routes (r ∷ rs) = remove_route r >> cleanup_routes rs

-- `setup_routes`: the loop over the allowed networks, and its two passes.
module _ (n : IpNetLib) where
  open n use {prefix_len4, prefix_len6, display4, display6}

  abbrev pub is_catchall4 : IpNet n → Bool
  is_catchall4 (IpNet.v4 p) = prefix_len4 p == 0
  is_catchall4 (IpNet.v6 p) = false

  abbrev pub is_catchall6 : IpNet n → Bool
  is_catchall6 (IpNet.v4 p) = false
  is_catchall6 (IpNet.v6 p) = prefix_len6 p == 0

  abbrev pub any : (IpNet n → Bool) → List (IpNet n) → Bool
  any test [] = false
  any test (x ∷ xs) = test x || any test xs

  abbrev pub net_family : IpNet n → Family
  net_family (IpNet.v4 p) = Family.v4
  net_family (IpNet.v6 p) = Family.v6

  -- The prefixes that one allowed network asks for.
  unfoldable pub prefixes : IpNet n → List String
  prefixes (IpNet.v4 p) = if prefix_len4 p == 0 then halves Family.v4 else display4 p ∷ []
  prefixes (IpNet.v6 p) = if prefix_len6 p == 0 then halves Family.v6 else display6 p ∷ []

  module _ (m : Machine) where
    open m use {World}

    unfoldable pub add_allowed : String → List (IpNet n) → State World (List AddedRoute)
    unfolding add_nets prefixes
    add_allowed tun_name [] = pure []
    add_allowed tun_name (p ∷ ps) = do
      here ← add_nets m tun_name (net_family p) (prefixes p)
      rest ← add_allowed tun_name ps
      pure (here ++ rest)

    abbrev pub bypass_if : Bool → List SocketAddr → Family → State World (List AddedRoute)
    bypass_if true peer_endpoints family = install_endpoint_bypass m peer_endpoints family
    bypass_if false peer_endpoints family = pure []

    unfoldable pub setup_routes :
        String → List (IpNet n) → List SocketAddr → State World (List AddedRoute)
    unfolding install_endpoint_bypass add_allowed
    setup_routes tun_name allowed_ips peer_endpoints = do
      bypass4 ← bypass_if (any is_catchall4 allowed_ips) peer_endpoints Family.v4
      bypass6 ← bypass_if (any is_catchall6 allowed_ips) peer_endpoints Family.v6
      nets ← add_allowed tun_name allowed_ips
      pure (bypass4 ++ (bypass6 ++ nets))
