-- ===== src/Route/Frame.antt =====
-- smartguard/src/route.rs: what runs of `route` leave alone is left alone by all its functions.
use smartguard.Prelude.{
  String, Bool, true, false, Option, none, some, List, [], ◌∷◌, State, ◌≡◌, refl, ◌∙◌, inl, inr,
  Option-cases, Bool-cases, Option-cases,
}
use smartguard.Machine.{Machine}
use smartguard.Net.{SocketAddr, IpNetLib, IpNet}
use smartguard.Route.Command.{Family, AddedRoute, net, host, passthrough, route_cmd, add_net}
use smartguard.Route.Info.{RouteInfo, get_route_info, current_default_gateway}
use smartguard.Route.Setup.{
  exemptions, halves, same_family, family_of, add_via, add_passthroughs, passthroughs_for,
  install_passthroughs, bypass_for, bypass_endpoint, install_endpoint_bypass, add_nets,
  setup_unconfigured_family, remove_route, cleanup_routes, net_family, prefixes, add_allowed,
  bypass_if, setup_routes,
}
use smartguard.Route.Recheck.{
  same_gateway, install_current, recheck_host, recheck_route, recheck_all, recheck_routes,
}

module _ (m : Machine) {V : Type 0} (view : m.World → V)
    (keeps : (args : List String) (w : m.World) → view (m.route args w).1 ≡ view w) where
  open m use {World}

  -- Running it shows no change.
  abbrev pub Keeps : {A : Type 0} → State World A → Type 0
  Keeps s = (w : World) → view (s w).1 ≡ view w

  add_via-Keeps :
      (family : Family) (kind dest : String) (info : RouteInfo)
      → Keeps (add_via m family kind dest info)
  unfolding add_via route_cmd
  add_via-Keeps family kind dest info w = elim (Option-cases info.gateway) [
    | inr (gw, e) ↦ rw e (keeps _ w)
    | inl none_here ↦ elim (Option-cases info.interface) [
      | inr (iface, e) ↦ rw (none_here, e) (keeps _ w)
      | inl no_interface ↦ rw (none_here, no_interface) refl
    ]
  ]

  add_passthroughs-Keeps :
      (family : Family) (info : RouteInfo) (ps : List String)
      → Keeps (add_passthroughs m family info ps)
  unfolding add_passthroughs
  add_passthroughs-Keeps family info [] w = refl
  add_passthroughs-Keeps family info (p ∷ ps) w =
      add_passthroughs-Keeps family info ps _ ∙ add_via-Keeps family "-net" p info w

  passthroughs_for-Keeps :
      (family : Family) (info : Option RouteInfo) → Keeps (passthroughs_for m family info)
  passthroughs_for-Keeps family none w = refl
  passthroughs_for-Keeps family (some info) w =
      add_passthroughs-Keeps family info (exemptions family) w

  install_passthroughs-Keeps : (family : Family) → Keeps (install_passthroughs m family)
  unfolding install_passthroughs get_route_info
  install_passthroughs-Keeps Family.v4 w = passthroughs_for-Keeps Family.v4 _ _ ∙ keeps _ w
  install_passthroughs-Keeps Family.v6 w = refl

  bypass_for-Keeps :
      (ip : String) (family : Family) (info : Option RouteInfo)
      → Keeps (bypass_for m ip family info)
  bypass_for-Keeps ip family none w = refl
  bypass_for-Keeps ip family (some info) w = add_via-Keeps family "-host" ip info w

  bypass_endpoint-Keeps : (family : Family) (ep : SocketAddr) → Keeps (bypass_endpoint m family ep)
  unfolding bypass_endpoint get_route_info
  bypass_endpoint-Keeps family ep w = elim (Bool-cases (same_family (family_of ep.ip) family)) [
    | inl same ↦ rw same (bypass_for-Keeps _ family _ _ ∙ keeps _ w)
    | inr other ↦ rw other refl
  ]

  install_endpoint_bypass-Keeps :
      (eps : List SocketAddr) (family : Family) → Keeps (install_endpoint_bypass m eps family)
  unfolding install_endpoint_bypass
  install_endpoint_bypass-Keeps [] family w = refl
  install_endpoint_bypass-Keeps (ep ∷ eps) family w =
      install_endpoint_bypass-Keeps eps family _ ∙ bypass_endpoint-Keeps family ep w

  add_nets-Keeps :
      (tun_name : String) (family : Family) (ps : List String)
      → Keeps (add_nets m tun_name family ps)
  unfolding add_nets add_net route_cmd
  add_nets-Keeps tun_name family [] w = refl
  add_nets-Keeps tun_name family (p ∷ ps) w = add_nets-Keeps tun_name family ps _ ∙ keeps _ w

  pub setup_unconfigured_family-Keeps :
      (family : Family) (tun_name : String) (eps : List SocketAddr)
      → Keeps (setup_unconfigured_family m family tun_name eps)
  unfolding setup_unconfigured_family
  setup_unconfigured_family-Keeps family tun_name eps w =
      add_nets-Keeps tun_name family (halves family) _
      ∙ install_passthroughs-Keeps family _
      ∙ install_endpoint_bypass-Keeps eps family w

  remove_route-Keeps : (r : AddedRoute) → Keeps (remove_route m r)
  unfolding remove_route route_cmd
  remove_route-Keeps (net prefix tun_name family) w = keeps _ w
  remove_route-Keeps (host ip family gateway) w = keeps _ w
  remove_route-Keeps (passthrough prefix family) w = keeps _ w

  pub cleanup_routes-Keeps : (rs : List AddedRoute) → Keeps (cleanup_routes m rs)
  unfolding cleanup_routes
  cleanup_routes-Keeps [] w = refl
  cleanup_routes-Keeps (r ∷ rs) w = cleanup_routes-Keeps rs _ ∙ remove_route-Keeps r w

  add_allowed-Keeps :
      (n : IpNetLib) (tun_name : String) (ps : List (IpNet n)) → Keeps (add_allowed n m tun_name ps)
  unfolding add_allowed
  add_allowed-Keeps n tun_name [] w = refl
  add_allowed-Keeps n tun_name (p ∷ ps) w =
      add_allowed-Keeps n tun_name ps _ ∙ add_nets-Keeps tun_name (net_family n p) (prefixes n p) w

  bypass_if-Keeps :
      (n : IpNetLib) (wanted : Bool) (eps : List SocketAddr) (family : Family)
      → Keeps (bypass_if n m wanted eps family)
  bypass_if-Keeps n true eps family w = install_endpoint_bypass-Keeps eps family w
  bypass_if-Keeps n false eps family w = refl

  pub setup_routes-Keeps :
      (n : IpNetLib) (tun_name : String) (nets : List (IpNet n)) (eps : List SocketAddr)
      → Keeps (setup_routes n m tun_name nets eps)
  unfolding setup_routes
  setup_routes-Keeps n tun_name nets eps w =
      add_allowed-Keeps n tun_name nets _
      ∙ bypass_if-Keeps n _ eps Family.v6 _
      ∙ bypass_if-Keeps n _ eps Family.v4 w

  install_current-Keeps :
      (ip : String) (family : Family) (current : Option String)
      → Keeps (install_current m ip family current)
  unfolding install_current route_cmd
  install_current-Keeps ip family none w = refl
  install_current-Keeps ip family (some gw) w = keeps _ w

  recheck_host-Keeps :
      (ip : String) (family : Family) (stored current : Option String)
      → Keeps (recheck_host m ip family stored current)
  unfolding recheck_host route_cmd
  recheck_host-Keeps ip family stored current w = elim (Bool-cases (same_gateway stored current)) [
    | inl same ↦ rw same refl
    | inr moved ↦ rw moved (install_current-Keeps ip family current _ ∙ keeps _ w)
  ]

  recheck_route-Keeps :
      (v4_current v6_current : Option String) (r : AddedRoute)
      → Keeps (recheck_route m v4_current v6_current r)
  unfolding recheck_route
  recheck_route-Keeps v4_current v6_current (net prefix tun_name family) w = refl
  recheck_route-Keeps v4_current v6_current (host ip family stored) w =
      recheck_host-Keeps ip family stored _ w
  recheck_route-Keeps v4_current v6_current (passthrough prefix family) w = refl

  recheck_all-Keeps :
      (v4_current v6_current : Option String) (rs : List AddedRoute)
      → Keeps (recheck_all m v4_current v6_current rs)
  unfolding recheck_all
  recheck_all-Keeps v4_current v6_current [] w = refl
  recheck_all-Keeps v4_current v6_current (r ∷ rs) w =
      recheck_all-Keeps v4_current v6_current rs _ ∙ recheck_route-Keeps v4_current v6_current r w

  pub recheck_routes-Keeps : (rs : List AddedRoute) → Keeps (recheck_routes m rs)
  unfolding recheck_routes current_default_gateway get_route_info
  recheck_routes-Keeps rs w = recheck_all-Keeps _ _ rs _ ∙ keeps _ _ ∙ keeps _ w
