-- ===== src/Route/Installs.antt =====
-- The installing functions of smartguard/src/route.rs, one after the other, enter into the table
-- exactly the routes that they return, each with its target.
use smartguard.Prelude.{
  String, Bool, true, false, Option, none, some, List, [], ◌∷◌, ◌≡◌, refl, inl, inr, State,
  Bool-cases, Option-cases,
}
use smartguard.Net.{SocketAddr, IpNetLib, IpNet}
use smartguard.Net.Display.{display_ip}
use smartguard.Machine.{Machine}
use smartguard.Route.Command.{Family, AddedRoute, net, host, passthrough, add_net, when_added}
use smartguard.Route.Info.{RouteInfo, get_route_info}
use smartguard.Route.Setup.{
  add_via, add_passthroughs, passthroughs_for, exemptions, install_passthroughs, probe, bypass_for,
  bypass_endpoint, same_family, family_of, install_endpoint_bypass, add_nets, halves,
  setup_unconfigured_family, add_allowed, net_family, prefixes, bypass_if, is_catchall4,
  is_catchall6, any, setup_routes, keep_if, to_list,
}
use smartguard.Route.Kernel.{Target, Kernel, key_of, add_args, after, ran}
use smartguard.Route.Installed.{
  IsTargetOf, Installed, Installed-nil, Installed-append, Installed-one, Installed-none,
}

module _ {m : Machine} (k : Kernel m) where
  open m use {World}

  -- What a command that returns routes has to satisfy.
  abbrev pub Installs : State World (List AddedRoute) → Type 0
  Installs c = (w : World) → Installed k w (c w).1 (c w).0

  -- One `add` of a route under its own key.
  add-Installed :
      (w : World) (r : AddedRoute) (t : Target)
      → IsTargetOf r t
      → Installed k w
          (after m (add_args (key_of r) t) w)
          (keep_if (ran m (add_args (key_of r) t) w) r)
  add-Installed w r t is = elim (Bool-cases (ran m (add_args (key_of r) t) w)) [
    | inl done ↦ rw done (Installed-one k w r t done is)
    | inr failed ↦ rw failed (Installed-none k w (key_of r) t failed)
  ]

  add_net-Installed :
      (tun_name prefix : String) (family : Family) (w : World)
      → Installed k w
          (add_net m tun_name prefix family w).1
          (to_list (add_net m tun_name prefix family w).0)
  unfolding add_net key_of
  add_net-Installed tun_name prefix family w =
      rw (to_list-when_added (ran m (add_args (key_of r) t) w)) (add-Installed w r t refl)
    where
      r : AddedRoute
      r = net prefix tun_name family

      t : Target
      t = record { via = "-interface"; name = tun_name }

      to_list-when_added : (b : Bool) → to_list (when_added m b r) ≡ keep_if b r
      to_list-when_added true = refl
      to_list-when_added false = refl

  add_nets-Installs :
      (tun_name : String) (family : Family) (ps : List String)
      → Installs (add_nets m tun_name family ps)
  unfolding add_nets
  add_nets-Installs tun_name family [] w = Installed-nil k (λ j. refl)
  add_nets-Installs tun_name family (p ∷ ps) w =
      Installed-append k w _ _ _ _ (add_net-Installed tun_name p family w)
        (add_nets-Installs tun_name family ps _)

  -- A route that is no tunnel route, added by the gateway or, where there is none, by the interface.
  add_via-Installed :
      (r : AddedRoute) (info : RouteInfo) (w : World)
      → ((gw : String)
          → info.gateway ≡ some gw
          → IsTargetOf r (record { via = "-gateway"; name = gw }))
      → ((iface : String)
          → info.gateway ≡ none
          → IsTargetOf r (record { via = "-interface"; name = iface }))
      → Installed k w
          (add_via m (key_of r).family (key_of r).kind (key_of r).dest info w).1
          (keep_if (add_via m (key_of r).family (key_of r).kind (key_of r).dest info w).0 r)
  unfolding add_via
  add_via-Installed r info w by_gateway by_interface = elim (Option-cases info.gateway) [
    | inr (gw, e) ↦
        rw (e, add_via)
          (add-Installed w r (record { via = "-gateway"; name = gw }) (by_gateway gw e))
    | inl e ↦ elim (Option-cases info.interface) [
      | inr (iface, e') ↦
          rw (e, add_via, e')
            (add-Installed w r (record { via = "-interface"; name = iface }) (by_interface iface e))
      | inl e' ↦ rw (e, add_via, e') (Installed-nil k (λ j. refl))
    ]
  ]

  add_passthroughs-Installs :
      (family : Family) (info : RouteInfo) (ps : List String)
      → Installs (add_passthroughs m family info ps)
  unfolding add_passthroughs key_of
  add_passthroughs-Installs family info [] w = Installed-nil k (λ j. refl)
  add_passthroughs-Installs family info (p ∷ ps) w =
      Installed-append k w _ _ _ _
        (add_via-Installed (passthrough p family) info w (λ gw e. inl (gw, refl))
          (λ iface e. inr (iface, refl)))
        (add_passthroughs-Installs family info ps _)

  -- A query goes before a command and changes nothing.
  get-Installs :
      (ip : String) (family : Family) (next : Option RouteInfo → State World (List AddedRoute))
      → ((info : Option RouteInfo) → Installs (next info))
      → (w : World)
      → let got = get_route_info m ip family w in
        Installed k w (next got.0 got.1).1 (next got.0 got.1).0
  unfolding get_route_info
  get-Installs ip family next h w =
      Installed-append k w _ _ [] _ (Installed-nil k (k.get_entry family ip w)) (h _ _)

  pub install_passthroughs-Installs : (family : Family) → Installs (install_passthroughs m family)
  unfolding install_passthroughs
  install_passthroughs-Installs Family.v6 w = Installed-nil k (λ j. refl)
  install_passthroughs-Installs Family.v4 w =
      get-Installs (probe Family.v4) Family.v4 (passthroughs_for m Family.v4) next w
    where
      next : (info : Option RouteInfo) → Installs (passthroughs_for m Family.v4 info)
      next none v = Installed-nil k (λ j. refl)
      next (some info) v = add_passthroughs-Installs Family.v4 info (exemptions Family.v4) v

  bypass_endpoint-Installs :
      (family : Family) (ep : SocketAddr) → Installs (bypass_endpoint m family ep)
  unfolding bypass_endpoint key_of
  bypass_endpoint-Installs family ep w = elim (Bool-cases (same_family (family_of ep.ip) family)) [
    | inl same ↦
        rw same
          (get-Installs (display_ip ep.ip) family (bypass_for m (display_ip ep.ip) family) next w)
    | inr other ↦ rw other (Installed-nil k (λ j. refl))
  ]
    where
      next : (info : Option RouteInfo) → Installs (bypass_for m (display_ip ep.ip) family info)
      next none v = Installed-nil k (λ j. refl)
      next (some info) v =
          add_via-Installed (host (display_ip ep.ip) family info.gateway) info v
            (λ gw e. rw (e, IsTargetOf) refl) (λ iface e. rw (e, IsTargetOf) (iface, refl))

  pub install_endpoint_bypass-Installs :
      (eps : List SocketAddr) (family : Family) → Installs (install_endpoint_bypass m eps family)
  unfolding install_endpoint_bypass
  install_endpoint_bypass-Installs [] family w = Installed-nil k (λ j. refl)
  install_endpoint_bypass-Installs (ep ∷ eps) family w =
      Installed-append k w _ _ _ _ (bypass_endpoint-Installs family ep w)
        (install_endpoint_bypass-Installs eps family _)

  pub setup_unconfigured_family-Installs :
      (family : Family) (tun_name : String) (eps : List SocketAddr)
      → Installs (setup_unconfigured_family m family tun_name eps)
  unfolding setup_unconfigured_family
  setup_unconfigured_family-Installs family tun_name eps w =
      Installed-append k w _ _ _ _ (install_endpoint_bypass-Installs eps family w) (
        Installed-append k _ _ _ _ _ (install_passthroughs-Installs family _)
          (add_nets-Installs tun_name family (halves family) _))

  module _ (n : IpNetLib) where
    add_allowed-Installs :
        (tun_name : String) (ps : List (IpNet n)) → Installs (add_allowed n m tun_name ps)
    unfolding add_allowed
    add_allowed-Installs tun_name [] w = Installed-nil k (λ j. refl)
    add_allowed-Installs tun_name (p ∷ ps) w =
        Installed-append k w _ _ _ _ (add_nets-Installs tun_name (net_family n p) (prefixes n p) w)
          (add_allowed-Installs tun_name ps _)

    bypass_if-Installs :
        (b : Bool) (eps : List SocketAddr) (family : Family) → Installs (bypass_if n m b eps family)
    bypass_if-Installs true eps family w = install_endpoint_bypass-Installs eps family w
    bypass_if-Installs false eps family w = Installed-nil k (λ j. refl)

    -- Where `route` does what it documents, and whatever it answers, every route that
    -- `setup_routes` returns stands in the table afterwards: a tunnel route by the interface, a
    -- bypass by the gateway that it is recorded with, or by an interface if it has none, a pass-
    -- through by a gateway or an interface. They stand under keys that were free, and no other
    -- entry is changed.
    pub setup_routes-Installs :
        (tun_name : String) (allowed_ips : List (IpNet n)) (eps : List SocketAddr)
        → Installs (setup_routes n m tun_name allowed_ips eps)
    unfolding setup_routes
    setup_routes-Installs tun_name allowed_ips eps w =
        Installed-append k w _ _ _ _
          (bypass_if-Installs (any n (is_catchall4 n) allowed_ips) eps Family.v4 w)
          (Installed-append k _ _ _ _ _
            (bypass_if-Installs (any n (is_catchall6 n) allowed_ips) eps Family.v6 _)
            (add_allowed-Installs tun_name allowed_ips _))
