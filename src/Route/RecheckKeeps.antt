-- ===== src/Route/RecheckKeeps.antt =====
-- smartguard/src/route.rs: `recheck_routes` moves endpoint bypasses only, so that the account of
-- what was added to the table stays true.
use smartguard.Prelude.{
  String, false, Option, none, some, List, [], ◌∷◌, ◌≡◌, refl, inl, inr, arith, Bool-cases, All,
  ◌∙◌, sym,
}
use smartguard.Machine.{Machine}
use smartguard.Route.Command.{Family, AddedRoute, net, host, passthrough}
use smartguard.Route.Recheck.{
  same_gateway, recheck_route, recheck_host, install_current, recheck_all, recheck_routes,
}
use smartguard.Route.Info.{current_default_gateway}
use smartguard.Route.Kernel.{
  RouteKey, key_eq, key_eq_host_net, Kernel, key_of, has_key, delete_args, after,
}
use smartguard.Route.Adds.{Adds, Adds-same, NetEntry}

module _ {m : Machine} (k : Kernel m) where
  open m use {World}
  open k use {entry}

  abbrev host_key : String → Family → RouteKey
  host_key ip family = record { family = family; kind = "-host"; dest = ip }

  install_current-entry :
      (ip : String) (family : Family) (current : Option String) (w : World) (j : RouteKey)
      → key_eq (host_key ip family) j ≡ false
      → entry (install_current m ip family current w).1 j ≡ entry w j
  unfolding install_current
  install_current-entry ip family none w j h = refl
  install_current-entry ip family (some gw) w j h =
      ground (arith, k.add_entry (host_key ip family) (record { via = "-gateway"; name = gw }) w j)

  recheck_host-entry :
      (ip : String) (family : Family) (stored current : Option String) (w : World) (j : RouteKey)
      → key_eq (host_key ip family) j ≡ false
      → entry (recheck_host m ip family stored current w).1 j ≡ entry w j
  unfolding recheck_host
  recheck_host-entry ip family stored current w j h =
      elim (Bool-cases (same_gateway stored current)) [
        | inl same ↦ rw same refl
        | inr moved ↦ rw moved (
            install_current-entry ip family current (after m (delete_args (host_key ip family)) w) j
              h
            ∙ ground (arith, k.delete_entry (host_key ip family) w j))
      ]

  module _ (v4_current v6_current : Option String) where
    recheck_route-key_of :
        (r : AddedRoute) (w : World)
        → key_of (recheck_route m v4_current v6_current r w).0 ≡ key_of r
    unfolding recheck_route key_of
    recheck_route-key_of (net prefix tun_name family) w = refl
    recheck_route-key_of (host ip family gateway) w = refl
    recheck_route-key_of (passthrough prefix family) w = refl

    recheck_route-entry :
        (r : AddedRoute) (w : World) (j : RouteKey)
        → key_eq (key_of r) j ≡ false
        → entry (recheck_route m v4_current v6_current r w).1 j ≡ entry w j
    unfolding recheck_route key_of
    recheck_route-entry (net prefix tun_name family) w j h = refl
    recheck_route-entry (host ip family stored) w j h = recheck_host-entry ip family stored _ w j h
    recheck_route-entry (passthrough prefix family) w j h = refl

    -- No entry for a network changes: a host's key is of the other kind.
    recheck_route-net :
        (r : AddedRoute) (w : World) (j : RouteKey)
        → j.kind ≡ "-net"
        → entry (recheck_route m v4_current v6_current r w).1 j ≡ entry w j
    unfolding recheck_route
    recheck_route-net (net prefix tun_name family) w j h = refl
    recheck_route-net (host ip family stored) w j h =
        recheck_host-entry ip family stored _ w j (key_eq_host_net ip family j h)
    recheck_route-net (passthrough prefix family) w j h = refl

    recheck_all-has_key :
        (rs : List AddedRoute) (w : World) (j : RouteKey)
        → has_key j (recheck_all m v4_current v6_current rs w).0 ≡ has_key j rs
    unfolding recheck_all has_key
    recheck_all-has_key [] w j = refl
    recheck_all-has_key (r ∷ rs) w j = cc (
      recheck_route-key_of r w,
      recheck_all-has_key rs (recheck_route m v4_current v6_current r w).1 j,
    )

    recheck_all-entry :
        (rs : List AddedRoute) (w : World) (j : RouteKey)
        → has_key j rs ≡ false
        → entry (recheck_all m v4_current v6_current rs w).1 j ≡ entry w j
    unfolding recheck_all has_key
    recheck_all-entry [] w j h = refl
    recheck_all-entry (r ∷ rs) w j h =
        recheck_all-entry rs _ j (ground arith) ∙ recheck_route-entry r w j (ground arith)

    recheck_all-net :
        (rs : List AddedRoute) (w : World) (j : RouteKey)
        → j.kind ≡ "-net"
        → entry (recheck_all m v4_current v6_current rs w).1 j ≡ entry w j
    unfolding recheck_all
    recheck_all-net [] w j h = refl
    recheck_all-net (r ∷ rs) w j h = recheck_all-net rs _ j h ∙ recheck_route-net r w j h

    recheck_route-NetEntry :
        (r : AddedRoute) (u v w : World)
        → ((j : RouteKey) → j.kind ≡ "-net" → entry w j ≡ entry v j)
        → NetEntry k v r
        → NetEntry k w (recheck_route m v4_current v6_current r u).0
    unfolding recheck_route
    recheck_route-NetEntry (net prefix tun_name family) u v w same h = same _ refl ∙ h
    recheck_route-NetEntry (host ip family stored) u v w same h = tt
    recheck_route-NetEntry (passthrough prefix family) u v w same h = tt

    recheck_all-NetEntry :
        (rs : List AddedRoute) (u v w : World)
        → ((j : RouteKey) → j.kind ≡ "-net" → entry w j ≡ entry v j)
        → All (NetEntry k v) rs
        → All (NetEntry k w) (recheck_all m v4_current v6_current rs u).0
    unfolding recheck_all
    recheck_all-NetEntry [] u v w same h = tt
    recheck_all-NetEntry (r ∷ rs) u v w same h =
        (recheck_route-NetEntry r u v w same h.0, recheck_all-NetEntry rs _ v w same h.1)

    recheck_all-Adds :
        (w₀ w : World) (rs : List AddedRoute)
        → Adds k w₀ w rs
        → Adds k w₀
            (recheck_all m v4_current v6_current rs w).1
            (recheck_all m v4_current v6_current rs w).0
    recheck_all-Adds w₀ w rs a = record {
      kept = λ j h.
          recheck_all-entry rs w j (sym (recheck_all-has_key rs w j) ∙ h)
          ∙ a.kept j (sym (recheck_all-has_key rs w j) ∙ h);
      fresh = λ j h. a.fresh j (sym (recheck_all-has_key rs w j) ∙ h);
      nets = recheck_all-NetEntry rs w w _ (recheck_all-net rs w) a.nets;
    }

  gateway-entry :
      (family : Family) (w : World) (j : RouteKey)
      → entry (current_default_gateway m family w).1 j ≡ entry w j
  unfolding current_default_gateway
  gateway-entry family w j = k.get_entry family "default" w j

  -- Where `route` does what it documents, a recheck keeps the account of what was added, whatever
  -- `route` answers.
  pub recheck_routes-Adds :
      (w₀ w : World) (rs : List AddedRoute)
      → Adds k w₀ w rs
      → Adds k w₀ (recheck_routes m rs w).1 (recheck_routes m rs w).0
  unfolding recheck_routes
  recheck_routes-Adds w₀ w rs a =
      recheck_all-Adds _ _ w₀ _ rs
        (Adds-same k w₀ w _ rs (λ j. gateway-entry Family.v6 _ j ∙ gateway-entry Family.v4 w j) a)
