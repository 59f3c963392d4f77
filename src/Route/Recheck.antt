-- ===== src/Route/Recheck.antt =====
-- smartguard/src/route.rs: `recheck_routes`, which moves the endpoint bypasses to the gateway of
-- the network that the machine is on now.
use smartguard.Prelude.{
  String, Bool, true, false, Option, none, some, List, [], ◌∷◌, State, ◌>>=◌, ◌>>◌, pure,
  if◌then◌else◌, str_eq,
}
use smartguard.Machine.{Machine}
use smartguard.Route.Command.{Family, AddedRoute, net, host, passthrough, route_flag, route_cmd}
use smartguard.Route.Info.{current_default_gateway}

-- `stored.as_deref() == current.as_deref()`.
abbrev pub same_gateway : Option String → Option String → Bool
same_gateway none none = true
same_gateway (some a) (some b) = str_eq a b
same_gateway _ _ = false

abbrev pub current_for : Family → Option String → Option String → Option String
current_for Family.v4 v4_current v6_current = v4_current
current_for Family.v6 v4_current v6_current = v6_current

module _ (m : Machine) where
  open m use {World}

  -- The new bypass, if there is a gateway to point at.
  unfoldable pub install_current : String → Family → Option String → State World Bool
  install_current ip family none = pure true
  install_current ip family (some gw) =
      route_cmd m ("-n" ∷ "add" ∷ route_flag family ∷ "-host" ∷ ip ∷ "-gateway" ∷ gw ∷ [])

  unfoldable pub recheck_host :
      String → Family → Option String → Option String → State World (Option String)
  unfolding install_current
  recheck_host ip family stored current = if same_gateway stored current then pure stored else (do
    route_cmd m ("-n" ∷ "delete" ∷ route_flag family ∷ "-host" ∷ ip ∷ [])
    installed ← install_current ip family current
    pure (if installed then current else stored))

  unfoldable pub recheck_route : Option String → Option String → AddedRoute → State World AddedRoute
  unfolding recheck_host
  recheck_route v4_current v6_current (host ip family stored) = do
    kept ← recheck_host ip family stored (current_for family v4_current v6_current)
    pure (host ip family kept)
  recheck_route v4_current v6_current (net prefix tun_name family) =
      pure (net prefix tun_name family)
  recheck_route v4_current v6_current (passthrough prefix family) = pure (passthrough prefix family)

  unfoldable pub recheck_all :
      Option String → Option String → List AddedRoute → State World (List AddedRoute)
  unfolding recheck_route
  recheck_all v4_current v6_current [] = pure []
  recheck_all v4_current v6_current (r ∷ rs) = do
    r' ← recheck_route v4_current v6_current r
    rs' ← recheck_all v4_current v6_current rs
    pure (r' ∷ rs')

  unfoldable pub recheck_routes : List AddedRoute → State World (List AddedRoute)
  unfolding current_default_gateway recheck_all
  recheck_routes added_routes = do
    v4_current ← current_default_gateway m Family.v4
    v6_current ← current_default_gateway m Family.v6
    recheck_all v4_current v6_current added_routes
