-- ===== src/Tunnel/HostIndex.antt =====
-- smartguard/src/tunnel.rs: the index of the first bypass, taken once before the event loop, stays
-- good through the rechecks.
use smartguard.Dns.{Platform}
use smartguard.Machine.{Machine}
use smartguard.Prelude.{
  ℕ, zero, suc, String, Option, none, some, List, [], ◌∷◌, ◌≡◌, ◌≢◌, refl, ◌∙◌, panics, State,
  ◌>>=◌, pure,
}
use smartguard.Route.Command.{AddedRoute, host, net, passthrough}
use smartguard.Route.Recheck.{recheck_route, recheck_all, recheck_routes}
use smartguard.Tunnel.Guard.{CleanupGuard, recheck_guard}
use smartguard.Tunnel.Keepalive.{next_idx, host_route_idx, no_gateway_at, wants_recheck}

-- A run's rechecks, of which there may be any number.
unfoldable pub recheck_times :
    (m : Machine) → Platform → ℕ → CleanupGuard → State m.World CleanupGuard
recheck_times m platform zero guard = pure guard
recheck_times m platform (suc times) guard =
    recheck_guard platform m guard >>= recheck_times m platform times

next_idx-eq : (o : Option ℕ) (i : ℕ) → next_idx o ≡ some (suc i) → o ≡ some i
next_idx-eq none i e = absurd (cc)
next_idx-eq (some j) i e = cc

module _ (m : Machine) where
  open m use {World}

  pub recheck_all-host_route_idx :
      (v4_current v6_current : Option String) (rs : List AddedRoute) (w : World)
      → host_route_idx (recheck_all m v4_current v6_current rs w).0 ≡ host_route_idx rs
  unfolding recheck_all recheck_route host_route_idx
  recheck_all-host_route_idx v4_current v6_current [] w = refl
  recheck_all-host_route_idx v4_current v6_current (host ip family gateway ∷ rs) w = refl
  recheck_all-host_route_idx v4_current v6_current (net prefix tun_name family ∷ rs) w =
      rw (recheck_all-host_route_idx v4_current v6_current rs w)
  recheck_all-host_route_idx v4_current v6_current (passthrough prefix family ∷ rs) w =
      rw (recheck_all-host_route_idx v4_current v6_current rs w)

  recheck_times-host_route_idx :
      (platform : Platform) (times : ℕ) (guard : CleanupGuard) (w : World)
      → host_route_idx (recheck_times m platform times guard w).0.added_routes
        ≡ host_route_idx guard.added_routes
  unfolding recheck_times recheck_guard recheck_routes
  recheck_times-host_route_idx platform zero guard w = refl
  recheck_times-host_route_idx platform (suc times) guard w =
      recheck_times-host_route_idx platform times (recheck_guard platform m guard w).0
        (recheck_guard platform m guard w).1
      ∙ recheck_all-host_route_idx _ _ guard.added_routes _

  no_gateway_at-host_route_idx :
      (rs : List AddedRoute) (i : ℕ) → host_route_idx rs ≡ some i → no_gateway_at rs i ≢ panics
  unfolding host_route_idx no_gateway_at
  no_gateway_at-host_route_idx [] i e h = cc
  no_gateway_at-host_route_idx (host ip family gateway ∷ rs) zero e h = cc
  no_gateway_at-host_route_idx (host ip family gateway ∷ rs) (suc i) e h = cc
  no_gateway_at-host_route_idx (net prefix tun_name family ∷ rs) zero e h = cc
  no_gateway_at-host_route_idx (net prefix tun_name family ∷ rs) (suc i) e h =
      no_gateway_at-host_route_idx rs i (next_idx-eq (host_route_idx rs) i e) h
  no_gateway_at-host_route_idx (passthrough prefix family ∷ rs) zero e h = cc
  no_gateway_at-host_route_idx (passthrough prefix family ∷ rs) (suc i) e h =
      no_gateway_at-host_route_idx rs i (next_idx-eq (host_route_idx rs) i e) h

  pub wants_recheck_in_range :
      (rs : List AddedRoute) (o : Option ℕ) → host_route_idx rs ≡ o → wants_recheck o rs ≢ panics
  unfolding wants_recheck
  wants_recheck_in_range rs none e h = cc
  wants_recheck_in_range rs (some i) e h = no_gateway_at-host_route_idx rs i e h

  -- The test before a recheck never indexes out of the list of routes, however many rechecks came
  -- between the start, when the index was taken, and the test.
  pub wants_recheck-ne-panics :
      (platform : Platform) (times : ℕ) (guard : CleanupGuard) (w : World)
      → wants_recheck
          (host_route_idx guard.added_routes)
          (recheck_times m platform times guard w).0.added_routes
        ≢ panics
  wants_recheck-ne-panics platform times guard w =
      wants_recheck_in_range _ (host_route_idx guard.added_routes)
        (recheck_times-host_route_idx platform times guard w)
