-- ===== src/Tunnel/Loop/Account.antt =====
-- smartguard/src/tunnel.rs: the routing table through the event loop and after it.
use smartguard.Prelude.{◌≡◌, ◌⊎◌}
use smartguard.Route.Adds.{Adds}
use smartguard.Route.Kernel.{RouteKey, Kernel}
use smartguard.Route.RecheckKeeps.{recheck_routes-Adds}
use smartguard.Route.Lifecycle.{Refused}
use smartguard.Tunnel.Guard.{CleanupGuard, recheck_guard, cleanup_if_applied, drop_guard}
use smartguard.Tunnel.Restore.{drop_guard-entry}
use smartguard.Tunnel.Loop.{Setting, World, Tunnel, Flow, Reach}
use smartguard.Tunnel.Loop.Guarded.{Reach-Kept}

module _ (t : Setting) (k : Kernel t.machine) (w₀ : World t) where
  open t use {platform, machine}
  open k use {entry}

  -- The guard accounts for all that was changed in the table since `w₀`.
  abbrev Accounts : CleanupGuard → World t → Type 0
  Accounts g w = Adds k w₀ w g.added_routes

  recheck_guard-Accounts :
      (g : CleanupGuard) (w : World t)
      → Accounts g w
      → let (g', w') = recheck_guard platform machine g w in Accounts g' w'
  unfolding recheck_guard
  recheck_guard-Accounts g w a = recheck_routes-Adds k w₀ w g.added_routes a

  -- Where the guard accounts for the routing table at the start of the event loop, the table is as it
  -- was before once the guard is dropped, but for entries whose removal is refused then: whatever events
  -- came and whether the loop was ended by a signal, an error or a panic.
  pub Reach-drop_guard :
      {s : Tunnel t} {w : World t} {s' : Tunnel t} {w' : World t} {f : Flow} (j : RouteKey)
      → Adds k w₀ w s.guard.added_routes
      → Reach t s w s' w' f
      → (entry (drop_guard platform machine s'.guard w').1 j ≡ entry w₀ j)
        ⊎ (Refused k s'.guard.added_routes
              (cleanup_if_applied platform machine s'.guard.applied_dns w').1
              j
            × (entry (drop_guard platform machine s'.guard w').1 j ≡ entry w' j))
  Reach-drop_guard {s' = s'} {w' = w'} j a r =
      drop_guard-entry k platform w₀ w' s'.guard (Reach-Kept t Accounts recheck_guard-Accounts a r)
        j
