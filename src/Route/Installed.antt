-- ===== src/Route/Installed.antt =====
-- smartguard/src/route.rs: where the routes that were added send their packets.
use smartguard.Prelude.{
  String, true, false, none, some, List, [], ◌∷◌, ◌++◌, ◌≡◌, ◌∙◌, ◌⊎◌, inl, inr, arith, Bool-cases,
  All, All-append,
}
use smartguard.Machine.{Machine}
use smartguard.Route.Command.{AddedRoute, net, host, passthrough}
use smartguard.Route.Kernel.{
  RouteKey, Target, key_eq_refl, Kernel, key_of, has_key, add_args, after, ran,
}
use smartguard.Route.Adds.{Adds, NetEntry, Adds-nil, Adds-same, Adds-append, Adds-one, Adds-none}

-- Where the packets for a route go: a tunnel route into its interface, a bypass to the gateway that it
-- is recorded with or else out of some interface, a pass-through to some gateway or interface.
abbrev pub IsTargetOf : AddedRoute → Target → Type 0
IsTargetOf (net prefix tun_name family) t = t ≡ record { via = "-interface"; name = tun_name }
IsTargetOf (host ip family (some gw)) t = t ≡ record { via = "-gateway"; name = gw }
IsTargetOf (host ip family none) t =
    (iface : String) × (t ≡ record { via = "-interface"; name = iface })
IsTargetOf (passthrough prefix family) t =
    ((gw : String) × (t ≡ record { via = "-gateway"; name = gw }))
    ⊎ ((iface : String) × (t ≡ record { via = "-interface"; name = iface }))

module _ {m : Machine} (k : Kernel m) where
  open m use {World}
  open k use {entry}

  -- The route is in the table, by a target of its own.
  abbrev pub Stands : World → AddedRoute → Type 0
  Stands w r = (t : Target) × (entry w (key_of r) ≡ some t) × IsTargetOf r t

  -- The routes are the entries that were added, and each stands in the table.
  pub record Installed (w w' : World) (rs : List AddedRoute) : Type 0 where
    pub adds : Adds k w w' rs
    pub stands : All (Stands w') rs

  pub Installed-nil : {w w' : World} → ((j : RouteKey) → entry w' j ≡ entry w j) → Installed w w' []
  Installed-nil same = record { adds = Adds-nil k same; stands = tt }

  -- A step that changes no entry changes nothing of this.
  pub Installed-same :
      (w w' w'' : World) (rs : List AddedRoute)
      → ((j : RouteKey) → entry w'' j ≡ entry w' j)
      → Installed w w' rs
      → Installed w w'' rs
  Installed-same w w' w'' rs same a = record {
    adds = Adds-same k w w' w'' rs same a.adds;
    stands = still rs a.stands;
  }
    where
      still : (rs : List AddedRoute) → All (Stands w') rs → All (Stands w'') rs
      still [] h = tt
      still (r ∷ rs) ((t, there, is), h) = ((t, same (key_of r) ∙ there, is), still rs h)

  -- An entry outlives a step that enters only new keys.
  Stands-kept :
      (w w' : World) (r : AddedRoute) (rs : List AddedRoute)
      → Adds k w w' rs
      → Stands w r
      → Stands w' r
  Stands-kept w w' r rs a (t, there, is) = (
    t,
    elim (Bool-cases (has_key (key_of r) rs)) [
      | inl new ↦ absurd (cc (a.fresh (key_of r) new, there))
      | inr old ↦ a.kept (key_of r) old ∙ there
    ],
    is,
  )

  Stands-kept-All :
      (w w' : World) (rs ss : List AddedRoute)
      → Adds k w w' ss
      → All (Stands w) rs
      → All (Stands w') rs
  Stands-kept-All w w' [] ss a h = tt
  Stands-kept-All w w' (r ∷ rs) ss a h =
      (Stands-kept w w' r ss a h.0, Stands-kept-All w w' rs ss a h.1)

  pub Installed-append :
      (w w' w'' : World) (rs ss : List AddedRoute)
      → Installed w w' rs
      → Installed w' w'' ss
      → Installed w w'' (rs ++ ss)
  Installed-append w w' w'' rs ss a b = record {
    adds = Adds-append k w w' w'' rs ss a.adds b.adds;
    stands = All-append (Stands w'') rs ss (Stands-kept-All w' w'' rs ss b.adds a.stands) b.stands;
  }

  -- A tunnel route that stands in the table has its interface there.
  Stands-NetEntry : (w : World) (r : AddedRoute) → Stands w r → NetEntry k w r
  unfolding key_of
  Stands-NetEntry w (net prefix tun_name family) (t, there, is) = rw is at there
  Stands-NetEntry w (host ip family gateway) h = tt
  Stands-NetEntry w (passthrough prefix family) h = tt

  -- A list of one route, under a key that was not in the table and now has the given target.
  pub Installed-one :
      (w : World) (r : AddedRoute) (t : Target)
      → ran m (add_args (key_of r) t) w ≡ true
      → IsTargetOf r t
      → Installed w (after m (add_args (key_of r) t) w) (r ∷ [])
  Installed-one w r t done is = record {
    adds = Adds-one k w r t done (Stands-NetEntry _ r here);
    stands = (here, tt);
  }
    where
      here : Stands (after m (add_args (key_of r) t) w) r
      here = (t, ground (arith, k.add_entry (key_of r) t w (key_of r), key_eq_refl (key_of r)), is)

  -- A failed `add` adds nothing.
  pub Installed-none :
      (w : World) (key : RouteKey) (t : Target)
      → ran m (add_args key t) w ≡ false
      → Installed w (after m (add_args key t) w) []
  Installed-none w key t failed = record { adds = Adds-none k w key t failed; stands = tt }
