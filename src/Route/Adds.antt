-- ===== src/Route/Adds.antt =====
-- What every installing step of smartguard/src/route.rs does to the routing table: it enters the
-- routes that it returns, all of them new, and leaves the rest of the table alone.
use smartguard.Prelude.{
  true, false, ◌||◌, none, some, List, [], ◌∷◌, ◌++◌, ◌≡◌, inl, inr, arith, Bool-cases, All,
  All-append, ◌∙◌,
}
use smartguard.Machine.{Machine}
use smartguard.Route.Command.{AddedRoute, net, host, passthrough}
use smartguard.Route.Kernel.{
  RouteKey, Target, eq_of_key_eq, Kernel, key_of, has_key, has_key-append, add_args, after, ran,
}

module _ {m : Machine} (k : Kernel m) where
  open m use {World}
  open k use {entry}

  -- A tunnel route stands in the table with its interface, as its removal names it. The removal of the
  -- others names no target, so nothing is asked of them here; `Installed` says where they stand.
  abbrev pub NetEntry : World → AddedRoute → Type 0
  NetEntry w (net prefix tun_name family) =
      entry w (record { family = family; kind = "-net"; dest = prefix })
      ≡ some (record { via = "-interface"; name = tun_name })
  NetEntry w (host ip family gateway) = Unit
  NetEntry w (passthrough prefix family) = Unit

  pub record Adds (w w' : World) (rs : List AddedRoute) : Type 0 where
    pub kept : (j : RouteKey) → has_key j rs ≡ false → entry w' j ≡ entry w j
    pub fresh : (j : RouteKey) → has_key j rs ≡ true → entry w j ≡ none
    pub nets : All (NetEntry w') rs

  pub Adds-nil : {w w' : World} → ((j : RouteKey) → entry w' j ≡ entry w j) → Adds w w' []
  unfolding has_key
  Adds-nil same = record { kept = λ j h. same j; fresh = λ j h. absurd (cc); nets = tt }

  -- A step that changes no entry keeps the account.
  pub Adds-same :
      (w₀ w w' : World) (rs : List AddedRoute)
      → ((j : RouteKey) → entry w' j ≡ entry w j)
      → Adds w₀ w rs
      → Adds w₀ w' rs
  Adds-same w₀ w w' rs same a = record {
    kept = λ j h. same j ∙ a.kept j h;
    fresh = a.fresh;
    nets = nets_same rs a.nets;
  }
    where
      net_same : (r : AddedRoute) → NetEntry w r → NetEntry w' r
      net_same (net prefix tun_name family) h = same _ ∙ h
      net_same (host ip family gateway) h = tt
      net_same (passthrough prefix family) h = tt

      nets_same : (rs : List AddedRoute) → All (NetEntry w) rs → All (NetEntry w') rs
      nets_same [] h = tt
      nets_same (r ∷ rs) h = (net_same r h.0, nets_same rs h.1)

  -- An entry of a tunnel route outlives a step that enters only new keys.
  NetEntry-kept :
      (w w' : World) (r : AddedRoute) (rs : List AddedRoute)
      → Adds w w' rs
      → NetEntry w r
      → NetEntry w' r
  NetEntry-kept w w' (net prefix tun_name family) rs a h =
      elim (Bool-cases (has_key (record { family = family; kind = "-net"; dest = prefix }) rs)) [
        | inl new ↦ cc (a.fresh _ new, h)
        | inr old ↦ a.kept _ old ∙ h
      ]
  NetEntry-kept w w' (host ip family gateway) rs a h = tt
  NetEntry-kept w w' (passthrough prefix family) rs a h = tt

  NetEntry-kept-All :
      (w w' : World) (rs ss : List AddedRoute)
      → Adds w w' ss
      → All (NetEntry w) rs
      → All (NetEntry w') rs
  NetEntry-kept-All w w' [] ss a h = tt
  NetEntry-kept-All w w' (r ∷ rs) ss a h =
      (NetEntry-kept w w' r ss a h.0, NetEntry-kept-All w w' rs ss a h.1)

  pub Adds-append :
      (w w' w'' : World) (rs ss : List AddedRoute)
      → Adds w w' rs
      → Adds w' w'' ss
      → Adds w w'' (rs ++ ss)
  Adds-append w w' w'' rs ss a b = record {
    kept = λ j h. kept j (rw (← has_key-append j rs ss) h);
    fresh = λ j h. fresh j (rw (← has_key-append j rs ss) h);
    nets = All-append (NetEntry w'') rs ss (NetEntry-kept-All w' w'' rs ss b a.nets) b.nets;
  }
    where
      kept : (j : RouteKey) → (has_key j rs || has_key j ss) ≡ false → entry w'' j ≡ entry w j
      kept j h = ground (arith, a.kept j, b.kept j)

      fresh : (j : RouteKey) → (has_key j rs || has_key j ss) ≡ true → entry w j ≡ none
      fresh j h = ground (arith, a.fresh j, a.kept j, b.fresh j)

  -- A list of one route, under a key that was not in the table and now has the given target.
  pub Adds-one :
      (w : World) (r : AddedRoute) (t : Target)
      → ran m (add_args (key_of r) t) w ≡ true
      → NetEntry (after m (add_args (key_of r) t) w) r
      → Adds w (after m (add_args (key_of r) t) w) (r ∷ [])
  unfolding has_key
  Adds-one w r t done here = record {
    kept = λ j h. ground (arith, k.add_entry (key_of r) t w j);
    fresh = λ j h. ground (arith, k.add_fresh (key_of r) t w done, eq_of_key_eq (key_of r) j);
    nets = (here, tt);
  }

  -- A failed `add` adds nothing.
  pub Adds-none :
      (w : World) (key : RouteKey) (t : Target)
      → ran m (add_args key t) w ≡ false
      → Adds w (after m (add_args key t) w) []
  Adds-none w key t failed = Adds-nil (λ j. ground (arith, k.add_entry key t w j))
