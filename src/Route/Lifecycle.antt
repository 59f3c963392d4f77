-- ===== src/Route/Lifecycle.antt =====
-- smartguard/src/route.rs over a whole run: what the clean-up makes of the account of what was added,
-- also where `route` fails to remove a route.
use smartguard.Prelude.{
  String, true, false, none, some, List, [], ◌∷◌, ◌≡◌, refl, ◌∙◌, sym, ◌⊎◌, inl, inr, if◌then◌else◌,
  ◌&&◌, arith, All, Bool-cases, Option-cases,
}
use smartguard.Machine.{Machine}
use smartguard.Route.Command.{AddedRoute, net, host, passthrough}
use smartguard.Route.Setup.{remove_route, cleanup_routes}
use smartguard.Route.Kernel.{
  RouteKey, Target, key_eq, eq_of_key_eq, Kernel, Removes, key_of, has_key, delete_args,
  delete_via_args, ran,
}
use smartguard.Route.Adds.{Adds, NetEntry}

-- The command that takes a route out: a tunnel route only from its interface.
abbrev removal_args : AddedRoute → List String
removal_args (net prefix tun_name family) =
    delete_via_args (record { family = family; kind = "-net"; dest = prefix })
      (record { via = "-interface"; name = tun_name })
removal_args (host ip family gateway) =
    delete_args (record { family = family; kind = "-host"; dest = ip })
removal_args (passthrough prefix family) =
    delete_args (record { family = family; kind = "-net"; dest = prefix })

module _ {m : Machine} (k : Kernel m) where
  open m use {World}
  open k use {entry}

  -- The route is in the table: a tunnel route by its interface, another one by any target.
  abbrev There : World → AddedRoute → Type 0
  There w (net prefix tun_name family) = NetEntry k w (net prefix tun_name family)
  There w (host ip family gateway) =
      (t : Target) × (entry w (record { family = family; kind = "-host"; dest = ip }) ≡ some t)
  There w (passthrough prefix family) =
      (t : Target) × (entry w (record { family = family; kind = "-net"; dest = prefix }) ≡ some t)

  -- In the course of the clean-up that starts in `w`, the removal of a route of the list with key `j`
  -- fails, though the route is in the table.
  abbrev pub Refused : List AddedRoute → World → RouteKey → Type 0
  Refused [] w j = ⊥
  Refused (r ∷ rs) w j =
      ((key_eq (key_of r) j ≡ true) × There w r × (ran m (removal_args r) w ≡ false))
      ⊎ Refused rs (remove_route m r w).1 j

  remove_route-entry :
      (r : AddedRoute) (w : World) (j : RouteKey)
      → entry (remove_route m r w).1 j
        ≡ (if ran m (removal_args r) w && key_eq (key_of r) j then none else entry w j)
  unfolding remove_route key_of
  remove_route-entry (net prefix tun_name family) w j = k.delete_via_entry _ _ w j
  remove_route-entry (host ip family gateway) w j = k.delete_entry _ w j
  remove_route-entry (passthrough prefix family) w j = k.delete_entry _ w j

  -- A route that a clean-up can take out: it is in the table as it was added, or not at all.
  abbrev Removable : World → AddedRoute → Type 0
  Removable w r = NetEntry k w r ⊎ (entry w (key_of r) ≡ none)

  Removable-cases :
      (r : AddedRoute) (w : World) → Removable w r → There w r ⊎ (entry w (key_of r) ≡ none)
  unfolding key_of
  Removable-cases (net prefix tun_name family) w h = h
  Removable-cases (host ip family gateway) w h =
      elim (Option-cases (entry w (key_of (host ip family gateway)))) [
        | inl gone ↦ inr gone
        | inr there ↦ inl there
      ]
  Removable-cases (passthrough prefix family) w h =
      elim (Option-cases (entry w (key_of (passthrough prefix family)))) [
        | inl gone ↦ inr gone
        | inr there ↦ inl there
      ]

  Removable-remove_route :
      (r s : AddedRoute) (w : World) → Removable w s → Removable (remove_route m r w).1 s
  unfolding key_of
  Removable-remove_route r (net prefix tun_name family) w g =
      ground (arith, remove_route-entry r w (key_of (net prefix tun_name family)))
  Removable-remove_route r (host ip family gateway) w g = inl tt
  Removable-remove_route r (passthrough prefix family) w g = inl tt

  Removable-remove_route-All :
      (r : AddedRoute) (rs : List AddedRoute) (w : World)
      → All (Removable w) rs
      → All (Removable (remove_route m r w).1) rs
  Removable-remove_route-All r [] w g = tt
  Removable-remove_route-All r (s ∷ rs) w g =
      (Removable-remove_route r s w g.0, Removable-remove_route-All r rs w g.1)

  -- An entry under no key of the list is left alone, whatever commands fail.
  cleanup_routes-entry_other :
      (rs : List AddedRoute) (w : World) (j : RouteKey)
      → has_key j rs ≡ false
      → entry (cleanup_routes m rs w).1 j ≡ entry w j
  unfolding cleanup_routes has_key
  cleanup_routes-entry_other [] w j h = refl
  cleanup_routes-entry_other (r ∷ rs) w j h =
      ground
        (arith, cleanup_routes-entry_other rs (remove_route m r w).1 j, remove_route-entry r w j)

  cleanup_routes-none :
      (rs : List AddedRoute) (w : World) (j : RouteKey)
      → entry w j ≡ none
      → entry (cleanup_routes m rs w).1 j ≡ none
  unfolding cleanup_routes
  cleanup_routes-none [] w j h = h
  cleanup_routes-none (r ∷ rs) w j h =
      cleanup_routes-none rs (remove_route m r w).1 j (ground (arith, remove_route-entry r w j))

  -- The entry of a route that is removed is gone, or the removal was refused.
  remove_route-none :
      (r : AddedRoute) (w : World) (j : RouteKey)
      → Removable w r
      → key_eq (key_of r) j ≡ true
      → (entry (remove_route m r w).1 j ≡ none) ⊎ (There w r × (ran m (removal_args r) w ≡ false))
  remove_route-none r w j h same = elim (Removable-cases r w h) [
    | inr gone ↦ inl (ground (arith, remove_route-entry r w j, eq_of_key_eq (key_of r) j, gone))
    | inl there ↦ elim (Bool-cases (ran m (removal_args r) w)) [
      | inl done ↦ inl (ground (arith, remove_route-entry r w j))
      | inr failed ↦ inr (there, failed)
    ]
  ]

  cleanup_routes-gone :
      (rs : List AddedRoute) (w : World) (j : RouteKey)
      → All (Removable w) rs
      → has_key j rs ≡ true
      → (entry (cleanup_routes m rs w).1 j ≡ none) ⊎ Refused rs w j
  unfolding cleanup_routes has_key
  cleanup_routes-gone [] w j able h = absurd (cc)
  cleanup_routes-gone (r ∷ rs) w j able h = elim (Bool-cases (key_eq (key_of r) j)) [
    | inl same ↦ elim (remove_route-none r w j able.0 same) [
      | inl gone ↦ inl (cleanup_routes-none rs _ j gone)
      | inr (there, failed) ↦ inr (inl (same, there, failed))
    ]
    | inr other ↦
        elim (cleanup_routes-gone rs (remove_route m r w).1 j
          (Removable-remove_route-All r rs w able.1) (ground arith)) [
            | inl gone ↦ inl gone
            | inr refused ↦ inr (inr refused)
          ]
  ]

  All-Removable : (w : World) (rs : List AddedRoute) → All (NetEntry k w) rs → All (Removable w) rs
  All-Removable w [] h = tt
  All-Removable w (r ∷ rs) h = (inl h.0, All-Removable w rs h.1)

  -- A clean-up takes an entry out or leaves it.
  cleanup_routes-cases :
      (rs : List AddedRoute) (w : World) (j : RouteKey)
      → (entry (cleanup_routes m rs w).1 j ≡ none) ⊎ (entry (cleanup_routes m rs w).1 j ≡ entry w j)
  unfolding cleanup_routes
  cleanup_routes-cases [] w j = inr refl
  cleanup_routes-cases (r ∷ rs) w j =
      elim (Bool-cases (ran m (removal_args r) w && key_eq (key_of r) j)) [
        | inl out ↦ inl (cleanup_routes-none rs _ j (remove_route-entry r w j ∙ rw out refl))
        | inr left ↦ elim (cleanup_routes-cases rs (remove_route m r w).1 j) [
          | inl gone ↦ inl gone
          | inr same ↦ inr (same ∙ (remove_route-entry r w j ∙ rw left refl))
        ]
      ]

  -- Where `route` does what it documents, failures included, the clean-up of what was added gives
  -- every entry of the table its old value, whatever other commands fail, unless a route with the
  -- key of the entry is in the table at its turn and its removal fails or is not started; the
  -- entry is then left as the clean-up found it.
  pub cleanup_routes-entry :
      (w₀ w : World) (rs : List AddedRoute)
      → Adds k w₀ w rs
      → (j : RouteKey)
      → (entry (cleanup_routes m rs w).1 j ≡ entry w₀ j)
        ⊎ (Refused rs w j × (entry (cleanup_routes m rs w).1 j ≡ entry w j))
  cleanup_routes-entry w₀ w rs a j = elim (Bool-cases (has_key j rs)) [
    | inr other ↦ inl (cleanup_routes-entry_other rs w j other ∙ a.kept j other)
    | inl listed ↦ elim (cleanup_routes-cases rs w j) [
      | inl gone ↦ inl (gone ∙ sym (a.fresh j listed))
      | inr same ↦ elim (cleanup_routes-gone rs w j (All-Removable w rs a.nets) listed) [
        | inl gone ↦ inl (gone ∙ sym (a.fresh j listed))
        | inr refused ↦ inr (refused, same)
      ]
    ]
  ]

  removal-ran :
      Removes k → (r : AddedRoute) (w : World) → There w r → ran m (removal_args r) w ≡ true
  removal-ran all (net prefix tun_name family) w h = all.delete_via_there _ _ w h
  removal-ran all (host ip family gateway) w (t, h) = all.delete_there _ t w h
  removal-ran all (passthrough prefix family) w (t, h) = all.delete_there _ t w h

  -- Where no removal of an entry that is there fails, none is refused.
  Refused-absurd :
      Removes k → (rs : List AddedRoute) (w : World) (j : RouteKey) → Refused rs w j → ⊥
  Refused-absurd all [] w j h = h
  Refused-absurd all (r ∷ rs) w j (inl (same, there, failed)) =
      absurd (cc (removal-ran all r w there, failed))
  Refused-absurd all (r ∷ rs) w j (inr h) = Refused-absurd all rs _ j h

  pub of_none_refused :
      {A B : Type 0}
      → Removes k
      → (rs : List AddedRoute) (w : World) (j : RouteKey) → A ⊎ (Refused rs w j × B)
      → A
  of_none_refused all rs w j (inl a) = a
  of_none_refused all rs w j (inr (refused, b)) = absurd (Refused-absurd all rs w j refused)
