-- ===== src/Route/Sync.antt =====
-- smartguard/src/route.rs: after a recheck the bypasses follow the gateways of the moment.
use smartguard.Machine.{Machine}
use smartguard.Prelude.{
  String, true, false, Option, none, some, List, [], ◌∷◌, ◌≡◌, ◌≢◌, refl, inl, inr, ap,
  if◌then◌else◌, arith, Bool-cases, Option-cases, All, eq_iff, str_eq_refl,
}
use smartguard.Route.Command.{Family, AddedRoute, net, host, passthrough}
use smartguard.Route.Recheck.{
  same_gateway, current_for, recheck_route, recheck_host, install_current, recheck_all,
}
use smartguard.Route.Kernel.{
  RouteKey, Target, key_eq_refl, Kernel, Removes, delete_args, add_args, after, ran,
}

same_gateway-eq : (a b : Option String) → same_gateway a b ≡ true → a ≡ b
same_gateway-eq none none h = refl
same_gateway-eq (some a) (some b) h = ap some ((eq_iff a b).0 h)
same_gateway-eq none (some b) h = absurd (cc)
same_gateway-eq (some a) none h = absurd (cc)

same_gateway_refl : (a : Option String) → same_gateway a a ≡ true
same_gateway_refl none = refl
same_gateway_refl (some a) = str_eq_refl a

module _ {m : Machine} (k : Kernel m) where
  open m use {World}
  open k use {entry}

  -- A machine on which a route can be added under every key that is free.
  abbrev pub AddsAll : Type 0
  AddsAll =
      (key : RouteKey) (t : Target) (w : World)
      → entry w key ≡ none
      → ran m (add_args key t) w ≡ true

  module _ (v4_current v6_current : Option String) where
    -- The gateway that a bypass is recorded with is the one of its family at the moment.
    abbrev pub InSync : AddedRoute → Type 0
    InSync (host ip family gateway) = gateway ≡ current_for family v4_current v6_current
    InSync (net prefix tun_name family) = Unit
    InSync (passthrough prefix family) = Unit

    install_current-ran :
        (ip : String) (family : Family) (current : Option String) (w : World)
        → AddsAll
        → entry w (record { family = family; kind = "-host"; dest = ip }) ≡ none
        → (install_current m ip family current w).0 ≡ true
    unfolding install_current
    install_current-ran ip family none w all free = refl
    install_current-ran ip family (some gw) w all free =
        all (record { family = family; kind = "-host"; dest = ip })
          (record { via = "-gateway"; name = gw }) w free

    recheck_host-gateway :
        (ip : String) (family : Family) (stored current : Option String) (w : World)
        → AddsAll
        → Removes k
        → (recheck_host m ip family stored current w).0 ≡ current
    unfolding recheck_host
    recheck_host-gateway ip family stored current w all removes =
        elim (Bool-cases (same_gateway stored current)) [
          | inl same ↦ rw same (same_gateway-eq stored current same)
          | inr moved ↦ rw (
            moved,
            install_current-ran ip family current
                (after m (delete_args (record { family = family; kind = "-host"; dest = ip })) w)
                all (removed w),
          )
        ]
      where
        key : RouteKey
        key = record { family = family; kind = "-host"; dest = ip }

        removed : (w : World) → entry (after m (delete_args key) w) key ≡ none
        removed w = elim (Option-cases (entry w key)) [
          | inl gone ↦ ground (arith, k.delete_entry key w key, gone)
          | inr (t, there) ↦
              ground (
                arith,
                k.delete_entry key w key,
                removes.delete_there key t w there,
                key_eq_refl key,
              )
        ]

    recheck_all-InSync :
        (rs : List AddedRoute) (w : World)
        → AddsAll
        → Removes k
        → All InSync (recheck_all m v4_current v6_current rs w).0
    unfolding recheck_all recheck_route
    recheck_all-InSync [] w all removes = tt
    recheck_all-InSync (host ip family stored ∷ rs) w all removes =
        (recheck_host-gateway ip family stored _ w all removes, recheck_all-InSync rs _ all removes)
    recheck_all-InSync (net prefix tun_name family ∷ rs) w all removes =
        (tt, recheck_all-InSync rs w all removes)
    recheck_all-InSync (passthrough prefix family ∷ rs) w all removes =
        (tt, recheck_all-InSync rs w all removes)

    -- Where every bypass follows the gateways already, nothing is run.
    recheck_all_of_InSync :
        (rs : List AddedRoute) (w : World)
        → All InSync rs
        → recheck_all m v4_current v6_current rs w ≡ (rs, w)
    unfolding recheck_all recheck_route recheck_host
    recheck_all_of_InSync [] w h = refl
    recheck_all_of_InSync (host ip family stored ∷ rs) w h =
        rw (h.0, same_gateway_refl (current_for family v4_current v6_current))
          (rw (recheck_all_of_InSync rs w h.1))
    recheck_all_of_InSync (net prefix tun_name family ∷ rs) w h =
        rw (recheck_all_of_InSync rs w h.1)
    recheck_all_of_InSync (passthrough prefix family ∷ rs) w h = rw (recheck_all_of_InSync rs w h.1)

    -- Where `route` does what it documents, every free key can be added and every entry that is
    -- there removed, a second recheck against the same gateways changes no route and runs no
    -- command.
    pub recheck_all_idem :
        (rs : List AddedRoute) (w : World)
        → AddsAll
        → Removes k
        → let first = recheck_all m v4_current v6_current rs w in
          recheck_all m v4_current v6_current first.0 first.1 ≡ first
    recheck_all_idem rs w all removes =
        recheck_all_of_InSync _ _ (recheck_all-InSync rs w all removes)

  module _ (ip : String) (family : Family) (stored : Option String) (gw : String) (w : World) where
    abbrev key : RouteKey
    key = record { family = family; kind = "-host"; dest = ip }

    abbrev target : Target
    target = record { via = "-gateway"; name = gw }

    -- Where `route` does what it documents, and the recorded gateway is another than the current
    -- one, or there is none, `route` is asked to delete the old entry and to add one by the
    -- current gateway. If it is added, the bypass goes by the current gateway, in the table and in
    -- the record. If not, the record keeps the old gateway for a retry, and the table has no
    -- bypass if the deletion succeeded, and what it had if that failed too. An old entry that is
    -- there and whose deletion fails stays, in the table and in the record.
    pub recheck_host_moved :
        stored ≢ some gw
        → let removed = ran m (delete_args key) w in
          let added = ran m (add_args key target) (after m (delete_args key) w) in
          let result = recheck_host m ip family stored (some gw) w in
          (result.0 ≡ (if added then some gw else stored))
          × (entry result.1 key
              ≡ (if added then some target else if removed then none else entry w key))
          × (removed ≡ false
              → entry w key ≢ none
              → (result.0 ≡ stored) × (entry result.1 key ≡ entry w key))
    unfolding recheck_host install_current
    recheck_host_moved moved = elim (Bool-cases (same_gateway stored (some gw))) [
      | inl same ↦ absurd (moved (same_gateway-eq stored (some gw) same))
      | inr differs ↦ (
        rw differs,
        rw differs entries,
        λ failed there. (
          rw (differs, not_added failed there),
          rw differs (
              ground (
                arith,
                k.add_entry key target (after m (delete_args key) w) key,
                k.delete_entry key w key,
                not_added failed there,
              )),
        ),
      )
    ]
      where
        entries : entry (after m (add_args key target) (after m (delete_args key) w)) key ≡ (
            if ran m (add_args key target) (after m (delete_args key) w)
            then some target
            else if ran m (delete_args key) w
            then none
            else entry w key)
        entries = ground (
          arith,
          k.add_entry key target (after m (delete_args key) w) key,
          k.delete_entry key w key,
          key_eq_refl key,
        )

        not_added :
            ran m (delete_args key) w ≡ false
            → entry w key ≢ none
            → ran m (add_args key target) (after m (delete_args key) w) ≡ false
        not_added failed there =
            elim (Bool-cases (ran m (add_args key target) (after m (delete_args key) w))) [
              | inr refused ↦ refused
              | inl added ↦ absurd (
                  there (
                    ground (
                      arith,
                      k.add_fresh key target (after m (delete_args key) w) added,
                      k.delete_entry key w key,
                    )))
            ]
