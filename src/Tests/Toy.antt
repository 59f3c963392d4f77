-- ===== src/Tests/Toy.antt =====
-- A machine with a routing table that does what `route` documents, for smartguard/src/route.rs and
-- tunnel.rs: every command succeeds where it can, and `get` answers with one gateway.
use smartguard.Prelude.{
  ℕ, String, Bool, true, false, ◌&&◌, Option, none, some, List, [], ◌∷◌, ◌≡◌, refl, State, pure,
  if◌then◌else◌, str_eq, Option-cases, Bool-cases, inl, inr, ap, sym, subst, ◌∙◌, str_eq_refl,
}
use smartguard.Net.{IpNetLib}
use smartguard.Machine.{Output, Machine, exited}
use smartguard.Route.Command.{Family, v4, v6, succeeded, route_flag, route_cmd}
use smartguard.Route.Sync.{AddsAll}
use smartguard.Route.Kernel.{
  RouteKey, Target, Kernel, Removes, key_eq, add_args, delete_args, delete_via_args, after, ran,
}

abbrev pub Table : Type 0
Table = RouteKey → Option Target

abbrev pub empty_table : Table
empty_table k = none

abbrev set_entry : RouteKey → Option Target → Table → Table
set_entry k t w j = if key_eq k j then t else w j

abbrev answer : Bool → Option Output
answer b = some (record { success = b; stdout = "" })

abbrev family_named : String → Family
family_named flag = if str_eq flag "-inet" then v4 else v6

abbrev add_if_free : Option Target → RouteKey → Target → State Table (Option Output)
add_if_free none k t w = (answer true, set_entry k (some t) w)
add_if_free (some u) k t w = (answer false, w)

abbrev delete_if_there : Option Target → RouteKey → State Table (Option Output)
delete_if_there none k w = (answer false, w)
delete_if_there (some u) k w = (answer true, set_entry k none w)

abbrev same_target : Option Target → Target → Bool
same_target none t = false
same_target (some u) t = str_eq u.via t.via && str_eq u.name t.name

abbrev command : String → RouteKey → Target → State Table (Option Output)
command name k t w =
    if str_eq name "add"
    then add_if_free (w k) k t w
    else if same_target (w k) t
    then delete_if_there (w k) k w
    else (answer false, w)

abbrev toy_key : String → String → String → RouteKey
toy_key flag kind dest = record { family = family_named flag; kind = kind; dest = dest }

unfoldable pub toy_route : List String → State Table (Option Output)
toy_route (n ∷ name ∷ flag ∷ kind ∷ dest ∷ via ∷ target ∷ []) w =
    command name (toy_key flag kind dest) (record { via = via; name = target }) w
toy_route (n ∷ name ∷ flag ∷ kind ∷ dest ∷ []) w =
    delete_if_there (w (toy_key flag kind dest)) (toy_key flag kind dest) w
toy_route (n ∷ name ∷ flag ∷ ip ∷ []) w =
    (some (record { success = true; stdout = "  gateway: 192.168.1.1\n  interface: en0\n" }), w)
toy_route args w = (none, w)

abbrev pub toy : Machine
toy = record {
  World = Table;
  route = toy_route;
  pipe = λ program args input. pure (exited true);
  status = λ program args. pure (some true);
}

family_named-route_flag : (f : Family) → family_named (route_flag f) ≡ f
unfolding route_flag
family_named-route_flag Family.v4 = refl
family_named-route_flag Family.v6 = refl

toy_key-eq : (k : RouteKey) → toy_key (route_flag k.family) k.kind k.dest ≡ k
toy_key-eq k =
    ap (λ f. let r : RouteKey = record { family = f; kind = k.kind; dest = k.dest } in r)
      (family_named-route_flag k.family)

-- What each command comes to, at the key that it was made of.
toy_route-add :
    (k : RouteKey) (t : Target) (w : Table) → toy_route (add_args k t) w ≡ add_if_free (w k) k t w
unfolding toy_route
toy_route-add k t w = ap (λ key. add_if_free (w key) key t w) (toy_key-eq k)

toy_route-delete :
    (k : RouteKey) (w : Table) → toy_route (delete_args k) w ≡ delete_if_there (w k) k w
unfolding toy_route
toy_route-delete k w = ap (λ key. delete_if_there (w key) key w) (toy_key-eq k)

toy_route-delete_via :
    (k : RouteKey) (t : Target) (w : Table)
    → toy_route (delete_via_args k t) w
      ≡ (if same_target (w k) t then delete_if_there (w k) k w else (answer false, w))
unfolding toy_route
toy_route-delete_via k t w =
    ap (λ key. if same_target (w key) t then delete_if_there (w key) key w else (answer false, w))
      (toy_key-eq k)

pub toy_add_fresh :
    (k : RouteKey) (t : Target) (w : Table) → ran toy (add_args k t) w ≡ true → w k ≡ none
unfolding route_cmd
toy_add_fresh k t w h = elim (Option-cases (w k)) [
  | inl free ↦ free
  | inr (u, e) ↦ absurd (cc (toy_route-add k t w, ap (λ o. add_if_free o k t w) e, h))
]

pub toy_add_entry :
    (k : RouteKey) (t : Target) (w : Table) (j : RouteKey)
    → after toy (add_args k t) w j
      ≡ (if ran toy (add_args k t) w && key_eq k j then some t else w j)
unfolding route_cmd
toy_add_entry k t w j =
    subst (λ r. r.1 j ≡ (if succeeded r.0 && key_eq k j then some t else w j))
      (sym (toy_route-add k t w))
      (elim (Option-cases (w k)) [ inl free ↦ rw free | inr (u, e) ↦ rw e ])

pub toy_delete_entry :
    (k : RouteKey) (w : Table) (j : RouteKey)
    → after toy (delete_args k) w j
      ≡ (if ran toy (delete_args k) w && key_eq k j then none else w j)
unfolding route_cmd
toy_delete_entry k w j =
    subst (λ r. r.1 j ≡ (if succeeded r.0 && key_eq k j then none else w j))
      (sym (toy_route-delete k w))
      (elim (Option-cases (w k)) [ inl free ↦ rw free refl | inr (u, e) ↦ rw e refl ])

pub toy_delete_via_entry :
    (k : RouteKey) (t : Target) (w : Table) (j : RouteKey)
    → after toy (delete_via_args k t) w j
      ≡ (if ran toy (delete_via_args k t) w && key_eq k j then none else w j)
unfolding route_cmd
toy_delete_via_entry k t w j =
    subst (λ r. r.1 j ≡ (if succeeded r.0 && key_eq k j then none else w j))
      (sym (toy_route-delete_via k t w))
      (elim (Bool-cases (same_target (w k) t)) [
        | inr other ↦ rw other refl
        | inl same ↦ elim (Option-cases (w k)) [
          | inl free ↦ rw (same, free) refl
          | inr (u, e) ↦ rw (same, e) refl
        ]
      ])

pub toy_get_entry :
    (family : Family) (ip : String) (w : Table) (j : RouteKey)
    → (toy_route ("-n" ∷ "get" ∷ route_flag family ∷ ip ∷ []) w).1 j ≡ w j
unfolding toy_route
toy_get_entry family ip w j = refl

abbrev pub toy_kernel : Kernel toy
toy_kernel = record {
  entry = λ w. w;
  add_fresh = toy_add_fresh;
  add_entry = toy_add_entry;
  delete_entry = toy_delete_entry;
  delete_via_entry = toy_delete_via_entry;
  get_entry = toy_get_entry;
  pipe_entry = λ program args input w j. refl;
  status_entry = λ args w j. refl;
}

pub toy_delete_there :
    (k : RouteKey) (t : Target) (w : Table) → w k ≡ some t → ran toy (delete_args k) w ≡ true
unfolding route_cmd
toy_delete_there k t w e = ap (λ r. succeeded r.0) (toy_route-delete k w) ∙ rw e refl

pub toy_delete_via_there :
    (k : RouteKey) (t : Target) (w : Table) → w k ≡ some t → ran toy (delete_via_args k t) w ≡ true
unfolding route_cmd
toy_delete_via_there k t w e =
    ap (λ r. succeeded r.0) (toy_route-delete_via k t w)
    ∙ rw e (rw (str_eq_refl t.via, str_eq_refl t.name) refl)

abbrev pub toy_removes : Removes toy_kernel
toy_removes = record { delete_there = toy_delete_there; delete_via_there = toy_delete_via_there }

pub toy_adds_all : AddsAll toy_kernel
unfolding route_cmd
toy_adds_all k t w free =
    ap (λ r. succeeded r.0) (toy_route-add k t w) ∙ ap (λ o. succeeded (add_if_free o k t w).0) free

-- Networks of one family or the other, by their text and prefix length.
abbrev pub toy_nets : IpNetLib
toy_nets = record {
  Ipv4Net = String × ℕ;
  Ipv6Net = String × ℕ;
  prefix_len4 = λ p. p.1;
  prefix_len6 = λ p. p.1;
  display4 = λ p. p.0;
  display6 = λ p. p.0;
}
