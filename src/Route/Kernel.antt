-- ===== src/Route/Kernel.antt =====
-- The kernel's routing table, as the program `route` documents its effect on it. The program under
-- smartguard/src/route.rs only runs the commands; what they do is assumed here, field by field.
use smartguard.Prelude.{
  String, Bool, true, false, ◌&&◌, ◌||◌, Option, none, some, List, [], ◌∷◌, ◌++◌, ◌≡◌, refl, ap,
  ◌∙◌, if◌then◌else◌, arith, str_eq, eq_iff, str_eq_refl,
}
use smartguard.Machine.{Machine}
use smartguard.Route.Command.{Family, AddedRoute, net, host, passthrough, route_flag, route_cmd}
use smartguard.Route.Setup.{same_family}

-- What names an entry of the table: at most one entry has a given family, kind and destination.
pub record RouteKey : Type 0 where
  pub family : Family
  pub kind : String
  pub dest : String

-- Where an entry sends its packets: "-gateway" or "-interface", and which.
pub record Target : Type 0 where
  pub via : String
  pub name : String

unfoldable pub key_eq : RouteKey → RouteKey → Bool
key_eq a b = same_family a.family b.family && (str_eq a.kind b.kind && str_eq a.dest b.dest)

pub key_eq_refl : (k : RouteKey) → key_eq k k ≡ true
unfolding key_eq
key_eq_refl k = family_case k.family
  where
    family_case :
        (f : Family) → (same_family f f && (str_eq k.kind k.kind && str_eq k.dest k.dest)) ≡ true
    family_case Family.v4 = ground (arith, str_eq_refl k.kind, str_eq_refl k.dest)
    family_case Family.v6 = ground (arith, str_eq_refl k.kind, str_eq_refl k.dest)

pub eq_of_key_eq : (a b : RouteKey) → key_eq a b ≡ true → a ≡ b
unfolding key_eq
eq_of_key_eq a b h = ground (arith, eq_iff a.kind b.kind, eq_iff a.dest b.dest)

-- The key of a host differs from that of a network.
pub key_eq_host_net :
    (ip : String) (family : Family) (j : RouteKey)
    → j.kind ≡ "-net"
    → key_eq (record { family = family; kind = "-host"; dest = ip }) j ≡ false
unfolding key_eq
key_eq_host_net ip family j h =
    ap (λ t. same_family family j.family && (str_eq "-host" t && str_eq ip j.dest)) h
    ∙ no_kind (same_family family j.family)
  where
    no_kind : (b : Bool) → (b && (str_eq "-host" "-net" && str_eq ip j.dest)) ≡ false
    no_kind true = refl
    no_kind false = refl

abbrev pub add_args : RouteKey → Target → List String
add_args k t = "-n" ∷ "add" ∷ route_flag k.family ∷ k.kind ∷ k.dest ∷ t.via ∷ t.name ∷ []

abbrev pub delete_args : RouteKey → List String
delete_args k = "-n" ∷ "delete" ∷ route_flag k.family ∷ k.kind ∷ k.dest ∷ []

abbrev pub delete_via_args : RouteKey → Target → List String
delete_via_args k t = "-n" ∷ "delete" ∷ route_flag k.family ∷ k.kind ∷ k.dest ∷ t.via ∷ t.name ∷ []

module _ (m : Machine) where
  open m use {World, route, pipe, status}

  abbrev pub ran : List String → World → Bool
  ran args w = (route_cmd m args w).0

  abbrev pub after : List String → World → World
  after args w = (route_cmd m args w).1

  -- The documented behaviour of `route`: `add` refuses a destination that is in the table, and else
  -- enters it or fails and changes nothing; `delete` takes the destination out or fails and changes
  -- nothing, which it may do at any time; a program that was not started has failed. `get` changes
  -- nothing. The tools that set the resolver leave the table alone.
  pub record Kernel : Type 0 where
    pub entry : World → RouteKey → Option Target
    pub add_fresh :
        (k : RouteKey) (t : Target) (w : World) → ran (add_args k t) w ≡ true → entry w k ≡ none
    pub add_entry :
        (k : RouteKey) (t : Target) (w : World) (j : RouteKey)
        → entry (after (add_args k t) w) j
          ≡ (if ran (add_args k t) w && key_eq k j then some t else entry w j)
    pub delete_entry :
        (k : RouteKey) (w : World) (j : RouteKey)
        → entry (after (delete_args k) w) j
          ≡ (if ran (delete_args k) w && key_eq k j then none else entry w j)
    pub delete_via_entry :
        (k : RouteKey) (t : Target) (w : World) (j : RouteKey)
        → entry (after (delete_via_args k t) w) j
          ≡ (if ran (delete_via_args k t) w && key_eq k j then none else entry w j)
    pub get_entry :
        (family : Family) (ip : String) (w : World) (j : RouteKey)
        → entry (route ("-n" ∷ "get" ∷ route_flag family ∷ ip ∷ []) w).1 j ≡ entry w j
    pub pipe_entry :
        (program : String) (args : List String) (input : String) (w : World) (j : RouteKey)
        → entry (pipe program args input w).1 j ≡ entry w j
    pub status_entry :
        (args : List String) (w : World) (j : RouteKey)
        → entry (status "resolvconf" args w).1 j ≡ entry w j

-- A machine on which no removal of an entry that is there fails.
pub record Removes {m : Machine} (k : Kernel m) : Type 0 where
  pub delete_there :
      (key : RouteKey) (t : Target) (w : m.World)
      → k.entry w key ≡ some t
      → ran m (delete_args key) w ≡ true
  pub delete_via_there :
      (key : RouteKey) (t : Target) (w : m.World)
      → k.entry w key ≡ some t
      → ran m (delete_via_args key t) w ≡ true

-- The key under which a route stands in the table.
unfoldable pub key_of : AddedRoute → RouteKey
key_of (net prefix tun_name family) = record { family = family; kind = "-net"; dest = prefix }
key_of (host ip family gateway) = record { family = family; kind = "-host"; dest = ip }
key_of (passthrough prefix family) = record { family = family; kind = "-net"; dest = prefix }

unfoldable pub has_key : RouteKey → List AddedRoute → Bool
has_key k [] = false
has_key k (r ∷ rs) = key_eq (key_of r) k || has_key k rs

pub has_key-append :
    (k : RouteKey) (rs ss : List AddedRoute) → has_key k (rs ++ ss) ≡ (has_key k rs || has_key k ss)
unfolding has_key
has_key-append k [] ss = refl
has_key-append k (r ∷ rs) ss = ground (arith, has_key-append k rs ss)
