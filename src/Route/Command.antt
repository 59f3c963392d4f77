-- ===== src/Route/Command.antt =====
-- smartguard/src/route.rs: the data types, and the calls of the program `route`.
use smartguard.Machine.{Output, Machine}
use smartguard.Prelude.{
  String, Bool, true, false, Option, none, some, List, [], ◌∷◌, State, ◌>>=◌, pure,
}

pub data Family : Type 0 where
  v4 v6 : Family

-- `Family::route_flag`.
unfoldable pub route_flag : Family → String
route_flag Family.v4 = "-inet"
route_flag Family.v6 = "-inet6"

pub data AddedRoute : Type 0 where
  net : (prefix tun_name : String) (family : Family) → AddedRoute
  host : (ip : String) (family : Family) (gateway : Option String) → AddedRoute
  passthrough : (prefix : String) (family : Family) → AddedRoute

abbrev pub succeeded : Option Output → Bool
succeeded none = false
succeeded (some o) = o.success

module _ (m : Machine) where
  open m use {World, route}

  unfoldable pub route_cmd : List String → State World Bool
  route_cmd args = do out ← route args; pure (succeeded out)

  abbrev pub when_added : Bool → AddedRoute → Option AddedRoute
  when_added true r = some r
  when_added false r = none

  unfoldable pub add_net : String → String → Family → State World (Option AddedRoute)
  unfolding route_cmd
  add_net tun_name prefix family = do
    added ←
        route_cmd
          ("-n" ∷ "add" ∷ route_flag family ∷ "-net" ∷ prefix ∷ "-interface" ∷ tun_name ∷ [])
    pure (when_added added (net prefix tun_name family))
