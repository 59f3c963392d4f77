-- ===== src/Route/Info.antt =====
-- smartguard/src/route.rs: `get_route_info`, which reads the output of `route -n get`.
use smartguard.Prelude.{
  String, Option, none, some, List, [], ◌∷◌, State, ◌>>=◌, pure, if◌then◌else◌, lines, trim,
  strip_prefix, is_empty,
}
use smartguard.Machine.{Output, Machine}
use smartguard.Route.Command.{Family, route_flag}

pub record RouteInfo : Type 0 where
  pub gateway : Option String
  pub interface : Option String

-- The value after a field's name replaces the value so far, unless it is empty.
abbrev pub non_empty_or : String → Option String → Option String
non_empty_or value old = if is_empty value then old else some value

-- One round of the loop over the lines, on a line that is trimmed.
unfoldable pub read_line : RouteInfo → String → RouteInfo
read_line info line = elim (strip_prefix "gateway:" line) [
  | some gw ↦ record info { gateway = non_empty_or (trim gw) info.gateway }
  | none ↦ elim (strip_prefix "interface:" line) [
    | some iface ↦ record info { interface = non_empty_or (trim iface) info.interface }
    | none ↦ info
  ]
]

unfoldable pub read_lines : RouteInfo → List String → RouteInfo
unfolding read_line
read_lines info [] = info
read_lines info (line ∷ ls) = read_lines (read_line info (trim line)) ls

unfoldable pub parse_info : String → RouteInfo
unfolding read_lines
parse_info stdout = read_lines (record { gateway = none; interface = none }) (lines stdout)

abbrev read_output : Option Output → Option RouteInfo
read_output none = none
read_output (some o) = if o.success then some (parse_info o.stdout) else none

module _ (m : Machine) where
  open m use {World, route}

  unfoldable pub get_route_info : String → Family → State World (Option RouteInfo)
  get_route_info ip family = do
    out ← route ("-n" ∷ "get" ∷ route_flag family ∷ ip ∷ [])
    pure (read_output out)

  abbrev gateway_of : Option RouteInfo → Option String
  gateway_of none = none
  gateway_of (some info) = info.gateway

  unfoldable pub current_default_gateway : Family → State World (Option String)
  unfolding get_route_info
  current_default_gateway family = do info ← get_route_info "default" family; pure (gateway_of info)
