-- ===== src/Tests/Stuck.antt =====
-- A machine for smartguard/src/route.rs on which no `route delete` can be started. Its table takes
-- routes as that of the other machine does.
use smartguard.Prelude.{
  String, Bool, false, Option, none, List, ◌∷◌, State, str_eq, refl, if◌then◌else◌,
}
use smartguard.Machine.{Output, Machine}
use smartguard.Route.Command.{route_cmd}
use smartguard.Route.Kernel.{Kernel}
use smartguard.Tests.Toy.{Table, toy, toy_route, toy_add_fresh, toy_add_entry, toy_get_entry}

abbrev is_delete : List String → Bool
is_delete (n ∷ name ∷ rest) = str_eq name "delete"
is_delete args = false

abbrev stuck_route : List String → State Table (Option Output)
stuck_route args w = if is_delete args then (none, w) else toy_route args w

abbrev pub stuck : Machine
stuck = record { World = Table; route = stuck_route; pipe = toy.pipe; status = toy.status }

unfoldable pub stuck_kernel : Kernel stuck
unfolding route_cmd
stuck_kernel = record {
  entry = λ w. w;
  add_fresh = toy_add_fresh;
  add_entry = toy_add_entry;
  delete_entry = λ k w j. refl;
  delete_via_entry = λ k t w j. refl;
  get_entry = toy_get_entry;
  pipe_entry = λ program args input w j. refl;
  status_entry = λ args w j. refl;
}
