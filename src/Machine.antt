-- ===== src/Machine.antt =====
-- The machine that smartguard/src/route.rs, dns.rs and tunnel.rs act on through child processes.
use smartguard.Prelude.{String, Bool, Option, List, State}

-- What `std::process::Command::output` gives for a process that ran.
pub record Output : Type 0 where
  pub success : Bool
  pub stdout : String

-- How a child with a piped standard input ends: it is not started, it does not take its input, it
-- cannot be waited for, or it exits, with success or without.
pub data Piped : Type 0 where
  spawn_failed write_failed wait_failed : Piped
  exited : Bool → Piped

-- The state of the machine; a run of `route` with given arguments; a run of a program with
-- arguments and a text as its input; and a run for the exit status alone. `none`: not started.
pub record Machine : Type 1 where
  pub World : Type 0
  pub route : List String → State World (Option Output)
  pub pipe : String → List String → String → State World Piped
  pub status : String → List String → State World (Option Bool)
