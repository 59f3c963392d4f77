-- ===== src/Lib.antt =====
-- SmartGuard is a WireGuard client whose private key may stay on a smart card. This library models
-- the parts of it that decide where packets go, and what the client does to the machine that it
-- runs on.
--
-- The parts, and the files that model them:
--
-- * Routes (smartguard/src/route.rs): `Route.Command` has the data types and the calls of the
--   program `route`; `Route.Info` reads the output of `route -n get` (`get_route_info`);
--   `Route.Setup` has `setup_routes`, `setup_unconfigured_family` and `cleanup_routes`;
--   `Route.Recheck` has `recheck_routes`. `Route.Kernel` states what `route` documents of its
--   effect on the routing table. `Route.Adds`, `Route.Installed`, `Route.Installs`,
--   `Route.RecheckKeeps` and `Route.Lifecycle` are about the account of added routes and the table, where
--   a removal may fail (`Route.Lifecycle.Refused`); `Route.Sync` is about
--   the gateways after a recheck, `Route.Report` about the output that is read. `Route.Frame` shows
--   that these functions leave alone what `route` leaves alone.
-- * Resolver (smartguard/src/dns.rs): `Dns`, with the platform as an argument.
--   `Tunnel.Resolver.Programs` states what `resolvconf` and `scutil` document and what the
--   functions of Linux and of macOS do by it (`Tunnel.Resolver.Serving`); `Tunnel.Resolver` and
--   `Tunnel.Resolver.Restored` are about a run on either.
-- * Tunnel (smartguard/src/tunnel.rs): `Tunnel.Guard` has `CleanupGuard`, the part of `run_tunnel`
--   that fills it, the rechecks that move through it and its `Drop`; `Tunnel.Restore` is about the
--   routing table at the start and at the clean-up. `Tunnel.Keepalive` has the peers' clocks, the
--   keepalives of a tick and the test before a recheck; `Tunnel.Silence` and `Tunnel.HostIndex` are
--   about them. `Tunnel.Start` has `run_tunnel` up to its loop, over what the socket, the device
--   and the signals answer, and `apply_ipv6_addr`. `Tunnel.Loop` has the loop: an event is what
--   `tokio::select!` may take next, `on_event` a round, and `Reach` the rounds one after another;
--   `Tunnel.Loop.Guarded`, `Tunnel.Loop.Account`, `Tunnel.Loop.Across`, `Tunnel.Loop.Device`,
--   `Tunnel.Loop.Clock` and `Tunnel.Loop.Indexed` are about rounds,
--   `Tunnel.Whole` is about the whole run, and `Tunnel.Bounded` about the MTU and the buffer of the
--   loop.
-- * Peers (smartguard-crypto/src/lib.rs, smartguard-crypto/src/session/peer_net.rs):
--   `Peers.PeerNet` and `Peers.Build` have the routing table of the peers and `build_sessions`;
--   `Peers.Lpm` states what the tries of `iptrie` document, and `Peers.Owner` what the table
--   answers.
-- * Sessions (smartguard-crypto/src/session/handle.rs): `Session.Packet` and `Session.Handle` have
--   `ip_src`, `ip_dst`, `handle_extern` and `handle_intern`, on buffers as lists of bytes;
--   `Session.Buffer` has the laws of slices, `Session.Extern`, `Session.Intern` and `Session.Total`
--   the properties, and `Session.Across` is about a packet between two clients.
-- * Configuration (smartguard/src/config.rs): `Config` has the data and the readers of the private
--   key, of keys and of addresses, on what a TOML value presents itself as; `Config.Document` has
--   the readers that the attributes and types of the fields ask of serde, on the sections of a
--   file, `Config.Sections` those of a peer and of a whole file. `Config.Written` writes a
--   configuration as sections; `Config.Laws`, `Config.Gives`, `Config.Typed` and `Config.RoundTrip`
--   are about the readers, and `Tests.Samples` has the tests. `from_file` is in `Cli.Process`.
-- * Command line (smartguard/src/main.rs): `Cli` has `obtain_pin` and `cmd_up` up to the arguments
--   of the tunnel, `Cli.Smartcard` has `run_smartcard` up to the tunnel, `Cli.Process` has `main`,
--   which puts all parts together, `Cli.ShowCard` has `cmd_show_card`; `Cli.Laws`, `Cli.Primed`,
--   `Cli.LostKey`, `Cli.Typed` and `Cli.Restores` have the properties.
-- * Card (smartguard-crypto/src/thread.rs, smartguard-crypto/src/card.rs): `Card.Thread` has what
--   the thread that owns the card does (`open_and_verify`, `decipher_with_retry`, the loop of
--   `run`), `Card.Channel` the queue of requests to it, `Card.Handle` the cache in front of it,
--   `Card.Open` the start of the thread and the handle that waits for its replies, `Card.Listing`
--   has `list_cards`; `Card.Laws`, `Card.Opened`, `Card.Cache`, `Card.Tickets`, `Card.Fifo`,
--   `Card.Answers` and `Card.Asks` have properties.
--
-- `Cli` makes the arguments of the tunnel out of a `Config`; `Tunnel.Guard` calls the functions of
-- `Route.Setup`, `Route.Recheck` and `Dns`; the sessions look peers up in the table of `Peers`.
--
-- The machine (`Machine`) is a state and the runs of child processes as functions of it; every
-- function that runs one takes the state and returns it (`Prelude.Monads`). The crates `ipnet`,
-- `iptrie`, `rustyguard_core`, `card_backend_pcsc` and `openpgp_card` are records of operations
-- (`Net.IpNetLib`, `Peers.PeerNet.TrieLib`, `Peers.Build.CoreLib`, `Session.Handle.SessionLib`,
-- `Card.CardLib`), those that `config.rs` reads with are `Config.Document.Readers`, and what the
-- code relies on in them stands in records of its own (`Route.Kernel.Kernel`,
-- `Route.Kernel.Removes`, `Peers.Lpm.IsLpm`,
-- `Peers.Owner.Tables`, `Session.Extern.Layout`, `Session.Total.Fitting`, `Tunnel.Bounded.Sizes`,
-- `Session.Across.Paired`, `Tunnel.Resolver.Programs.Resolver`, `Tunnel.Resolver.Programs.Scutil`).
-- `std::net` is modelled in `Net`, its text form in `Net.Display`. A call that may panic returns a
-- `Run`. Loops are recursion on their lists, so no fuel is needed; only the decimals of a count
-- have the count as fuel (`Cli.ShowCard`), which has no more digits. The thread's turns are given
-- as a list (`Card.Channel.act_all`), and while the handle waits they are as many as the queue
-- needs (`Card.Channel.load`).
--
-- Which event comes next, what the kernel's calls answer and the instants are the environment's
-- choice: the theorems on the loop hold for all of them. The calls of `turn` at a tick are a
-- relation (`Tunnel.Loop.Turns`).
--
-- Not modelled: what is printed by other commands than `show-card`, the parser of the command line,
-- the TOML parser, and the cryptography.
pub mod Card
pub mod Cli
pub mod Config
pub mod Dns
pub mod Machine
pub mod Net
pub mod Peers
pub mod Prelude
pub mod Route
pub mod Session
pub mod Tests
pub mod Tunnel
