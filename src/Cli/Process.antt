-- ===== src/Cli/Process.antt =====
-- smartguard/src/main.rs and `Config::from_file` of smartguard/src/config.rs: the process from its
-- command to the tunnel's event loop, on the readers and cards and on the machine. The file system, the
-- TOML parser and the start of the runtime are parameters.
use smartguard.Prelude.{ℕ, String, Bool, Option, List, State, Run, returns, panics, if◌then◌else◌}
use smartguard.Config.{ReadError, Read, value, unread, Config}
use smartguard.Config.Document.{Readers}
use smartguard.Config.Sections.{Parsed, read_config, config_of}
use smartguard.Dns.{Platform}
use smartguard.Machine.{Machine}
use smartguard.Net.{SocketAddr, IpNetLib, IpNet}
use smartguard.Peers.{Key}
use smartguard.Peers.PeerNet.{TrieLib}
use smartguard.Session.Handle.{SessionLib}
use smartguard.Card.{Attempt, done, failed, Outcome, ok, err, CardLib}
use smartguard.Card.Open.{CardHandle}
use smartguard.Cli.{Result, Surroundings, KeySource, in_memory, on_card, Launch, cmd_up}
use smartguard.Cli.ShowCard.{cmd_show_card}
use smartguard.Cli.Smartcard.{
  Started, without_pin, without_runtime, without_card, start_panics, started, keys_of, with_card,
}
use smartguard.Tunnel.Start.{
  CoreOf, Answers, Begin, refused, begin_panicked, begun, Begun, begin_tunnel,
}

pub data Command : Type 0 where
  up : String → Command
  down status show_card : Command

pub data ConfigError : Type 0 where
  io : String → ConfigError
  parse : ReadError → ConfigError

pub data Loaded : Type 0 where
  loaded : Config → Loaded
  not_loaded : ConfigError → Loaded

-- `read_to_string`, and the crates that read a configuration.
pub record Files : Type 0 where
  pub read_to_string : String → Attempt String
  pub toml : String → Parsed
  pub readers : Readers

module _ (files : Files) where
  abbrev pub or_parse : Read Config → Loaded
  or_parse (unread e) = not_loaded (parse e)
  or_parse (value config) = loaded config

  unfoldable pub from_str : String → Loaded
  unfolding read_config
  from_str s = or_parse (config_of files.readers (files.toml s))

  abbrev pub or_io : Attempt String → Loaded
  or_io (failed e) = not_loaded (io e)
  or_io (done content) = from_str content

  unfoldable pub from_file : String → Loaded
  unfolding from_str
  from_file path = or_io (files.read_to_string path)

-- What holds the private key in the tunnel.
pub data Oracle (C : Type 0) : Type 0 where
  static_key : Key → Oracle C
  card_handle : CardHandle C → Oracle C

-- The process ends with a code, or by a panic, or comes to the tunnel's loop.
pub data Ending (B : Type 0) : Type 0 where
  exits : ℕ → Ending B
  panicked : Ending B
  in_loop : B → Ending B

-- What does not come from the machine: the files, base64, the prompt and the environment, what the start of the
-- tunnel answers, and whether the runtime and the card's thread are started.
pub record Outside (n : IpNetLib) : Type 0 where
  pub files : Files
  pub encode : Key → String
  pub surroundings : Surroundings
  pub answers : Answers n
  pub built : Bool
  pub spawned : Attempt (Unit {0})

module _ (platform : Platform) (m : Machine) (l : SessionLib) (t4 t6 : TrieLib l.PeerId)
    (turn : l.Sessions → Option (List ℕ × SocketAddr) × l.Sessions) (n : IpNetLib) (core : CoreOf l)
    (c : CardLib) (from_oracle : Oracle c.Card → core.Config)
    (parse_net : String → Option (IpNet n)) (o : Outside n) where
  abbrev pub Tunnel : Type 0
  Tunnel = Begun platform m l t4 t6 turn n core

  abbrev pub Both : Type 0
  Both = c.World × m.World

  abbrev pub as_ending : Begin Tunnel → Ending Tunnel
  as_ending refused = exits 1
  as_ending begin_panicked = panicked
  as_ending (begun b) = in_loop b

  -- `run_tunnel` with an oracle.
  unfoldable pub tunnel_with : Oracle c.Card → Launch n → State Both (Ending Tunnel)
  unfolding begin_tunnel
  tunnel_with oracle launch (cards, w) =
      let (r, w') =
        begin_tunnel platform m l t4 t6 turn n core o.answers (from_oracle oracle) launch.peers
          launch.tun_addrs launch.mtu launch.dns w in
      (as_ending r, (cards, w'))

  abbrev pub with_started : Launch n → Both → Started c.Card → Ending Tunnel × Both
  with_started launch b (without_pin e) = (exits 1, b)
  with_started launch b without_runtime = (exits 1, b)
  with_started launch b (without_card e) = (exits 1, b)
  with_started launch b start_panics = (panicked, b)
  with_started launch b (started key h) = tunnel_with (card_handle h) launch b

  abbrev pub with_source : Launch n → Both → KeySource → Ending Tunnel × Both
  with_source launch b (in_memory key) = tunnel_with (static_key key) launch b
  with_source launch b (on_card ident pin) =
      let (start, cards) = with_card c o.spawned ident pin (keys_of launch.peers) b.0 in
      with_started launch (cards, b.1) start

  -- The runtime is built, and the tunnel is run on it with the key's holder.
  unfoldable pub run_launch : Launch n → State Both (Ending Tunnel)
  unfolding tunnel_with with_card
  run_launch launch b = if o.built then with_source launch b launch.source else (exits 1, b)

  abbrev pub after_cmd_up : Both → Run (Result (Launch n)) → Ending Tunnel × Both
  after_cmd_up b panics = (panicked, b)
  after_cmd_up b (returns (Result.err e)) = (exits 1, b)
  after_cmd_up b (returns (Result.ok launch)) = run_launch launch b

  abbrev pub after_load : Both → Loaded → Ending Tunnel × Both
  after_load b (not_loaded e) = (exits 1, b)
  after_load b (loaded config) = after_cmd_up b (cmd_up n parse_net o.surroundings config)

  abbrev pub code_of : Outcome (List String) → ℕ
  code_of (ok lines) = 0
  code_of (err e) = 1

  -- `main`, up to the loop.
  unfoldable pub main : Command → State Both (Ending Tunnel)
  unfolding from_file run_launch cmd_up cmd_show_card
  main (up path) b = after_load b (from_file o.files path)
  main down b = (exits 0, b)
  main status b = (exits 0, b)
  main show_card (cards, w) =
      let (printed, cards') = cmd_show_card o.encode c cards in
      (exits (code_of printed), (cards', w))
