-- ===== src/Tests/Process.antt =====
-- The theorem on the whole process of smartguard/src/main.rs, at a configuration with a key on a card.
use smartguard.Prelude.{
  returns, strip_prefix, ℕ, String, Bool, true, false, Option, none, some, [], ◌∷◌, ◌≡◌, refl,
}
use smartguard.Config.{Config, smartcard, read_bind, pos, text, table, array}
use smartguard.Config.Document.{Document, shown, integer}
use smartguard.Config.Sections.{sections}
use smartguard.Tests.Documents.{toy_readers, key}
use smartguard.Dns.{macos}
use smartguard.Net.{IpNet}
use smartguard.Card.{done}
use smartguard.Cli.Process.{
  up, Files, Oracle, Outside, Ending, exits, panicked, in_loop, main, from_file, loaded,
}
use smartguard.Cli.{ok, on_card, Launch, obtain_pin, cmd_up}
use smartguard.Cli.Typed.{IsTypedLaunch, up-IsTypedLaunch}
use smartguard.Cli.Restores.{LeavesTable, IsLaunch, main-LeavesTable}
use smartguard.Peers.PeerNet.{insert}
use smartguard.Tests.Toy.{toy, toy_kernel, toy_removes, toy_nets, empty_table}
use smartguard.Tests.ToySessions.{toy_trie, toy_sessions, somewhere}
use smartguard.Tests.Cards.{toy_cards}
use smartguard.Tests.Loops.{toy_turn, toy_core_of, answers}

-- The card `0006:2`, with its PIN in a variable, and one peer.
abbrev document : Document
document = record {
  interface = some (
      ("private_key", shown (table (("smartcard", some "0006:2") ∷ [])))
      ∷ ("address", shown (text "10.0.0.2/32"))
      ∷ ("MTU", integer (pos 1400))
      ∷ ("smartcard", shown (table (("pin_entry", some "env:CARD_PIN") ∷ [])))
      ∷ []);
  peers = some (
      (("public_key", shown (text "key"))
        ∷ ("endpoint", shown (text "203.0.113.2:51820"))
        ∷ ("allowed_ips", shown (array (some "0.0.0.0/0" ∷ [])))
        ∷ ("persistent_keepalive", integer (pos 25))
        ∷ [])
      ∷ []);
}

abbrev files : Files
files = record {
  read_to_string = λ path. done "";
  toml = λ content. sections document;
  readers = toy_readers;
}

abbrev outside : Outside toy_nets
outside = record {
  files = files;
  encode = λ k. "key";
  surroundings = record { prompt = none; env = λ var_name. some "123456" };
  answers = answers;
  built = true;
  spawned = done tt;
}

abbrev parse_net : String → Option (IpNet toy_nets)
parse_net s = some (IpNet.v4 (s, 0))

abbrev no_config : Oracle String → ℕ
no_config oracle = 0

main-LeavesTable_example :
    let (ending, b') =
      main macos toy toy_sessions toy_trie toy_trie toy_turn toy_nets toy_core_of toy_cards
        no_config parse_net outside
        (up "smartguard.toml")
        (0, empty_table) in
    LeavesTable macos toy_kernel toy_sessions toy_trie toy_trie toy_turn toy_nets toy_core_of
      toy_cards no_config parse_net outside
      (IsLaunch macos toy_kernel toy_sessions toy_trie toy_trie toy_turn toy_nets toy_core_of
        toy_cards no_config parse_net outside
        (up "smartguard.toml"))
      empty_table
      ending
      b'.1
main-LeavesTable_example =
    main-LeavesTable macos toy_kernel toy_sessions toy_trie toy_trie toy_turn toy_nets toy_core_of
      toy_cards no_config parse_net outside toy_removes (up "smartguard.toml") (0, empty_table)

-- The card takes the PIN when it is opened and when its peer is primed, and the loop is reached.
abbrev reached : {B : Type 0} → Ending B → Bool
reached (exits code) = false
reached panicked = false
reached (in_loop b) = true

reached_test :
    let (ending, b') =
      main macos toy toy_sessions toy_trie toy_trie toy_turn toy_nets toy_core_of toy_cards
        no_config parse_net outside
        (up "smartguard.toml")
        (0, empty_table) in
    (reached ending ≡ true) × (b'.0 ≡ 2)
unfolding main strip_prefix insert read_bind
reached_test = (refl, refl)

-- The configuration and the arguments that the document gives.
abbrev configuration : Config
configuration = record {
  interface = record {
    private_key = smartcard "0006:2";
    listen_port = none;
    address = "10.0.0.2/32" ∷ [];
    mtu = some (pos 1400);
    dns = [];
    smartcard = record { pin_entry = "env:CARD_PIN" };
  };
  peers =
      record {
        public_key = key;
        preshared_key = none;
        endpoint = some somewhere;
        allowed_ips = "0.0.0.0/0" ∷ [];
        persistent_keepalive = some 25;
      }
      ∷ [];
}

abbrev launch : Launch toy_nets
launch = record {
  source = on_card "0006:2" "123456";
  peers =
      record {
        public_key = key;
        preshared_key = none;
        endpoint = some somewhere;
        allowed_ips = IpNet.v4 ("0.0.0.0/0", 0) ∷ [];
        persistent_keepalive = some 25;
      }
      ∷ [];
  listen_port = 51820;
  tun_addrs = IpNet.v4 ("10.0.0.2/32", 0) ∷ [];
  mtu = pos 1400;
  dns = [];
}

loaded_test : from_file files "smartguard.toml" ≡ loaded configuration
unfolding from_file read_bind
loaded_test = refl

launch_test : cmd_up toy_nets parse_net outside.surroundings configuration ≡ returns (ok launch)
unfolding cmd_up obtain_pin strip_prefix
launch_test = refl

up-IsTypedLaunch_example : IsTypedLaunch toy_nets parse_net launch
up-IsTypedLaunch_example =
    up-IsTypedLaunch toy_nets parse_net files outside.surroundings "smartguard.toml" "" document
      configuration launch refl refl loaded_test launch_test
