-- ===== src/Tests/Values.antt =====
-- The theorems on smartguard/src/config.rs and main.rs at one configuration.
use smartguard.Prelude.{
  ℕ, String, Option, none, some, List, [], ◌∷◌, ◌≡◌, ◌≢◌, ◌↔◌, ◌⊎◌, replicate, panics, All, length,
  ◌<>◌,
}
use smartguard.Config.{
  Config, value, text, table, software, deserialize_private_key, smartcard_auto,
}
use smartguard.Config.Laws.{
  card_entries, last_or, named_card, deserialize_private_key-software_iff,
  deserialize_private_key-table_iff,
}
use smartguard.Cli.{ok, Surroundings, obtain_pin, cmd_up}
use smartguard.Cli.Laws.{Parses, IsReadable, obtain_pin_iff, cmd_up-eq-panics_iff}
use smartguard.Net.{IpNet}
use smartguard.Peers.{Key}
use smartguard.Tests.Toy.{toy_nets}

abbrev key : Key
key = replicate 32 7

-- Every text is the base64 form of the same 32 bytes.
abbrev decode : String → Option (List ℕ)
decode s = some key

deserialize_private_key-software_iff_example :
    (deserialize_private_key decode (text "key") ≡ value (software key))
    ↔ ((s : String) × (text "key" ≡ text s) × (decode s ≡ some key) × (length key ≡ 32))
deserialize_private_key-software_iff_example =
    deserialize_private_key-software_iff decode (text "key") key

abbrev auto_entries : List (String × Option String)
auto_entries = ("smartcard", some "0006:1234") ∷ ("smartcard", some "auto") ∷ []

deserialize_private_key-table_iff_example :
    (deserialize_private_key decode (table auto_entries) ≡ value smartcard_auto) ↔ (
      (ss : List String) × (ident : String) × (auto_entries ≡ card_entries ss)
      × (last_or none ss ≡ some ident)
      × (smartcard_auto ≡ named_card ident))
deserialize_private_key-table_iff_example =
    deserialize_private_key-table_iff decode auto_entries smartcard_auto

abbrev surroundings : Surroundings
surroundings = record { prompt = none; env = λ var_name. some "123456" }

abbrev entry : String
entry = "env:CARD_PIN"

obtain_pin_iff_example : (obtain_pin surroundings entry ≡ ok "123456") ↔ (
    ((entry ≡ "prompt") × (surroundings.prompt ≡ some "123456"))
    ⊎ ((var_name : String) × (entry ≡ "env:" <> var_name)
        × (surroundings.env var_name ≡ some "123456")))
obtain_pin_iff_example = obtain_pin_iff surroundings entry "123456"

-- A network is read from every text but the empty one.
abbrev parse : String → Option (IpNet toy_nets)
parse s = elim s [ String.[] ↦ none | String.◌∷◌ c t ↦ some (IpNet.v4 (String.◌∷◌ c t, 8)) ]

abbrev config : Config
config = record {
  interface = record {
    private_key = software key;
    listen_port = none;
    address = "10.0.0.2/24" ∷ [];
    mtu = none;
    dns = [];
    smartcard = record { pin_entry = "prompt" };
  };
  peers =
      record {
        public_key = replicate 32 1;
        preshared_key = none;
        endpoint = none;
        allowed_ips = "0.0.0.0/0" ∷ "" ∷ [];
        persistent_keepalive = some 0;
      }
      ∷ [];
}

cmd_up-eq-panics_iff_example : (cmd_up toy_nets parse surroundings config ≡ panics) ↔ (
    (config.interface.address ≢ [])
    × All (Parses toy_nets parse) config.interface.address
    × ¬ All (IsReadable toy_nets parse) config.peers)
cmd_up-eq-panics_iff_example = cmd_up-eq-panics_iff toy_nets parse surroundings config
