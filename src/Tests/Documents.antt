-- ===== src/Tests/Documents.antt =====
-- The tests of smartguard/src/config.rs, on the sections that their texts say, and its theorems at one
-- configuration.
use smartguard.Prelude.{
  ℕ, String, Option, none, some, List, [], ◌∷◌, ◌≡◌, refl, replicate, arith, str_eq, if◌then◌else◌,
}
use smartguard.Config.{
  Config, Read, value, unread, invalid_base64, wrong_length, invalid_type, out_of_range,
  unknown_field, missing_field, duplicate_field, text, table, pos, negsuc, software, smartcard_auto,
  read_bind,
}
use smartguard.Config.Document.{Value, integer, shown, Entries, Readers}
use smartguard.Config.RoundTrip.{read_config-document_of}
use smartguard.Config.Sections.{read_config}
use smartguard.Config.Written.{Writers, document_of}
use smartguard.Net.{IpAddr}
use smartguard.Peers.{Key}
use smartguard.Tests.ToySessions.{somewhere}

abbrev pub key : Key
key = replicate 32 7

-- One text of 32 bytes, one of 8, and nothing else.
abbrev decode : String → Option (List ℕ)
decode s =
    if str_eq s "key"
    then some key
    else if str_eq s "dG9vc2hvcnQ="
    then some (replicate 8 7)
    else none

abbrev parse_ip : String → Option IpAddr
parse_ip s = if str_eq s "1.1.1.1" then some (IpAddr.v4 1 1 1 1) else none

abbrev pub toy_readers : Readers
toy_readers = record {
  decode = decode;
  parse_ip = parse_ip;
  parse_endpoint = λ s. some somewhere;
  other_settings = λ p. unread invalid_type;
}

abbrev pub auto_key : Value
auto_key = shown (table (("smartcard", some "auto") ∷ []))

abbrev read_with : Entries → Option (List Entries) → Read Config
read_with interface peers =
    read_config toy_readers (record { interface = some interface; peers = peers })

abbrev empty_config : Config
empty_config = record {
  interface = record {
    private_key = smartcard_auto;
    listen_port = none;
    address = [];
    mtu = none;
    dns = [];
    smartcard = record { pin_entry = "prompt" };
  };
  peers = [];
}

no_peers_test : read_with (("private_key", auto_key) ∷ []) none ≡ value empty_config
unfolding read_config read_bind
no_peers_test = refl

interface_tests :
    (read_with (("private_key", shown (text "not-valid-base64!!!")) ∷ []) none
      ≡ unread invalid_base64)
    × (read_with (("private_key", shown (text "dG9vc2hvcnQ=")) ∷ []) none ≡ unread wrong_length)
    × (read_with (("private_key", shown (table (("file", some "/path/to/key") ∷ []))) ∷ []) none
        ≡ unread (unknown_field "file"))
    × (read_with [] none ≡ unread (missing_field "private_key"))
    × (read_with (("private_key", auto_key) ∷ ("listen_port", integer (pos 65536)) ∷ []) none
        ≡ unread out_of_range)
    × (read_with
          (("private_key", auto_key)
            ∷ ("mtu", integer (pos 1400))
            ∷ ("MTU", integer (pos 1500))
            ∷ [])
          none
        ≡ unread (duplicate_field "mtu"))
unfolding read_config read_bind
interface_tests = (refl, refl, refl, refl, refl, refl)

abbrev configuration : Config
configuration = record {
  interface = record {
    private_key = software key;
    listen_port = some 51820;
    address = "10.0.0.1/24" ∷ "fd00::1/64" ∷ [];
    mtu = some (negsuc 0);
    dns = IpAddr.v4 1 1 1 1 ∷ [];
    smartcard = record { pin_entry = "env:WG_PIN" };
  };
  peers =
      record {
        public_key = key;
        preshared_key = some key;
        endpoint = some somewhere;
        allowed_ips = "10.0.0.3/32" ∷ "192.168.1.0/24" ∷ [];
        persistent_keepalive = some 25;
      }
      ∷ [];
}

abbrev toy_writers : Writers
toy_writers = record {
  encode = λ k. "key";
  show_ip = λ ip. "1.1.1.1";
  show_endpoint = λ a. "203.0.113.2:51820";
}

configuration_test :
    read_config toy_readers (document_of toy_writers configuration) ≡ value configuration
unfolding read_config read_bind
configuration_test = refl

read_config-document_of_example :
    read_config toy_readers (document_of toy_writers configuration) ≡ value configuration
read_config-document_of_example =
    read_config-document_of toy_readers toy_writers configuration (λ e. cc)
      ((refl, omega arith, omega arith), ((refl, refl, omega arith), tt))
      (refl, (refl, tt), ((refl, refl, refl), tt))
