-- ===== src/Tests/Samples.antt =====
-- The tests of smartguard/src/config.rs: the sections of their texts, and what the tests say of them.
use smartguard.Prelude.{
  ℕ, String, Option, none, some, List, [], ◌∷◌, ◌≡◌, refl, map, length, str_eq, if◌then◌else◌,
}
use smartguard.Config.{
  Config, value, unread, ReadError, invalid_base64, wrong_length, invalid_type, unknown_field,
  software, smartcard, smartcard_auto, text, table, array, pos, read_bind,
}
use smartguard.Config.Document.{Value, integer, shown, Entries, Document, Readers}
use smartguard.Config.Sections.{read_config}
use smartguard.Net.{IpAddr, SocketAddr}
use smartguard.Net.Display.{display_ip}
use smartguard.Peers.{Key}

abbrev first_key : Key
first_key =
    200 ∷ 9 ∷ 243 ∷ 229 ∷ 49 ∷ 126 ∷ 149 ∷ 117 ∷ 201 ∷ 181 ∷ 237 ∷ 120 ∷ 182 ∷ 56 ∷ 183 ∷ 206 ∷ 83
    ∷ 13 ∷ 171 ∷ 232 ∷ 93 ∷ 218 ∷ 182 ∷ 20 ∷ 34 ∷ 2 ∷ 65 ∷ 128 ∷ 29 ∷ 223 ∷ 6 ∷ 105 ∷ []

abbrev second_key : Key
second_key =
    197 ∷ 50 ∷ 1 ∷ 3 ∷ 154 ∷ 219 ∷ 161 ∷ 75 ∷ 231 ∷ 31 ∷ 136 ∷ 109 ∷ 161 ∷ 216 ∷ 219 ∷ 233 ∷ 238
    ∷ 189 ∷ 237 ∷ 8 ∷ 203 ∷ 17 ∷ 27 ∷ 117 ∷ 52 ∷ 0 ∷ 120 ∷ 153 ∷ 154 ∷ 169 ∷ 240 ∷ 56 ∷ []

-- The texts of the tests, and what the crates read in them.
abbrev decode : String → Option (List ℕ)
decode s =
    if str_eq s "yAnz5TF+lXXJte14tji3zlMNq+hd2rYUIgJBgB3fBmk="
    then some first_key
    else if str_eq s "xTIBA5rboUvnH4htodjb6e697QjLERt1NAB4mZqp8Dg="
    then some second_key
    else if str_eq s "dG9vc2hvcnQ="
    then some (116 ∷ 111 ∷ 111 ∷ 115 ∷ 104 ∷ 111 ∷ 114 ∷ 116 ∷ [])
    else none

abbrev parse_ip : String → Option IpAddr
parse_ip s =
    if str_eq s "1.1.1.1"
    then some (IpAddr.v4 1 1 1 1)
    else if str_eq s "8.8.8.8"
    then some (IpAddr.v4 8 8 8 8)
    else if str_eq s "2606:4700:4700::1111"
    then some (IpAddr.v6 (38 ∷ 6 ∷ 71 ∷ 0 ∷ 71 ∷ 0 ∷ 0 ∷ 0 ∷ 0 ∷ 0 ∷ 0 ∷ 0 ∷ 0 ∷ 0 ∷ 17 ∷ 17 ∷ []))
    else none

abbrev parse_endpoint : String → Option SocketAddr
parse_endpoint s =
    if str_eq s "203.0.113.2:51820"
    then some (record { ip = IpAddr.v4 203 0 113 2; port = 51820 })
    else if str_eq s "192.168.1.1:51820"
    then some (record { ip = IpAddr.v4 192 168 1 1; port = 51820 })
    else none

abbrev readers : Readers
readers = record {
  decode = decode;
  parse_ip = parse_ip;
  parse_endpoint = parse_endpoint;
  other_settings = λ p. unread invalid_type;
}

abbrev auto_key : Value
auto_key = shown (table (("smartcard", some "auto") ∷ []))

abbrev with_auto : Entries → Document
with_auto entries = record { interface = some (("private_key", auto_key) ∷ entries); peers = none }

abbrev parse_software_key : Document
parse_software_key = record {
  interface = some (
      ("private_key", shown (text "yAnz5TF+lXXJte14tji3zlMNq+hd2rYUIgJBgB3fBmk="))
      ∷ ("listen_port", integer (pos 51820))
      ∷ ("address", shown (text "10.0.0.1/24"))
      ∷ []);
  peers = some (
      (("public_key", shown (text "xTIBA5rboUvnH4htodjb6e697QjLERt1NAB4mZqp8Dg="))
        ∷ ("endpoint", shown (text "203.0.113.2:51820"))
        ∷ ("allowed_ips", shown (array (some "10.0.0.2/32" ∷ [])))
        ∷ ("persistent_keepalive", integer (pos 25))
        ∷ [])
      ∷ []);
}

abbrev parse_smartcard_explicit : Document
parse_smartcard_explicit = record {
  interface = some (
      ("private_key", shown (table (("smartcard", some "0006:15422467") ∷ [])))
      ∷ ("listen_port", integer (pos 51820))
      ∷ ("smartcard", shown (table (("pin_entry", some "env:WG_PIN") ∷ [])))
      ∷ []);
  peers = none;
}

abbrev parse_smartcard_auto : Document
parse_smartcard_auto = with_auto []

abbrev parse_no_peers : Document
parse_no_peers = with_auto []

abbrev parse_multiple_peers : Document
parse_multiple_peers = record {
  interface = some (("private_key", auto_key) ∷ []);
  peers = some (
      (("public_key", shown (text "xTIBA5rboUvnH4htodjb6e697QjLERt1NAB4mZqp8Dg="))
        ∷ ("allowed_ips", shown (array (some "10.0.0.2/32" ∷ [])))
        ∷ [])
      ∷ (("public_key", shown (text "yAnz5TF+lXXJte14tji3zlMNq+hd2rYUIgJBgB3fBmk="))
          ∷ ("endpoint", shown (text "192.168.1.1:51820"))
          ∷ ("allowed_ips", shown (array (some "10.0.0.3/32" ∷ some "192.168.1.0/24" ∷ [])))
          ∷ [])
      ∷ []);
}

abbrev parse_default_smartcard_settings : Document
parse_default_smartcard_settings = with_auto []

abbrev parse_peer_with_preshared_key : Document
parse_peer_with_preshared_key = record {
  interface = some (("private_key", auto_key) ∷ []);
  peers = some (
      (("public_key", shown (text "xTIBA5rboUvnH4htodjb6e697QjLERt1NAB4mZqp8Dg="))
        ∷ ("preshared_key", shown (text "yAnz5TF+lXXJte14tji3zlMNq+hd2rYUIgJBgB3fBmk="))
        ∷ ("allowed_ips", shown (array (some "10.0.0.2/32" ∷ [])))
        ∷ [])
      ∷ []);
}

abbrev parse_address_single_string_legacy : Document
parse_address_single_string_legacy = with_auto (("address", shown (text "10.0.0.1/24")) ∷ [])

abbrev parse_address_dual_stack : Document
parse_address_dual_stack =
    with_auto (("address", shown (array (some "10.0.0.1/24" ∷ some "fd00::1/64" ∷ []))) ∷ [])

abbrev parse_dns_servers : Document
parse_dns_servers = with_auto (
    ("dns", shown (array (some "1.1.1.1" ∷ some "8.8.8.8" ∷ some "2606:4700:4700::1111" ∷ [])))
    ∷ [])

abbrev parse_dns_default_empty : Document
parse_dns_default_empty = with_auto []

abbrev with_key : Value → Document
with_key key = record { interface = some (("private_key", key) ∷ []); peers = none }

abbrev reject_invalid_base64_key : Document
reject_invalid_base64_key = with_key (shown (text "not-valid-base64!!!"))

abbrev reject_wrong_length_key : Document
reject_wrong_length_key = with_key (shown (text "dG9vc2hvcnQ="))

abbrev reject_unknown_private_key_field : Document
reject_unknown_private_key_field = with_key (shown (table (("file", some "/path/to/key") ∷ [])))

abbrev Reads : Document → (Config → Type 0) → Type 0
Reads document Asserted =
    (config : Config) × (read_config readers document ≡ value config) × Asserted config

abbrev IsRefused : Document → Type 0
IsRefused document = (reason : ReadError) × (read_config readers document ≡ unread reason)

abbrev dns_texts : Config → List String
dns_texts c = map display_ip c.interface.dns

keys_tests :
    Reads parse_software_key (λ c.
      (c.interface.private_key ≡ software first_key)
      × (c.interface.listen_port ≡ some 51820)
      × (map (λ p. p.endpoint) c.peers ≡ parse_endpoint "203.0.113.2:51820" ∷ [])
      × (map (λ p. p.persistent_keepalive) c.peers ≡ some 25 ∷ []))
    × Reads parse_smartcard_explicit (λ c.
      (c.interface.private_key ≡ smartcard "0006:15422467")
      × (c.interface.smartcard.pin_entry ≡ "env:WG_PIN"))
    × Reads parse_smartcard_auto (λ c. c.interface.private_key ≡ smartcard_auto)
    × Reads parse_default_smartcard_settings (λ c. c.interface.smartcard.pin_entry ≡ "prompt")
unfolding read_config read_bind
keys_tests =
    ((_, refl, (refl, refl, refl, refl)), (_, refl, (refl, refl)), (_, refl, refl), (_, refl, refl))

peers_tests :
    Reads parse_no_peers (λ c. c.peers ≡ [])
    × Reads parse_multiple_peers (λ c.
      (map (λ p. p.endpoint) c.peers ≡ none ∷ parse_endpoint "192.168.1.1:51820" ∷ [])
      × (map (λ p. length p.allowed_ips) c.peers ≡ 1 ∷ 2 ∷ []))
    × Reads parse_peer_with_preshared_key
        (λ c. map (λ p. p.preshared_key) c.peers ≡ some first_key ∷ [])
unfolding read_config read_bind
peers_tests = ((_, refl, refl), (_, refl, (refl, refl)), (_, refl, refl))

addresses_tests :
    Reads parse_address_single_string_legacy (λ c. c.interface.address ≡ "10.0.0.1/24" ∷ [])
    × Reads parse_address_dual_stack (λ c. c.interface.address ≡ "10.0.0.1/24" ∷ "fd00::1/64" ∷ [])
    × Reads parse_dns_servers
        (λ c. dns_texts c ≡ "1.1.1.1" ∷ "8.8.8.8" ∷ "2606:4700:4700::1111" ∷ [])
    × Reads parse_dns_default_empty (λ c. c.interface.dns ≡ [])
unfolding read_config read_bind display_ip
addresses_tests = ((_, refl, refl), (_, refl, refl), (_, refl, refl), (_, refl, refl))

errors_tests :
    IsRefused reject_invalid_base64_key
    × IsRefused reject_wrong_length_key
    × IsRefused reject_unknown_private_key_field
unfolding read_config read_bind
errors_tests = ((invalid_base64, refl), (wrong_length, refl), (unknown_field "file", refl))
