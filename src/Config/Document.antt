-- ===== src/Config/Document.antt =====
-- smartguard/src/config.rs: the readers that the attributes of `Config`, `Interface`, `Peer` and
-- `SmartcardSettings` ask of serde. An entry that has no field is skipped, a key may have an alias, and
-- a field is required, optional or has a default. Which of several errors is reported is left open.
use smartguard.Config.{
  Read, value, unread, invalid_type, out_of_range, bad_address, missing_field, duplicate_field,
  read_bind, Presented, text, table, array, something_else, ℤ, pos, negsuc, SmartcardSettings,
  Interface, default_pin_entry, text_or_fail, deserialize_key_base64, deserialize_option_key_base64,
  deserialize_private_key, visit_seq, deserialize_string_or_vec,
}
use smartguard.Net.{IpAddr, SocketAddr}
use smartguard.Prelude.{
  ℕ, String, Option, none, some, List, [], ◌∷◌, ◌||◌, ltb, str_eq, if◌then◌else◌,
}

-- A value of a section: a number, or what another value is presented as.
pub data Value : Type 0 where
  integer : ℤ → Value
  shown : Presented → Value

abbrev pub presented : Value → Presented
presented (integer n) = something_else
presented (shown p) = p

-- A section's keys, each of them once.
abbrev pub Entries : Type 0
Entries = List (String × Value)

-- The sections of a file.
pub record Document : Type 0 where
  pub interface : Option Entries
  pub peers : Option (List Entries)

-- The crates that the readers use: base64, the addresses of `std::net`, and what the crate `toml` and
-- serde make of settings that are written as no table.
pub record Readers : Type 0 where
  pub decode : String → Option (List ℕ)
  pub parse_ip : String → Option IpAddr
  pub parse_endpoint : String → Option SocketAddr
  pub other_settings : Presented → Read SmartcardSettings

-- The value under a key or its alias; both at once are a duplicate.
abbrev pub once_more : String → Value → Option Value → Read (Option Value)
once_more key v none = value (some v)
once_more key v (some w) = unread (duplicate_field key)

unfoldable pub find_field : String → String → Entries → Read (Option Value)
find_field key other [] = value none
find_field key other ((k, v) ∷ entries) =
    let rest = find_field key other entries in
    if str_eq k key || str_eq k other then read_bind rest (once_more key v) else rest

-- A field without `default` that is no `Option`.
abbrev pub required : {A : Type 0} → String → (Value → Read A) → Option Value → Read A
required key read none = unread (missing_field key)
required key read (some v) = read v

abbrev pub optional : {A : Type 0} → (Value → Read A) → Option Value → Read (Option A)
optional read none = value none
optional read (some v) = read_bind (read v) λ a. value (some a)

abbrev pub or_default : {A : Type 0} → A → (Value → Read A) → Option Value → Read A
or_default d read none = value d
or_default d read (some v) = read v

unfoldable pub read_u16 : Value → Read ℕ
read_u16 (integer (pos n)) = if ltb n 65536 then value n else unread out_of_range
read_u16 (integer (negsuc n)) = unread out_of_range
read_u16 (shown p) = unread invalid_type

unfoldable pub read_i32 : Value → Read ℤ
read_i32 (integer (pos n)) = if ltb n 2147483648 then value (pos n) else unread out_of_range
read_i32 (integer (negsuc n)) = if ltb n 2147483648 then value (negsuc n) else unread out_of_range
read_i32 (shown p) = unread invalid_type

abbrev pub text_of : Presented → Option String
text_of (text s) = some s
text_of (table entries) = none
text_of (array vs) = none
text_of something_else = none

unfoldable pub read_string : Value → Read String
read_string v = text_or_fail (text_of (presented v))

-- `Vec<String>`.
abbrev pub strings_of : Presented → Read (List String)
strings_of (array vs) = visit_seq vs
strings_of (text s) = unread invalid_type
strings_of (table entries) = unread invalid_type
strings_of something_else = unread invalid_type

unfoldable pub read_strings : Value → Read (List String)
unfolding visit_seq
read_strings v = strings_of (presented v)

abbrev pub or_bad_address : {A : Type 0} → Option A → Read A
or_bad_address none = unread bad_address
or_bad_address (some a) = value a

module _ (r : Readers) where
  unfoldable pub parse_ips : List String → Read (List IpAddr)
  parse_ips [] = value []
  parse_ips (s ∷ ss) =
      read_bind (or_bad_address (r.parse_ip s))
        λ ip. read_bind (parse_ips ss) λ ips. value (ip ∷ ips)

  -- `Vec<IpAddr>`.
  unfoldable pub read_ips : Value → Read (List IpAddr)
  unfolding read_strings parse_ips
  read_ips v = read_bind (read_strings v) parse_ips

  unfoldable pub read_endpoint : Value → Read SocketAddr
  unfolding read_string
  read_endpoint v = read_bind (read_string v) λ s. or_bad_address (r.parse_endpoint s)

  unfoldable pub read_key : Value → Read (List ℕ)
  unfolding read_string deserialize_key_base64
  read_key v = read_bind (read_string v) (deserialize_key_base64 r.decode)

  -- The field is there: its reader is called on a text.
  unfoldable pub read_preshared : Value → Read (Option (List ℕ))
  unfolding read_string deserialize_option_key_base64
  read_preshared v = read_bind (read_string v) λ s. deserialize_option_key_base64 r.decode (some s)

  -- `pin_entry` of a table, each key once, with its default.
  abbrev pub pin_entry_of : List (String × Option String) → Read String
  pin_entry_of [] = value default_pin_entry
  pin_entry_of ((k, v) ∷ entries) =
      let rest = pin_entry_of entries in if str_eq k "pin_entry" then text_or_fail v else rest

  abbrev pub settings_of : Presented → Read SmartcardSettings
  settings_of (table entries) =
      read_bind (pin_entry_of entries) λ pin_entry. value (record { pin_entry = pin_entry })
  settings_of (text s) = r.other_settings (text s)
  settings_of (array vs) = r.other_settings (array vs)
  settings_of something_else = r.other_settings something_else

  unfoldable pub read_settings : Value → Read SmartcardSettings
  read_settings v = settings_of (presented v)

  abbrev pub default_settings : SmartcardSettings
  default_settings = record { pin_entry = default_pin_entry }

  unfoldable pub read_interface : Entries → Read Interface
  unfolding find_field read_u16 read_i32 read_ips read_settings deserialize_private_key
      deserialize_string_or_vec
  read_interface entries =
      let find = λ (key other : String). find_field key other entries in
      read_bind (find "private_key" "private_key") λ private_key.
        read_bind
          (required "private_key" (λ v. deserialize_private_key r.decode (presented v)) private_key)
          λ private_key'. read_bind (find "listen_port" "listen_port") λ listen_port.
            read_bind (optional read_u16 listen_port) λ listen_port'.
              read_bind (find "address" "address") λ address.
                read_bind (or_default [] (λ v. deserialize_string_or_vec (presented v)) address)
                  λ address'. read_bind (find "mtu" "MTU") λ mtu.
                    read_bind (optional read_i32 mtu) λ mtu'. read_bind (find "dns" "DNS") λ dns.
                      read_bind (or_default [] read_ips dns) λ dns'.
                        read_bind (find "smartcard" "smartcard") λ smartcard.
                          read_bind (or_default default_settings read_settings smartcard)
                            λ smartcard'. value (record {
                              private_key = private_key';
                              listen_port = listen_port';
                              address = address';
                              mtu = mtu';
                              dns = dns';
                              smartcard = smartcard';
                            })
