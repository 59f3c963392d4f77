-- ===== src/Config.antt =====
-- smartguard/src/config.rs: the configuration and the readers of its values. What a TOML value is
-- presented as to a reader is data, and `base64` is a parameter.
pub mod Document
pub mod Gives
pub mod Laws
pub mod RoundTrip
pub mod Sections
pub mod Typed
pub mod Written
use smartguard.Net.{IpAddr, SocketAddr}
use smartguard.Peers.{Key}
use smartguard.Prelude.{
  ℕ, String, Option, none, some, List, [], ◌∷◌, length, ◌==◌, str_eq, if◌then◌else◌,
}

pub data ReadError : Type 0 where
  invalid_base64 wrong_length invalid_type out_of_range bad_address : ReadError
  unknown_field missing_field duplicate_field syntax_error : String → ReadError

-- A value that is read, or the reason why it is not.
pub data Read (A : Type 0) : Type 0 where
  value : A → Read A
  unread : ReadError → Read A

unfoldable pub read_bind : {A B : Type 0} → Read A → (A → Read B) → Read B
read_bind (value a) f = f a
read_bind (unread e) f = unread e

-- What `deserialize_any` presents to a visitor: a text, the entries of a table, the elements of an
-- array, or something else. An entry or element that is no text has no text here.
pub data Presented : Type 0 where
  text : String → Presented
  table : List (String × Option String) → Presented
  array : List (Option String) → Presented
  something_else : Presented

-- An `i32`: a number, or the negative of one more than it.
pub data ℤ : Type 0 where
  pos : ℕ → ℤ
  negsuc : ℕ → ℤ

pub data PrivateKeyConfig : Type 0 where
  software : Key → PrivateKeyConfig
  smartcard : String → PrivateKeyConfig
  smartcard_auto : PrivateKeyConfig

pub record SmartcardSettings : Type 0 where
  pub pin_entry : String

pub record Interface : Type 0 where
  pub private_key : PrivateKeyConfig
  pub listen_port : Option ℕ
  pub address : List String
  pub mtu : Option ℤ
  pub dns : List IpAddr
  pub smartcard : SmartcardSettings

pub record Peer : Type 0 where
  pub public_key : Key
  pub preshared_key : Option Key
  pub endpoint : Option SocketAddr
  pub allowed_ips : List String
  pub persistent_keepalive : Option ℕ

pub record Config : Type 0 where
  pub interface : Interface
  pub peers : List Peer

abbrev pub default_pin_entry : String
default_pin_entry = "prompt"

abbrev pub text_or_fail : Option String → Read String
text_or_fail none = unread invalid_type
text_or_fail (some s) = value s

abbrev pub exactly_32 : Option (List ℕ) → Read Key
exactly_32 none = unread invalid_base64
exactly_32 (some bytes) = if length bytes == 32 then value bytes else unread wrong_length

module _ (decode : String → Option (List ℕ)) where
  unfoldable pub deserialize_key_base64 : String → Read Key
  deserialize_key_base64 s = exactly_32 (decode s)

  -- `none`: the key is not in the file.
  unfoldable pub deserialize_option_key_base64 : Option String → Read (Option Key)
  unfolding deserialize_key_base64
  deserialize_option_key_base64 none = value none
  deserialize_option_key_base64 (some s) =
      read_bind (deserialize_key_base64 s) λ key. value (some key)

  unfoldable pub visit_str : String → Read PrivateKeyConfig
  unfolding deserialize_key_base64
  visit_str v = read_bind (deserialize_key_base64 v) λ key. value (software key)

-- The loop over a table's entries, with the value found so far.
unfoldable pub read_entries : Option String → List (String × Option String) → Read (Option String)
read_entries found [] = value found
read_entries found ((key, v) ∷ rest) =
    if str_eq key "smartcard"
    then (read_bind (text_or_fail v) λ s. read_entries (some s) rest)
    else unread (unknown_field key)

abbrev pub card_of : Option String → Read PrivateKeyConfig
card_of none = unread (missing_field "smartcard")
card_of (some ident) = if str_eq ident "auto" then value smartcard_auto else value (smartcard ident)

unfoldable pub visit_map : List (String × Option String) → Read PrivateKeyConfig
unfolding read_entries
visit_map entries = read_bind (read_entries none entries) card_of

unfoldable pub deserialize_private_key :
    (String → Option (List ℕ)) → Presented → Read PrivateKeyConfig
unfolding visit_str visit_map
deserialize_private_key decode (text v) = visit_str decode v
deserialize_private_key decode (table entries) = visit_map entries
deserialize_private_key decode (array vs) = unread invalid_type
deserialize_private_key decode something_else = unread invalid_type

-- The loop over an array's elements.
unfoldable pub visit_seq : List (Option String) → Read (List String)
visit_seq [] = value []
visit_seq (v ∷ vs) = read_bind (text_or_fail v) λ s. read_bind (visit_seq vs) λ ss. value (s ∷ ss)

unfoldable pub deserialize_string_or_vec : Presented → Read (List String)
unfolding visit_seq
deserialize_string_or_vec (text v) = value (v ∷ [])
deserialize_string_or_vec (array vs) = visit_seq vs
deserialize_string_or_vec (table entries) = unread invalid_type
deserialize_string_or_vec something_else = unread invalid_type
