-- ===== src/Config/Written.antt =====
-- smartguard/src/config.rs: the sections that say a configuration, and the readers take them back to it.
use smartguard.Config.{
  value, read_bind, pos, PrivateKeyConfig, software, smartcard, smartcard_auto, Interface, Peer,
  Config, text, table, array,
}
use smartguard.Config.Document.{Value, integer, shown, Entries, Document, find_field}
use smartguard.Net.{IpAddr, SocketAddr}
use smartguard.Peers.{Key}
use smartguard.Prelude.{
  String, Option, none, some, List, [], ◌∷◌, ◌≡◌, refl, map, str_eq, ◌||◌, if◌then◌else◌, Bool,
  true, not, ◌&&◌, Bool-cases, inl, inr,
}

-- How the values of the crates are written.
pub record Writers : Type 0 where
  pub encode : Key → String
  pub show_ip : IpAddr → String
  pub show_endpoint : SocketAddr → String

-- The fields of a section: those without a value are not written.
abbrev pub Fields : Type 0
Fields = List (String × Option Value)

abbrev pub written : Fields → Entries
written [] = []
written ((key, none) ∷ fields) = written fields
written ((key, some v) ∷ fields) = (key, v) ∷ written fields

abbrev pub shown_text : String → Value
shown_text s = shown (text s)

abbrev pub shown_texts : List String → Value
shown_texts ss = shown (array (map some ss))

abbrev pub if_some : {A : Type 0} → (A → Value) → Option A → Option Value
if_some f none = none
if_some f (some a) = some (f a)

abbrev pub card_table : String → Value
card_table ident = shown (table (("smartcard", some ident) ∷ []))

module _ (w : Writers) where
  abbrev pub private_key_value : PrivateKeyConfig → Value
  private_key_value (software key) = shown_text (w.encode key)
  private_key_value (smartcard ident) = card_table ident
  private_key_value smartcard_auto = card_table "auto"

  abbrev pub interface_fields : Interface → Fields
  interface_fields i =
      ("private_key", some (private_key_value i.private_key))
      ∷ ("listen_port", if_some (λ n. integer (pos n)) i.listen_port)
      ∷ ("address", some (shown_texts i.address))
      ∷ ("mtu", if_some integer i.mtu)
      ∷ ("dns", some (shown_texts (map w.show_ip i.dns)))
      ∷ ("smartcard", some (shown (table (("pin_entry", some i.smartcard.pin_entry) ∷ []))))
      ∷ []

  abbrev pub peer_fields : Peer → Fields
  peer_fields p =
      ("public_key", some (shown_text (w.encode p.public_key)))
      ∷ ("preshared_key", if_some (λ k. shown_text (w.encode k)) p.preshared_key)
      ∷ ("endpoint", if_some (λ a. shown_text (w.show_endpoint a)) p.endpoint)
      ∷ ("allowed_ips", some (shown_texts p.allowed_ips))
      ∷ ("persistent_keepalive", if_some (λ n. integer (pos n)) p.persistent_keepalive)
      ∷ []

  abbrev pub document_of : Config → Document
  document_of c = record {
    interface = some (written (interface_fields c.interface));
    peers = some (map (λ p. written (peer_fields p)) c.peers);
  }

-- What a section's fields say under a key or its alias.
abbrev is_named : String → String → String → Bool
is_named key other k = str_eq k key || str_eq k other

abbrev said : String → String → Fields → Option Value
said key other [] = none
said key other ((k, o) ∷ fields) =
    let rest = said key other fields in if is_named key other k then o else rest

abbrev is_absent : String → String → Fields → Bool
is_absent key other [] = true
is_absent key other ((k, o) ∷ fields) = not (is_named key other k) && is_absent key other fields

abbrev is_once : String → String → Fields → Bool
is_once key other [] = true
is_once key other ((k, o) ∷ fields) =
    let rest = is_once key other fields in
    if is_named key other k then is_absent key other fields else rest

find_field-absent :
    (key other : String) (fields : Fields)
    → is_absent key other fields ≡ true
    → find_field key other (written fields) ≡ value none
unfolding find_field
find_field-absent key other [] h = refl
find_field-absent key other ((k, none) ∷ fields) h = elim (Bool-cases (is_named key other k)) [
  | inl here ↦ absurd (cc (rw here at h))
  | inr there ↦ find_field-absent key other fields (rw there at h)
]
find_field-absent key other ((k, some v) ∷ fields) h = elim (Bool-cases (is_named key other k)) [
  | inl here ↦ absurd (cc (rw here at h))
  | inr there ↦ rw there (find_field-absent key other fields (rw there at h))
]

pub find_field-written :
    (key other : String) (fields : Fields)
    → is_once key other fields ≡ true
    → find_field key other (written fields) ≡ value (said key other fields)
unfolding find_field read_bind
find_field-written key other [] h = refl
find_field-written key other ((k, none) ∷ fields) h = elim (Bool-cases (is_named key other k)) [
  | inl here ↦ rw here (find_field-absent key other fields (rw here at h))
  | inr there ↦ rw there (find_field-written key other fields (rw there at h))
]
find_field-written key other ((k, some v) ∷ fields) h = elim (Bool-cases (is_named key other k)) [
  | inl here ↦ rw (here, find_field-absent key other fields (rw here at h))
  | inr there ↦ rw there (find_field-written key other fields (rw there at h))
]
