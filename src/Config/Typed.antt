-- ===== src/Config/Typed.antt =====
-- smartguard/src/config.rs: the ranges of the Rust types, and what is read lies in them.
use smartguard.Config.{
  value, ℤ, pos, negsuc, PrivateKeyConfig, software, smartcard, smartcard_auto, Interface, Peer,
  Config, Presented, text, table, array, something_else, exactly_32, deserialize_key_base64,
  deserialize_option_key_base64, deserialize_private_key, visit_str, visit_map, read_entries,
  card_of,
}
use smartguard.Config.Gives.{
  Holds, Gives, gives, Gives-bind, Gives-then, required-Gives, optional-Gives, or_default-Gives,
}
use smartguard.Config.Document.{
  Value, integer, shown, Entries, Document, Readers, read_u16, read_i32, read_key, read_preshared,
  read_interface, presented,
}
use smartguard.Config.Sections.{read_peer, read_peers, read_config, interface_of, peers_of}
use smartguard.Peers.{Key}
use smartguard.Prelude.{
  ℕ, String, Option, none, some, List, [], ◌∷◌, ◌≡◌, ◌<◌, subst, All, length, ltb, ltb→lt, ◌==◌,
  ==_iff, str_eq, Bool-cases, inl, inr,
}

abbrev pub IsKey : Key → Type 0
IsKey k = length k ≡ 32

abbrev pub FitsU16 : ℕ → Type 0
FitsU16 n = n < 65536

abbrev pub FitsI32 : ℤ → Type 0
FitsI32 (pos n) = n < 2147483648
FitsI32 (negsuc n) = n < 2147483648

abbrev pub IsTypedKey : PrivateKeyConfig → Type 0
IsTypedKey (software k) = IsKey k
IsTypedKey (smartcard ident) = Unit
IsTypedKey smartcard_auto = Unit

abbrev pub IsTypedInterface : Interface → Type 0
IsTypedInterface i = IsTypedKey i.private_key × Holds FitsU16 i.listen_port × Holds FitsI32 i.mtu

abbrev pub IsTypedPeer : Peer → Type 0
IsTypedPeer p =
    IsKey p.public_key × Holds IsKey p.preshared_key × Holds FitsU16 p.persistent_keepalive

abbrev pub IsTyped : Config → Type 0
IsTyped c = IsTypedInterface c.interface × All IsTypedPeer c.peers

read_u16-FitsU16 : (v : Value) → Gives FitsU16 (read_u16 v)
unfolding Gives read_u16
read_u16-FitsU16 (integer (pos n)) = elim (Bool-cases (ltb n 65536)) [
  | inl small ↦ rw small (ltb→lt n 65536 small)
  | inr big ↦ rw big tt
]
read_u16-FitsU16 (integer (negsuc n)) = tt
read_u16-FitsU16 (shown p) = tt

read_i32-FitsI32 : (v : Value) → Gives FitsI32 (read_i32 v)
unfolding Gives read_i32
read_i32-FitsI32 (integer (pos n)) = elim (Bool-cases (ltb n 2147483648)) [
  | inl small ↦ rw small (ltb→lt n 2147483648 small)
  | inr big ↦ rw big tt
]
read_i32-FitsI32 (integer (negsuc n)) = elim (Bool-cases (ltb n 2147483648)) [
  | inl small ↦ rw small (ltb→lt n 2147483648 small)
  | inr big ↦ rw big tt
]
read_i32-FitsI32 (shown p) = tt

exactly_32-IsKey : (o : Option (List ℕ)) → Gives IsKey (exactly_32 o)
unfolding Gives
exactly_32-IsKey none = tt
exactly_32-IsKey (some bytes) = elim (Bool-cases (length bytes == 32)) [
  | inl long ↦ rw long ((==_iff (length bytes) 32).0 long)
  | inr other ↦ rw other tt
]

card_of-IsTypedKey : (found : Option String) → Gives IsTypedKey (card_of found)
unfolding Gives
card_of-IsTypedKey none = tt
card_of-IsTypedKey (some ident) = elim (Bool-cases (str_eq ident "auto")) [
  | inl auto ↦ rw auto tt
  | inr other ↦ rw other tt
]

module _ (r : Readers) where
  read_private_key-IsTypedKey :
      (p : Presented) → Gives IsTypedKey (deserialize_private_key r.decode p)
  unfolding Gives deserialize_private_key visit_str visit_map deserialize_key_base64
  read_private_key-IsTypedKey (text v) =
      Gives-bind IsKey IsTypedKey (exactly_32 (r.decode v)) _ (exactly_32-IsKey (r.decode v))
        (λ k h. h)
  read_private_key-IsTypedKey (table entries) =
      Gives-then IsTypedKey (read_entries none entries) card_of (λ found. card_of-IsTypedKey found)
  read_private_key-IsTypedKey (array vs) = tt
  read_private_key-IsTypedKey something_else = tt

  read_key-IsKey : (v : Value) → Gives IsKey (read_key r v)
  unfolding read_key deserialize_key_base64
  read_key-IsKey v = Gives-then IsKey _ _ (λ s. exactly_32-IsKey (r.decode s))

  read_preshared-IsKey : (v : Value) → Gives (Holds IsKey) (read_preshared r v)
  unfolding Gives read_preshared deserialize_option_key_base64 deserialize_key_base64
  read_preshared-IsKey v = Gives-then (Holds IsKey) _ _ (λ s.
      Gives-bind IsKey (Holds IsKey) (exactly_32 (r.decode s)) _ (exactly_32-IsKey (r.decode s))
        (λ k h. h))

  read_interface-IsTypedInterface :
      (entries : Entries) → Gives IsTypedInterface (read_interface r entries)
  unfolding read_interface
  read_interface-IsTypedInterface entries =
      let P = IsTypedInterface in
      Gives-then P _ _ λ private_key.
        Gives-bind IsTypedKey P _ _
          (required-Gives IsTypedKey "private_key" _ private_key
            (λ v. read_private_key-IsTypedKey (presented v)))
          λ _ key. Gives-then P _ _ λ listen_port.
            Gives-bind (Holds FitsU16) P _ _ (optional-Gives FitsU16 _ listen_port read_u16-FitsU16)
              λ _ port. Gives-then P _ _ λ address. Gives-then P _ _ λ _. Gives-then P _ _ λ mtu.
                Gives-bind (Holds FitsI32) P _ _ (optional-Gives FitsI32 _ mtu read_i32-FitsI32)
                  λ _ fits. Gives-then P _ _ λ dns. Gives-then P _ _ λ _.
                    Gives-then P _ _ λ smartcard. Gives-then P _ _ λ _. gives P _ (key, port, fits)

  read_peer-IsTypedPeer : (entries : Entries) → Gives IsTypedPeer (read_peer r entries)
  unfolding read_peer
  read_peer-IsTypedPeer entries =
      let P = IsTypedPeer in
      Gives-then P _ _ λ public_key.
        Gives-bind IsKey P _ _ (required-Gives IsKey "public_key" _ public_key read_key-IsKey)
          λ _ key. Gives-then P _ _ λ preshared_key.
            Gives-bind (Holds IsKey) P _ _
              (or_default-Gives (Holds IsKey) none _ preshared_key tt read_preshared-IsKey)
              λ _ shared. Gives-then P _ _ λ endpoint. Gives-then P _ _ λ _.
                Gives-then P _ _ λ allowed_ips. Gives-then P _ _ λ _.
                  Gives-then P _ _ λ persistent_keepalive.
                    Gives-bind (Holds FitsU16) P _ _
                      (optional-Gives FitsU16 _ persistent_keepalive read_u16-FitsU16)
                      λ _ keepalive. gives P _ (key, shared, keepalive)

  read_peers-All : (ps : List Entries) → Gives (All IsTypedPeer) (read_peers r ps)
  unfolding read_peers
  read_peers-All [] = gives (All IsTypedPeer) [] tt
  read_peers-All (p ∷ ps) =
      Gives-bind IsTypedPeer (All IsTypedPeer) _ _ (read_peer-IsTypedPeer p) λ _ h.
        Gives-bind (All IsTypedPeer) (All IsTypedPeer) _ _ (read_peers-All ps)
          λ _ hs. gives (All IsTypedPeer) _ (h, hs)

  peers_of-All : (o : Option (List Entries)) → Gives (All IsTypedPeer) (peers_of r o)
  unfolding Gives
  peers_of-All none = tt
  peers_of-All (some ps) = read_peers-All ps

  interface_of-IsTypedInterface : (o : Option Entries) → Gives IsTypedInterface (interface_of r o)
  unfolding Gives
  interface_of-IsTypedInterface none = tt
  interface_of-IsTypedInterface (some entries) = read_interface-IsTypedInterface entries

  read_config-Gives : (document : Document) → Gives IsTyped (read_config r document)
  unfolding read_config
  read_config-Gives document =
      Gives-bind IsTypedInterface IsTyped _ _ (interface_of-IsTypedInterface document.interface)
        λ _ interface.
          Gives-bind (All IsTypedPeer) IsTyped _ _ (peers_of-All document.peers)
            λ _ peers. gives IsTyped _ (interface, peers)

  -- The configuration that is read has a key of 32 bytes wherever it has one, ports and keepalives below
  -- 2 ^ 16, and an MTU that an `i32` holds.
  pub read_config-IsTyped :
      (document : Document) (config : Config)
      → read_config r document ≡ value config
      → IsTyped config
  unfolding Gives
  read_config-IsTyped document config e = subst (Gives IsTyped) e (read_config-Gives document)
