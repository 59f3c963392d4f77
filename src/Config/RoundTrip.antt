-- ===== src/Config/RoundTrip.antt =====
-- smartguard/src/config.rs: a configuration, written as sections, is read back as it was.
use smartguard.Config.{
  Read, value, read_bind, ℤ, pos, negsuc, PrivateKeyConfig, software, smartcard, smartcard_auto,
  SmartcardSettings, Interface, Peer, Config, table, visit_seq, deserialize_string_or_vec,
  deserialize_private_key, visit_str, visit_map, read_entries, deserialize_key_base64,
  deserialize_option_key_base64,
}
use smartguard.Config.Document.{
  Value, integer, shown, Readers, optional, or_default, read_u16, read_i32, read_string,
  read_strings, parse_ips, read_ips, read_endpoint, read_key, read_preshared, read_settings,
  read_interface, presented,
}
use smartguard.Config.Gives.{Holds}
use smartguard.Config.Sections.{read_peer, read_peers, read_config}
use smartguard.Config.Typed.{
  IsKey, FitsU16, FitsI32, IsTypedKey, IsTypedInterface, IsTypedPeer, IsTyped,
}
use smartguard.Config.Written.{
  Writers, written, if_some, shown_text, shown_texts, private_key_value, interface_fields,
  peer_fields, document_of, find_field-written,
}
use smartguard.Net.{IpAddr, SocketAddr}
use smartguard.Peers.{Key}
use smartguard.Prelude.{
  ℕ, String, Option, none, some, List, [], ◌∷◌, ◌≡◌, ◌≢◌, refl, arith, map, All, str_eq, Bool-cases,
  inl, inr, eq_iff, ap,
}

then_reads :
    {A B : Type 0} {r : Read A} {a : A} {b : B} (f : A → Read B)
    → r ≡ value a
    → f a ≡ value b
    → read_bind r f ≡ value b
unfolding read_bind
then_reads f e h = rw (e, h) refl

visit_seq-shown : (ss : List String) → visit_seq (map some ss) ≡ value ss
unfolding visit_seq read_bind
visit_seq-shown [] = refl
visit_seq-shown (s ∷ ss) = rw (visit_seq-shown ss) refl

optional-if_some :
    {A : Type 0} (P : A → Type 0) (f : A → Value) (read : Value → Read A)
    → ((a : A) → P a → read (f a) ≡ value a)
    → (o : Option A) → Holds P o
    → optional read (if_some f o) ≡ value o
unfolding read_bind
optional-if_some P f read h none holds = refl
optional-if_some P f read h (some a) holds = rw (h a holds) refl

read_u16-pos : (n : ℕ) → FitsU16 n → read_u16 (integer (pos n)) ≡ value n
unfolding read_u16
read_u16-pos n h = ground arith

read_i32-integer : (n : ℤ) → FitsI32 n → read_i32 (integer n) ≡ value n
unfolding read_i32
read_i32-integer (pos n) h = ground arith
read_i32-integer (negsuc n) h = ground arith

module _ (r : Readers) (w : Writers) where
  abbrev pub IsKeyBack : Key → Type 0
  IsKeyBack k = r.decode (w.encode k) ≡ some k

  abbrev pub IsIpBack : IpAddr → Type 0
  IsIpBack ip = r.parse_ip (w.show_ip ip) ≡ some ip

  abbrev pub IsEndpointBack : SocketAddr → Type 0
  IsEndpointBack a = r.parse_endpoint (w.show_endpoint a) ≡ some a

  abbrev pub IsPrivateBack : PrivateKeyConfig → Type 0
  IsPrivateBack (software k) = IsKeyBack k
  IsPrivateBack (smartcard ident) = Unit
  IsPrivateBack smartcard_auto = Unit

  abbrev pub IsPeerBack : Peer → Type 0
  IsPeerBack p =
      IsKeyBack p.public_key × Holds IsKeyBack p.preshared_key × Holds IsEndpointBack p.endpoint

  -- What is written of the keys and addresses of a configuration is read by the crates.
  abbrev pub IsReadBack : Config → Type 0
  IsReadBack c =
      IsPrivateBack c.interface.private_key × All IsIpBack c.interface.dns × All IsPeerBack c.peers

  key_back :
      (k : Key) → IsKey k → IsKeyBack k → deserialize_key_base64 r.decode (w.encode k) ≡ value k
  unfolding deserialize_key_base64
  key_back k long back = rw (back, long) refl

  read_key-back : (k : Key) → IsKey k → IsKeyBack k → read_key r (shown_text (w.encode k)) ≡ value k
  unfolding read_key read_string read_bind
  read_key-back k long back = key_back k long back

  parse_ips-back :
      (ips : List IpAddr) → All IsIpBack ips → parse_ips r (map w.show_ip ips) ≡ value ips
  unfolding parse_ips read_bind
  parse_ips-back [] back = refl
  parse_ips-back (ip ∷ ips) back = rw (back.0, parse_ips-back ips back.1) refl

  read_ips-back :
      (ips : List IpAddr)
      → All IsIpBack ips
      → read_ips r (shown_texts (map w.show_ip ips)) ≡ value ips
  unfolding read_ips read_strings
  read_ips-back ips back =
      then_reads _ (visit_seq-shown (map w.show_ip ips)) (parse_ips-back ips back)

  address_back :
      (ss : List String) → deserialize_string_or_vec (presented (shown_texts ss)) ≡ value ss
  unfolding deserialize_string_or_vec
  address_back ss = visit_seq-shown ss

  settings_back :
      (settings : SmartcardSettings)
      → read_settings r (shown (table (("pin_entry", some settings.pin_entry) ∷ [])))
        ≡ value settings
  unfolding read_settings read_bind
  settings_back settings = refl

  private_key_back :
      (k : PrivateKeyConfig)
      → k ≢ smartcard "auto"
      → IsTypedKey k
      → IsPrivateBack k
      → deserialize_private_key r.decode (presented (private_key_value w k)) ≡ value k
  unfolding deserialize_private_key visit_str visit_map read_entries read_bind
  private_key_back (software k) other long back = rw (key_back k long back) refl
  private_key_back (smartcard ident) other long back = elim (Bool-cases (str_eq ident "auto")) [
    | inl auto ↦ absurd (other (ap smartcard ((eq_iff ident "auto").0 auto)))
    | inr named ↦ rw named refl
  ]
  private_key_back smartcard_auto other long back = refl

  read_interface-back :
      (i : Interface)
      → i.private_key ≢ smartcard "auto"
      → IsTypedInterface i
      → IsPrivateBack i.private_key
      → All IsIpBack i.dns
      → read_interface r (written (interface_fields w i)) ≡ value i
  unfolding read_interface
  read_interface-back i other (key, port, mtu) back dns =
      let fields = interface_fields w i in
      then_reads _ (find_field-written "private_key" "private_key" fields refl) (
        then_reads _ (private_key_back i.private_key other key back) (
          then_reads _ (find_field-written "listen_port" "listen_port" fields refl) (
            then_reads _ (optional-if_some FitsU16 _ read_u16 read_u16-pos i.listen_port port) (
              then_reads _ (find_field-written "address" "address" fields refl) (
                then_reads _ (address_back i.address) (
                  then_reads _ (find_field-written "mtu" "MTU" fields refl) (
                    then_reads _ (optional-if_some FitsI32 _ read_i32 read_i32-integer i.mtu mtu) (
                      then_reads _ (find_field-written "dns" "DNS" fields refl) (
                        then_reads _ (read_ips-back i.dns dns) (
                          then_reads _ (find_field-written "smartcard" "smartcard" fields refl)
                            (then_reads _ (settings_back i.smartcard) refl)))))))))))

  preshared_back :
      (o : Option Key)
      → Holds IsKey o
      → Holds IsKeyBack o
      → or_default none (read_preshared r) (if_some (λ k. shown_text (w.encode k)) o) ≡ value o
  unfolding read_preshared read_string deserialize_option_key_base64 read_bind
  preshared_back none long back = refl
  preshared_back (some k) long back = rw (key_back k long back) refl

  endpoint_back :
      (a : SocketAddr)
      → IsEndpointBack a
      → read_endpoint r (shown_text (w.show_endpoint a)) ≡ value a
  unfolding read_endpoint read_string read_bind
  endpoint_back a back = rw back refl

  strings_back : (ss : List String) → read_strings (shown_texts ss) ≡ value ss
  unfolding read_strings
  strings_back ss = visit_seq-shown ss

  read_peer-back :
      (p : Peer) → IsTypedPeer p → IsPeerBack p → read_peer r (written (peer_fields w p)) ≡ value p
  unfolding read_peer
  read_peer-back p (key, shared, keepalive) (key_is_back, shared_is_back, endpoint_is_back) =
      let fields = peer_fields w p in
      then_reads _ (find_field-written "public_key" "public_key" fields refl) (
        then_reads _ (read_key-back p.public_key key key_is_back) (
          then_reads _ (find_field-written "preshared_key" "preshared_key" fields refl) (
            then_reads _ (preshared_back p.preshared_key shared shared_is_back) (
              then_reads _ (find_field-written "endpoint" "endpoint" fields refl) (
                then_reads _
                  (optional-if_some IsEndpointBack _ (read_endpoint r) endpoint_back p.endpoint
                    endpoint_is_back)
                  (then_reads _ (find_field-written "allowed_ips" "allowed_ips" fields refl) (
                    then_reads _ (strings_back p.allowed_ips) (
                      then_reads _
                        (find_field-written "persistent_keepalive" "persistent_keepalive" fields
                          refl)
                        (then_reads _
                          (optional-if_some FitsU16 _ read_u16 read_u16-pos p.persistent_keepalive
                            keepalive)
                          refl)))))))))

  read_peers-back :
      (ps : List Peer)
      → All IsTypedPeer ps
      → All IsPeerBack ps
      → read_peers r (map (λ p. written (peer_fields w p)) ps) ≡ value ps
  unfolding read_peers
  read_peers-back [] typed back = refl
  read_peers-back (p ∷ ps) typed back =
      then_reads _ (read_peer-back p typed.0 back.0)
        (then_reads _ (read_peers-back ps typed.1 back.1) refl)

  -- A configuration whose values lie in their types, and whose card is not called `auto`, is read back
  -- from the sections that say it as it was, where the crates read its keys and addresses back.
  pub read_config-document_of :
      (c : Config)
      → c.interface.private_key ≢ smartcard "auto"
      → IsTyped c
      → IsReadBack c
      → read_config r (document_of w c) ≡ value c
  unfolding read_config
  read_config-document_of c other (interface, peers) (key, dns, back) =
      then_reads _ (read_interface-back c.interface other interface key dns)
        (then_reads _ (read_peers-back c.peers peers back) refl)
