-- ===== src/Config/Sections.antt =====
-- smartguard/src/config.rs: the readers of a peer and of a whole file.
use smartguard.Config.{Read, value, unread, missing_field, read_bind, Interface, Peer, Config}
use smartguard.Config.Document.{
  Entries, Document, Readers, find_field, required, optional, or_default, read_u16, read_strings,
  read_endpoint, read_key, read_preshared, read_interface,
}
use smartguard.Prelude.{String, Option, none, some, List, [], ◌∷◌}

module _ (r : Readers) where
  unfoldable pub read_peer : Entries → Read Peer
  unfolding find_field read_u16 read_strings read_endpoint read_key read_preshared
  read_peer entries =
      let find = λ (key : String). find_field key key entries in
      read_bind (find "public_key") λ public_key.
        read_bind (required "public_key" (read_key r) public_key) λ public_key'.
          read_bind (find "preshared_key") λ preshared_key.
            read_bind (or_default none (read_preshared r) preshared_key) λ preshared_key'.
              read_bind (find "endpoint") λ endpoint.
                read_bind (optional (read_endpoint r) endpoint) λ endpoint'.
                  read_bind (find "allowed_ips") λ allowed_ips.
                    read_bind (or_default [] read_strings allowed_ips) λ allowed_ips'.
                      read_bind (find "persistent_keepalive") λ persistent_keepalive.
                        read_bind (optional read_u16 persistent_keepalive) λ persistent_keepalive'.
                          value (record {
                            public_key = public_key';
                            preshared_key = preshared_key';
                            endpoint = endpoint';
                            allowed_ips = allowed_ips';
                            persistent_keepalive = persistent_keepalive';
                          })

  unfoldable pub read_peers : List Entries → Read (List Peer)
  unfolding read_peer
  read_peers [] = value []
  read_peers (p ∷ ps) =
      read_bind (read_peer p) λ peer. read_bind (read_peers ps) λ peers. value (peer ∷ peers)

  abbrev pub peers_of : Option (List Entries) → Read (List Peer)
  peers_of none = value []
  peers_of (some ps) = read_peers ps

  abbrev pub interface_of : Option Entries → Read Interface
  interface_of none = unread (missing_field "interface")
  interface_of (some entries) = read_interface r entries

  unfoldable pub read_config : Document → Read Config
  unfolding read_interface read_peers
  read_config document = read_bind (interface_of document.interface) λ interface.
      read_bind (peers_of document.peers)
        λ peers. value (record { interface = interface; peers = peers })

-- What the crate `toml` makes of a text: its sections, or of one that is no TOML, or whose sections are
-- not written as tables, what it makes of that with serde.
pub data Parsed : Type 0 where
  sections : Document → Parsed
  no_sections : Read Config → Parsed

module _ (r : Readers) where
  abbrev pub config_of : Parsed → Read Config
  config_of (sections document) = read_config r document
  config_of (no_sections result) = result
