-- ===== src/Cli/Typed.antt =====
-- smartguard/src/main.rs: what the arguments of the tunnel have, whatever the file, the prompt and the
-- environment say.
use smartguard.Prelude.{
  ℕ, zero, suc, String, Option, none, some, List, [], ◌∷◌, ◌≡◌, ◌<◌, refl, ap, ◌∙◌, subst, arith,
  All, Run, returns, panics, run_bind,
}
use smartguard.Card.{done}
use smartguard.Config.{
  Config, Peer, PrivateKeyConfig, software, smartcard, smartcard_auto, Read, value, unread, pos,
}
use smartguard.Config.Document.{Document}
use smartguard.Config.Gives.{Holds}
use smartguard.Config.Sections.{sections, read_config}
use smartguard.Config.Typed.{
  IsKey, FitsU16, FitsI32, IsTypedKey, IsTypedPeer, IsTyped, read_config-IsTyped,
}
use smartguard.Net.{IpNetLib, IpNet}
use smartguard.Peers.{PeerConfig}
use smartguard.Cli.{
  Result, ok, err, result_bind, KeySource, in_memory, on_card, Launch, unwrap_or, Surroundings,
  obtain_pin, keepalive_of, key_source, parse_allowed, peer_config, peer_configs, address_or_fail,
  launch_with, after_addrs, cmd_up,
}
use smartguard.Cli.Process.{Files, Loaded, loaded, or_parse, from_str, from_file}

-- A keepalive that is due after some seconds.
abbrev pub IsInterval : ℕ → Type 0
IsInterval s = (0 < s) × FitsU16 s

abbrev pub IsTypedSource : KeySource → Type 0
IsTypedSource (in_memory key) = IsKey key
IsTypedSource (on_card ident pin) = Unit

-- What is returned, when something is, is in `P`.
abbrev Returns : {A : Type 0} → (A → Type 0) → Run A → Type 0
Returns P panics = Unit
Returns P (returns a) = P a

abbrev Succeeds : {A : Type 0} → (A → Type 0) → Result A → Type 0
Succeeds P (err e) = Unit
Succeeds P (ok a) = P a

keepalive_of-IsInterval : (o : Option ℕ) → Holds FitsU16 o → Holds IsInterval (keepalive_of o)
unfolding keepalive_of
keepalive_of-IsInterval none h = tt
keepalive_of-IsInterval (some zero) h = tt
keepalive_of-IsInterval (some (suc s)) h = (omega arith, h)

unwrap_or-Holds :
    {A : Type 0} (P : A → Type 0) (o : Option A) (d : A) → Holds P o → P d → P (unwrap_or o d)
unwrap_or-Holds P none d h k = k
unwrap_or-Holds P (some a) d h k = h

on_card-IsTypedSource :
    (ident : String) (r : Result String)
    → Succeeds IsTypedSource (result_bind r λ pin. ok (on_card ident pin))
on_card-IsTypedSource ident (ok pin) = tt
on_card-IsTypedSource ident (err e) = tt

key_source-IsTypedSource :
    (s : Surroundings) (pin_entry : String) (k : PrivateKeyConfig)
    → IsTypedKey k
    → Succeeds IsTypedSource (key_source s pin_entry k)
unfolding key_source
key_source-IsTypedSource s pin_entry (software key) h = h
key_source-IsTypedSource s pin_entry (smartcard ident) h =
    on_card-IsTypedSource ident (obtain_pin s pin_entry)
key_source-IsTypedSource s pin_entry smartcard_auto h =
    on_card-IsTypedSource "auto" (obtain_pin s pin_entry)

-- What is loaded from a file whose sections are tables is in the types' ranges.
from_file-IsTyped :
    (files : Files) (path content : String) (document : Document) (config : Config)
    → files.read_to_string path ≡ done content
    → files.toml content ≡ sections document
    → from_file files path ≡ loaded config
    → IsTyped config
unfolding from_file from_str
from_file-IsTyped files path content document config found parsed e =
    of_read (read_config files.readers document) refl (rw (found, parsed) at e)
  where
    of_read :
        (r : Read Config)
        → read_config files.readers document ≡ r
        → or_parse files r ≡ loaded config
        → IsTyped config
    of_read (value c) read e' =
        read_config-IsTyped files.readers document config (read ∙ ap value (same e'))
      where
        same : ◌≡◌ {A = Loaded} (loaded c) (loaded config) → c ≡ config
        same e'' = cc
    of_read (unread x) read e' = absurd (cc)

module _ (n : IpNetLib) (parse : String → Option (IpNet n)) where
  abbrev pub IsTypedPeerConfig : PeerConfig n → Type 0
  IsTypedPeerConfig p =
      IsKey p.public_key × Holds IsKey p.preshared_key × Holds IsInterval p.persistent_keepalive

  abbrev pub IsTypedLaunch : Launch n → Type 0
  IsTypedLaunch launch =
      IsTypedSource launch.source
      × All IsTypedPeerConfig launch.peers
      × FitsU16 launch.listen_port
      × FitsI32 launch.mtu

  peer_config-IsTyped :
      (p : Peer) → IsTypedPeer p → Returns IsTypedPeerConfig (peer_config n parse p)
  unfolding peer_config
  peer_config-IsTyped p (key, shared, keepalive) = with_nets (parse_allowed n parse p.allowed_ips)
    where
      with_nets :
          (r : Run (List (IpNet n)))
          → Returns IsTypedPeerConfig (
              run_bind r λ nets. returns (record {
                public_key = p.public_key;
                preshared_key = p.preshared_key;
                endpoint = p.endpoint;
                allowed_ips = nets;
                persistent_keepalive = keepalive_of p.persistent_keepalive;
              }))
      with_nets panics = tt
      with_nets (returns nets) =
          (key, shared, keepalive_of-IsInterval p.persistent_keepalive keepalive)

  both_returned :
      (r : Run (PeerConfig n)) (rs : Run (List (PeerConfig n)))
      → Returns IsTypedPeerConfig r
      → Returns (All IsTypedPeerConfig) rs
      → Returns (All IsTypedPeerConfig) (run_bind r λ c. run_bind rs λ cs. returns (c ∷ cs))
  both_returned panics rs h hs = tt
  both_returned (returns c) panics h hs = tt
  both_returned (returns c) (returns cs) h hs = (h, hs)

  peer_configs-All :
      (ps : List Peer)
      → All IsTypedPeer ps
      → Returns (All IsTypedPeerConfig) (peer_configs n parse ps)
  unfolding peer_configs
  peer_configs-All [] h = tt
  peer_configs-All (p ∷ ps) h =
      both_returned (peer_config n parse p) (peer_configs n parse ps) (peer_config-IsTyped p h.0)
        (peer_configs-All ps h.1)

  launched :
      (config : Config) (tun_addrs : List (IpNet n)) (r : Run (List (PeerConfig n)))
      (source : Result KeySource)
      → IsTyped config
      → Returns (All IsTypedPeerConfig) r
      → Succeeds IsTypedSource source
      → Returns
          (Succeeds IsTypedLaunch)
          (run_bind r λ peers. returns (launch_with n parse config peers tun_addrs source))
  launched config tun_addrs panics source h peers key = tt
  launched config tun_addrs (returns cs) (err e) h peers key = tt
  launched config tun_addrs (returns cs) (ok source) h peers key = (
    key,
    peers,
    unwrap_or-Holds FitsU16 config.interface.listen_port 51820 h.0.1 (omega arith),
    unwrap_or-Holds FitsI32 config.interface.mtu (pos 1420) h.0.2 (omega arith),
  )

  after_addrs-IsTypedLaunch :
      (s : Surroundings) (config : Config) (addrs : Result (List (IpNet n)))
      → IsTyped config
      → Returns (Succeeds IsTypedLaunch) (after_addrs n parse s config addrs)
  after_addrs-IsTypedLaunch s config (err e) h = tt
  after_addrs-IsTypedLaunch s config (ok tun_addrs) h =
      launched config tun_addrs (peer_configs n parse config.peers) _ h
        (peer_configs-All config.peers h.1)
        (key_source-IsTypedSource s _ config.interface.private_key h.0.0)

  -- From a configuration in the types' ranges come arguments in theirs.
  cmd_up-IsTypedLaunch :
      (s : Surroundings) (config : Config) (launch : Launch n)
      → IsTyped config
      → cmd_up n parse s config ≡ returns (ok launch)
      → IsTypedLaunch launch
  unfolding cmd_up
  cmd_up-IsTypedLaunch s config launch h e =
      subst (Returns (Succeeds IsTypedLaunch)) e
        (after_addrs-IsTypedLaunch s config (address_or_fail n parse config.interface.address) h)

  -- Where the sections of the file are tables, `up` starts the tunnel only with keys of 32 bytes, ports
  -- below 2 ^ 16, keepalives above zero and below 2 ^ 16, and an MTU that an `i32` holds, whatever the
  -- prompt and the environment say.
  pub up-IsTypedLaunch :
      (files : Files) (s : Surroundings) (path content : String) (document : Document)
      (config : Config) (launch : Launch n)
      → files.read_to_string path ≡ done content
      → files.toml content ≡ sections document
      → from_file files path ≡ loaded config
      → cmd_up n parse s config ≡ returns (ok launch)
      → IsTypedLaunch launch
  up-IsTypedLaunch files s path content document config launch found parsed is_loaded launches =
      cmd_up-IsTypedLaunch s config launch
        (from_file-IsTyped files path content document config found parsed is_loaded) launches
