-- ===== src/Cli.antt =====
-- smartguard/src/main.rs: from the configuration to the start of the tunnel.
pub mod Laws
pub mod ShowCard
pub mod Smartcard
pub mod Primed
pub mod LostKey
pub mod Process
pub mod Restores
pub mod Typed
use smartguard.Config.{Config, Peer, PrivateKeyConfig, software, smartcard, smartcard_auto, ℤ, pos}
use smartguard.Net.{IpAddr, IpNetLib, IpNet}
use smartguard.Peers.{Key, PeerConfig}
use smartguard.Prelude.{
  ℕ, zero, suc, String, Option, none, some, List, [], ◌∷◌, Run, returns, panics, run_bind, str_eq,
  strip_prefix, if◌then◌else◌,
}

-- What `cmd_up` ends in before a tunnel runs.
pub data UpError : Type 0 where
  no_address bad_address no_pin unsupported_pin_entry : UpError

pub data Result (A : Type 0) : Type 0 where
  ok : A → Result A
  err : UpError → Result A

abbrev pub result_bind : {A B : Type 0} → Result A → (A → Result B) → Result B
result_bind (ok a) f = f a
result_bind (err e) f = err e

-- Where the private key is: in the configuration, or on a card that is opened by its identity with a
-- PIN.
pub data KeySource : Type 0 where
  in_memory : Key → KeySource
  on_card : (ident pin : String) → KeySource

-- The arguments of `run_tunnel`.
pub record Launch (n : IpNetLib) : Type 0 where
  pub source : KeySource
  pub peers : List (PeerConfig n)
  pub listen_port : ℕ
  pub tun_addrs : List (IpNet n)
  pub mtu : ℤ
  pub dns : List IpAddr

abbrev pub unwrap_or : {A : Type 0} → Option A → A → A
unwrap_or none d = d
unwrap_or (some x) d = x

-- The terminal's prompt and the environment, either of which may fail.
pub record Surroundings : Type 0 where
  pub prompt : Option String
  pub env : String → Option String

abbrev pub or_no_pin : Option String → Result String
or_no_pin none = err no_pin
or_no_pin (some pin) = ok pin

unfoldable pub obtain_pin : Surroundings → String → Result String
obtain_pin s pin_entry =
    if str_eq pin_entry "prompt" then or_no_pin s.prompt else elim (strip_prefix "env:" pin_entry) [
      | some var_name ↦ or_no_pin (s.env var_name)
      | none ↦ err unsupported_pin_entry
    ]

-- A keepalive of 0 and none both disable it.
unfoldable pub keepalive_of : Option ℕ → Option ℕ
keepalive_of none = none
keepalive_of (some zero) = none
keepalive_of (some (suc s)) = some (suc s)

unfoldable pub key_source : Surroundings → String → PrivateKeyConfig → Result KeySource
unfolding obtain_pin
key_source s pin_entry (software key) = ok (in_memory key)
key_source s pin_entry (smartcard ident) =
    result_bind (obtain_pin s pin_entry) λ pin. ok (on_card ident pin)
key_source s pin_entry smartcard_auto =
    result_bind (obtain_pin s pin_entry) λ pin. ok (on_card "auto" pin)

-- `parse` is `FromStr` of `IpNet`.
module _ (n : IpNetLib) (parse : String → Option (IpNet n)) where
  abbrev or_bad_address : Option (IpNet n) → Result (IpNet n)
  or_bad_address none = err bad_address
  or_bad_address (some p) = ok p

  unfoldable pub parse_addrs : List String → Result (List (IpNet n))
  parse_addrs [] = ok []
  parse_addrs (s ∷ ss) =
      result_bind (or_bad_address (parse s)) λ p. result_bind (parse_addrs ss) λ ps. ok (p ∷ ps)

  abbrev expect_net : Option (IpNet n) → Run (IpNet n)
  expect_net none = panics
  expect_net (some p) = returns p

  unfoldable pub parse_allowed : List String → Run (List (IpNet n))
  parse_allowed [] = returns []
  parse_allowed (s ∷ ss) =
      run_bind (expect_net (parse s)) λ p. run_bind (parse_allowed ss) λ ps. returns (p ∷ ps)

  unfoldable pub peer_config : Peer → Run (PeerConfig n)
  unfolding parse_allowed keepalive_of
  peer_config p = run_bind (parse_allowed p.allowed_ips) λ nets. returns (record {
    public_key = p.public_key;
    preshared_key = p.preshared_key;
    endpoint = p.endpoint;
    allowed_ips = nets;
    persistent_keepalive = keepalive_of p.persistent_keepalive;
  })

  unfoldable pub peer_configs : List Peer → Run (List (PeerConfig n))
  unfolding peer_config
  peer_configs [] = returns []
  peer_configs (p ∷ ps) =
      run_bind (peer_config p) λ c. run_bind (peer_configs ps) λ cs. returns (c ∷ cs)

  abbrev pub address_or_fail : List String → Result (List (IpNet n))
  address_or_fail [] = err no_address
  address_or_fail (s ∷ ss) = parse_addrs (s ∷ ss)

  abbrev pub launch_with :
      Config → List (PeerConfig n) → List (IpNet n) → Result KeySource → Result (Launch n)
  launch_with config peers tun_addrs source = result_bind source λ source'. ok (record {
    source = source';
    peers = peers;
    listen_port = unwrap_or config.interface.listen_port 51820;
    tun_addrs = tun_addrs;
    mtu = unwrap_or config.interface.mtu (pos 1420);
    dns = config.interface.dns;
  })

  abbrev pub after_addrs : Surroundings → Config → Result (List (IpNet n)) → Run (Result (Launch n))
  after_addrs s config (err e) = returns (err e)
  after_addrs s config (ok tun_addrs) = run_bind (peer_configs config.peers) λ peers. returns (
      launch_with config peers tun_addrs
        (key_source s config.interface.smartcard.pin_entry config.interface.private_key))

  unfoldable pub cmd_up : Surroundings → Config → Run (Result (Launch n))
  unfolding parse_addrs peer_configs key_source
  cmd_up s config = after_addrs s config (address_or_fail config.interface.address)
