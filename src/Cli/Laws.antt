-- ===== src/Cli/Laws.antt =====
-- smartguard/src/main.rs: which PIN entries give a PIN, and what `cmd_up` does on every configuration.
use smartguard.Config.{Config, Peer}
use smartguard.Net.{IpNetLib, IpNet}
use smartguard.Peers.{PeerConfig}
use smartguard.Prelude.{
  String, false, Option, none, some, List, [], ◌∷◌, ◌≡◌, ◌≢◌, refl, ◌↔◌, ◌⊎◌, inl, inr, returns,
  panics, str_eq, strip_prefix, ◌<>◌, All, Option-cases, Bool-cases, eq_iff, strip_prefix-append,
  strip_prefix-some, ap,
}
use smartguard.Cli.{
  ok, err, bad_address, Surroundings, obtain_pin, or_no_pin, parse_addrs, parse_allowed,
  peer_config, peer_configs, cmd_up, after_addrs, address_or_fail, keepalive_of,
}

or_no_pin-ok : (o : Option String) (pin : String) → or_no_pin o ≡ ok pin → o ≡ some pin
or_no_pin-ok none pin e = absurd (cc)
or_no_pin-ok (some p) pin e = ap some (inner e)
  where
    inner : ok p ≡ ok pin → p ≡ pin
    inner e = cc

not_prompt : (var_name : String) → str_eq ("env:" <> var_name) "prompt" ≡ false
unfolding strip_prefix
not_prompt var_name = elim (Bool-cases (str_eq ("env:" <> var_name) "prompt")) [
  | inr other ↦ other
  | inl same ↦ absurd (
      cc (
        strip_prefix-append "env:" var_name,
        ap (strip_prefix "env:") ((eq_iff ("env:" <> var_name) "prompt").0 same),
      ))
]

-- A PIN is obtained exactly from the entry `prompt` with an answer at the prompt, or from an entry
-- `env:` with a variable behind it that is set; no other entry gives one.
pub obtain_pin_iff :
    (s : Surroundings) (pin_entry pin : String)
    → (obtain_pin s pin_entry ≡ ok pin) ↔ (
        ((pin_entry ≡ "prompt") × (s.prompt ≡ some pin))
        ⊎ ((var_name : String) × (pin_entry ≡ "env:" <> var_name) × (s.env var_name ≡ some pin)))
unfolding obtain_pin
obtain_pin_iff s pin_entry pin = (
  λ e. elim (Bool-cases (str_eq pin_entry "prompt")) [
    | inl same ↦ inl ((eq_iff pin_entry "prompt").0 same, or_no_pin-ok s.prompt pin (rw same at e))
    | inr other ↦ elim (Option-cases (strip_prefix "env:" pin_entry)) [
      | inl gone ↦ absurd (cc (rw (other, gone) at e))
      | inr (var_name, found) ↦ inr (
        var_name,
        strip_prefix-some "env:" pin_entry var_name found,
        or_no_pin-ok (s.env var_name) pin (rw (other, found) at e),
      )
    ]
  ],
  λ h. elim h [
    | inl (same, answered) ↦ rw (same, answered) refl
    | inr (var_name, same, set) ↦
        rw (same, not_prompt var_name, strip_prefix-append "env:" var_name, set) refl
  ],
)

module _ (n : IpNetLib) (parse : String → Option (IpNet n)) where
  abbrev pub Parses : String → Type 0
  Parses t = (p : IpNet n) × (parse t ≡ some p)

  parse_addrs-cases :
      (ss : List String)
      → (All Parses ss × (ps : List (IpNet n)) × (parse_addrs n parse ss ≡ ok ps))
        ⊎ (¬ All Parses ss × (parse_addrs n parse ss ≡ err bad_address))
  unfolding parse_addrs
  parse_addrs-cases [] = inl (tt, [], refl)
  parse_addrs-cases (s ∷ ss) = elim (Option-cases (parse s)) [
    | inl e ↦ inr (λ ((p, e'), rest). cc, rw e refl)
    | inr (p, e) ↦ elim (parse_addrs-cases ss) [
      | inl (all, ps, e') ↦ inl (((p, e), all), p ∷ ps, rw (e, e') refl)
      | inr (bad, e') ↦ inr (λ (here, rest). bad rest, rw (e, e') refl)
    ]
  ]

  parse_allowed-cases :
      (ss : List String)
      → (All Parses ss × (ps : List (IpNet n)) × (parse_allowed n parse ss ≡ returns ps))
        ⊎ (¬ All Parses ss × (parse_allowed n parse ss ≡ panics))
  unfolding parse_allowed
  parse_allowed-cases [] = inl (tt, [], refl)
  parse_allowed-cases (s ∷ ss) = elim (Option-cases (parse s)) [
    | inl e ↦ inr (λ ((p, e'), rest). cc, rw e refl)
    | inr (p, e) ↦ elim (parse_allowed-cases ss) [
      | inl (all, ps, e') ↦ inl (((p, e), all), p ∷ ps, rw (e, e') refl)
      | inr (bad, e') ↦ inr (λ (here, rest). bad rest, rw (e, e') refl)
    ]
  ]

  -- All allowed IPs of a peer can be read.
  abbrev pub IsReadable : Peer → Type 0
  IsReadable p = All Parses p.allowed_ips

  peer_config-cases :
      (p : Peer)
      → (IsReadable p × (c : PeerConfig n) × (peer_config n parse p ≡ returns c))
        ⊎ (¬ IsReadable p × (peer_config n parse p ≡ panics))
  unfolding peer_config
  peer_config-cases p = elim (parse_allowed-cases p.allowed_ips) [
    | inr (bad, e) ↦ inr (bad, rw e refl)
    | inl (all, nets, e) ↦ inl (
      all,
      record {
        public_key = p.public_key;
        preshared_key = p.preshared_key;
        endpoint = p.endpoint;
        allowed_ips = nets;
        persistent_keepalive = keepalive_of p.persistent_keepalive;
      },
      rw e refl,
    )
  ]

  peer_configs-cases :
      (ps : List Peer)
      → (All IsReadable ps × (cs : List (PeerConfig n)) × (peer_configs n parse ps ≡ returns cs))
        ⊎ (¬ All IsReadable ps × (peer_configs n parse ps ≡ panics))
  unfolding peer_configs
  peer_configs-cases [] = inl (tt, [], refl)
  peer_configs-cases (p ∷ ps) = elim (peer_config-cases p) [
    | inr (bad, e) ↦ inr (λ (here, rest). bad here, rw e refl)
    | inl (here, c, e) ↦ elim (peer_configs-cases ps) [
      | inl (all, cs, e') ↦ inl ((here, all), c ∷ cs, rw (e, e') refl)
      | inr (bad, e') ↦ inr (λ (here', rest). bad rest, rw (e, e') refl)
    ]
  ]

  -- Up to the arguments of the tunnel, before `run_smartcard` or `run_tunnel` is called, `cmd_up` panics
  -- exactly if there is an interface address, all of them can be read, and an allowed IP of a peer
  -- cannot.
  pub cmd_up-eq-panics_iff :
      (s : Surroundings) (config : Config)
      → (cmd_up n parse s config ≡ panics) ↔ (
          (config.interface.address ≢ [])
          × All Parses config.interface.address
          × ¬ All IsReadable config.peers)
  unfolding cmd_up
  cmd_up-eq-panics_iff s config = up config.interface.address
    where
      up :
          (ss : List String)
          → (after_addrs n parse s config (address_or_fail n parse ss) ≡ panics)
            ↔ ((ss ≢ []) × All Parses ss × ¬ All IsReadable config.peers)
      up [] = (λ e. absurd (cc), λ (some_address, all, bad). absurd (some_address refl))
      up (t ∷ ts) = elim (parse_addrs-cases (t ∷ ts)) [
        | inr (bad, e) ↦ (λ e'. absurd (cc (rw e at e')), λ (there, all, bad'). absurd (bad all))
        | inl (all, tun_addrs, e) ↦ elim (peer_configs-cases config.peers) [
          | inr (bad, e') ↦ (λ e''. (λ h. cc, all, bad), λ h. rw (e, e') refl)
          | inl (good, cs, e') ↦
              (λ e''. absurd (cc (rw (e, e') at e'')), λ (there, all', bad). absurd (bad good))
        ]
      ]
