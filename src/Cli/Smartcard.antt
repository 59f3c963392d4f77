-- ===== src/Cli/Smartcard.antt =====
-- smartguard/src/main.rs: `run_smartcard` up to the tunnel. What is printed is left out.
use smartguard.Prelude.{ℕ, String, Bool, List, map, State, Run, returns, panics, if◌then◌else◌}
use smartguard.Net.{IpNetLib}
use smartguard.Peers.{PeerConfig}
use smartguard.Card.{Attempt, SmartcardError, Outcome, ok, err, CardLib}
use smartguard.Card.Channel.{Link}
use smartguard.Card.Open.{CardHandle, open_card, pubkey, prime_all}
use smartguard.Cli.{UpError, Result, Surroundings, obtain_pin}

-- The start ends without a PIN, without a runtime, without a card, or in a panic; or there is the
-- card's public key, and the handle for the tunnel.
pub data Started (C : Type 0) : Type 0 where
  without_pin : UpError → Started C
  without_runtime : Started C
  without_card : SmartcardError → Started C
  start_panics : Started C
  started : List ℕ → CardHandle C → Started C

abbrev pub keys_of : {n : IpNetLib} → List (PeerConfig n) → List (List ℕ)
keys_of peers = map (λ p. p.public_key) peers

module _ (l : CardLib) where
  open l use {World, Card}

  abbrev pub with_key :
      String
      → List (List ℕ)
      → CardHandle Card
      → Link Card × World
      → Run (List ℕ)
      → Started Card × World
  with_key pin keys h t panics = (start_panics, t.1)
  with_key pin keys h t (returns key) =
      let (cache, t') = prime_all l h.ident pin keys h.cache t in
      (started key (record h { link = t'.0; cache = cache }), t'.1)

  abbrev pub with_handle :
      String → List (List ℕ) → World → Outcome (CardHandle Card) → Started Card × World
  with_handle pin keys w (err e) = (without_card e, w)
  with_handle pin keys w (ok h) =
      let (key, t) = pubkey l h.ident pin (h.link, w) in with_key pin keys h t key

  -- The block that is run on the runtime.
  unfoldable pub with_card :
      Attempt (Unit {0}) → String → String → List (List ℕ) → State World (Started Card)
  unfolding open_card pubkey prime_all
  with_card spawned ident pin keys w =
      let (opened, w') = open_card l spawned ident pin w in with_handle pin keys w' opened

  abbrev pub with_pin :
      Bool
      → Attempt (Unit {0})
      → String
      → List (List ℕ)
      → World
      → Result String
      → Started Card × World
  with_pin built spawned ident keys w (Result.err e) = (without_pin e, w)
  with_pin built spawned ident keys w (Result.ok pin) =
      if built then with_card spawned ident pin keys w else (without_runtime, w)

  -- `built` and `spawned` are what the starts of the runtime and of the thread give.
  unfoldable pub run_smartcard :
      {n : IpNetLib}
      → Surroundings
      → Bool
      → Attempt (Unit {0})
      → String
      → String
      → List (PeerConfig n)
      → State World (Started Card)
  unfolding with_card obtain_pin
  run_smartcard s built spawned ident pin_entry peers w =
      with_pin built spawned ident (keys_of peers) w (obtain_pin s pin_entry)
