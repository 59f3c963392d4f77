-- ===== src/Cli/Primed.antt =====
-- smartguard/src/main.rs: what `run_smartcard` hands on to the tunnel.
use mathlib.Core.Logic.{if_pos, if_neg}
use smartguard.Prelude.{
  ℕ, ◌+◌, String, Bool, true, false, some, List, [], ◌∷◌, map, ◌≡◌, sym, ap, ◌∙◌, subst, Run,
  returns, panics, length,
}
use smartguard.Net.{IpNetLib}
use smartguard.Peers.{PeerConfig}
use smartguard.Card.{Attempt, done, failed, Outcome, ok, err, CardLib}
use smartguard.Card.Thread.{
  dh, pub_key, Reply, key_exchange, public_key, dropped, open_and_verify, serve, serve_all,
}
use smartguard.Card.Handle.{key_discrete, Cache, cache_get, cache_insert}
use smartguard.Card.Laws.{IsSharedSecret, IsAnswer, Answered, serve_all-Answered}
use smartguard.Card.Channel.{Link, idle}
use smartguard.Card.Open.{
  Asked, got, expect_key, CardHandle, opened_as, as_handle, open_card, pubkey,
}
use smartguard.Card.Asks.{ready, with_secret, secrets_of, ask_thread-serve, prime_all-serve_all}
use smartguard.Cli.{Result, Surroundings, obtain_pin}
use smartguard.Cli.Smartcard.{
  Started, started, keys_of, with_key, with_handle, with_card, with_pin, run_smartcard,
}

-- What the cache answers with is a shared secret.
abbrev pub IsPrimed : Cache → Type 0
IsPrimed cache = (pk ss : List ℕ) → cache_get cache pk ≡ some ss → IsSharedSecret ss

cache_insert-IsPrimed :
    (cache : Cache) (pk ss : List ℕ)
    → IsSharedSecret ss
    → IsPrimed cache
    → IsPrimed (cache_insert cache pk ss)
cache_insert-IsPrimed cache pk ss good h other ss' e = elim (key_discrete pk other) [
  | yes same ↦
      subst IsSharedSecret
        (the_same (sym (if_pos (key_discrete pk other) same (some ss) (cache_get cache other)) ∙ e))
        good
  | no differs ↦
      h other ss'
        (sym (if_neg (key_discrete pk other) differs (some ss) (cache_get cache other)) ∙ e)
]
  where
    the_same : some ss ≡ some ss' → ss ≡ ss'
    the_same f = cc

with_secret-IsPrimed :
    (pk : List ℕ) (reply : Reply) (cache : Cache)
    → IsAnswer (dh pk) reply
    → IsPrimed cache
    → IsPrimed (with_secret pk reply cache)
with_secret-IsPrimed pk (key_exchange (ok ss)) cache good h =
    cache_insert-IsPrimed cache pk ss good h
with_secret-IsPrimed pk (key_exchange (err e)) cache good h = h
with_secret-IsPrimed pk (public_key key) cache good h = h
with_secret-IsPrimed pk dropped cache good h = h

secrets_of-IsPrimed :
    (pks : List (List ℕ)) (replies : List Reply) (cache : Cache)
    → Answered (map dh pks) replies
    → IsPrimed cache
    → IsPrimed (secrets_of pks replies cache)
unfolding secrets_of
secrets_of-IsPrimed [] replies cache good h = h
secrets_of-IsPrimed (pk ∷ pks) [] cache good h = h
secrets_of-IsPrimed (pk ∷ pks) (reply ∷ replies) cache good h =
    secrets_of-IsPrimed pks replies (with_secret pk reply cache) good.1
      (with_secret-IsPrimed pk reply cache good.0 h)

module _ (l : CardLib) where
  open l use {World, Card}

  -- A start that comes to the tunnel has a key of 32 bytes, and a cache of shared secrets.
  abbrev pub IsReady : Started Card → Type 0
  IsReady (started key h) = (length key ≡ 32) × IsPrimed h.cache × (h.link.queue ≡ [])
  IsReady _ = Unit

  pub pubkey-ready :
      (ident pin : String) (card : Card) (n : ℕ) (w : World)
      → let (answer, w') = serve l ident pin pub_key card w in
        pubkey l ident pin (ready card n, w)
        ≡ (expect_key (got answer.0), (ready answer.1 (n + 1), w'))
  unfolding pubkey
  pubkey-ready ident pin card n w =
      ap (λ (r : Asked × (Link Card × World)). (expect_key r.0, r.1))
        (ask_thread-serve l ident pin pub_key card n w)

  key-IsReady :
      (pin : String) (keys : List (List ℕ)) (ident : String) (old : Link Card) (card : Card) (n : ℕ)
      (w : World) (reply : Reply)
      → IsAnswer pub_key reply
      → let h : CardHandle Card = record { link = old; ident = ident; cache = [] } in
        IsReady (with_key l pin keys h (ready card n, w) (expect_key (got reply))).0
  key-IsReady pin keys ident old card n w (key_exchange r) good = tt
  key-IsReady pin keys ident old card n w dropped good = tt
  key-IsReady pin keys ident old card n w (public_key key) good =
      let (answers, w') = serve_all l ident pin (map dh keys) card w in
      let primed = prime_all-serve_all l ident pin keys [] card n w in
      (
        good,
        subst IsPrimed (sym (ap (λ (r : Cache × (Link Card × World)). r.0) primed)) (
            secrets_of-IsPrimed keys answers.0 []
              (serve_all-Answered l ident pin (map dh keys) card w) (λ pk ss e. absurd (cc))),
        ap (λ (r : Cache × (Link Card × World)). r.1.0.queue) primed,
      )

  pub pub_key-IsAnswer :
      (ident pin : String) (card : Card) (w : World)
      → IsAnswer pub_key (serve l ident pin pub_key card w).0.0
  unfolding serve_all
  pub_key-IsAnswer ident pin card w = (serve_all-Answered l ident pin (pub_key ∷ []) card w).0

  handle-IsReady :
      (pin : String) (keys : List (List ℕ)) (w : World) (r : Run (Outcome (Card × String)))
      → IsReady (with_handle l pin keys w (as_handle l (opened_as l r))).0
  handle-IsReady pin keys w panics = tt
  handle-IsReady pin keys w (returns (err e)) = tt
  handle-IsReady pin keys w (returns (ok (card, ident))) =
      let (answer, w') = serve l ident pin pub_key card w in
      let h : CardHandle Card = record { link = idle card; ident = ident; cache = [] } in
      subst (λ (r : Run (List ℕ) × (Link Card × World)). IsReady (with_key l pin keys h r.1 r.0).0)
        (sym (pubkey-ready ident pin card 0 w))
        (key-IsReady pin keys ident (idle card) answer.1 1 w' answer.0
          (pub_key-IsAnswer ident pin card w))

  card-IsReady :
      (spawned : Attempt (Unit {0})) (ident pin : String) (keys : List (List ℕ)) (w : World)
      → IsReady (with_card l spawned ident pin keys w).0
  unfolding with_card open_card
  card-IsReady (failed e) ident pin keys w = tt
  card-IsReady (done t) ident pin keys w =
      handle-IsReady pin keys _ (open_and_verify l ident pin w).0

  pin-IsReady :
      (built : Bool) (spawned : Attempt (Unit {0})) (ident : String) (keys : List (List ℕ))
      (w : World) (pin : Result String)
      → IsReady (with_pin l built spawned ident keys w pin).0
  pin-IsReady built spawned ident keys w (Result.err e) = tt
  pin-IsReady true spawned ident keys w (Result.ok pin) = card-IsReady spawned ident pin keys w
  pin-IsReady false spawned ident keys w (Result.ok pin) = tt

  -- A start on a card that comes to the tunnel has a public key of 32 bytes, a cache that holds nothing
  -- but shared secrets of 32 bytes that are not all zero, and an empty queue, whatever the card did.
  pub run_smartcard-IsReady :
      {n : IpNetLib} (s : Surroundings) (built : Bool) (spawned : Attempt (Unit {0}))
      (ident pin_entry : String) (peers : List (PeerConfig n)) (w : World)
      → IsReady (run_smartcard l s built spawned ident pin_entry peers w).0
  unfolding run_smartcard
  run_smartcard-IsReady s built spawned ident pin_entry peers w =
      pin-IsReady built spawned ident (keys_of peers) w (obtain_pin s pin_entry)
