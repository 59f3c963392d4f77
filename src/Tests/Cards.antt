-- ===== src/Tests/Cards.antt =====
-- The theorems on smartguard-crypto/src/thread.rs and card.rs at two cards that take one PIN. The
-- world counts the PINs that were taken.
use smartguard.Prelude.{
  ℕ, ◌+◌, String, some, List, [], ◌∷◌, ◌≡◌, ◌≢◌, refl, State, pure, returns, replicate, str_eq,
  if◌then◌else◌,
}
use smartguard.Card.{Attempt, done, failed, ok, CardLib}
use smartguard.Card.Thread.{dh, pub_key, open_and_verify, serve_all, try_decipher}
use smartguard.Card.Laws.{Answered, serve_all-Answered}
use smartguard.Card.Opened.{IsRequested, open_and_verify_opened}
use smartguard.Card.Handle.{
  Sent, replied, received, Cache, shared, key_exchange_error, prime_ss, async_x25519, forget_peer,
}
use smartguard.Cli.ShowCard.{cmd_show_card, keys_read, cmd_show_card-keys}
use smartguard.Config.{value}
use smartguard.Card.Listing.{CardInfo, list_cards, AutoOpens, list_cards-auto}
use smartguard.Card.Cache.{prime_ss-async_x25519, forget_peer-async_x25519}

abbrev toy_pin : String → State ℕ (Attempt (Unit {0}))
toy_pin pin w = if str_eq pin "123456" then (done tt, w + 1) else (failed "wrong PIN", w)

abbrev secret : List ℕ
secret = replicate 32 5

abbrev pub toy_cards : CardLib
toy_cards = record {
  World = ℕ;
  Slot = String;
  Backend = String;
  Card = String;
  cards = pure (done ("0006:1" ∷ "0006:2" ∷ []));
  next = λ slot. pure (some slot);
  new = λ backend. pure (some backend);
  transaction = λ card. pure (done tt);
  application_identifier = λ card. pure (some card);
  public_key_material = λ card. pure (some (replicate 32 9));
  verify_user_pin = λ card pin. toy_pin pin;
  decipher = λ card pk. pure (done secret);
}

serve_all-Answered_example :
    Answered
      (dh (replicate 32 9) ∷ pub_key ∷ [])
      (serve_all toy_cards "0006:2" "123456" (dh (replicate 32 9) ∷ pub_key ∷ []) "0006:2" 1).0.0
serve_all-Answered_example =
    serve_all-Answered toy_cards "0006:2" "123456" (dh (replicate 32 9) ∷ pub_key ∷ []) "0006:2" 1

-- One DH takes the PIN once and gives the secret.
try_decipher_test : try_decipher toy_cards "0006:2" "123456" (replicate 32 9) 1 ≡ (ok secret, 2)
unfolding try_decipher
try_decipher_test = refl

opened_test : open_and_verify toy_cards "0006:2" "123456" 0 ≡ (returns (ok ("0006:2", "0006:2")), 1)
unfolding open_and_verify
opened_test = refl

open_and_verify_opened_example :
    IsRequested toy_cards "0006:2" ("0006:2", "0006:2")
    × ((before : ℕ) × (toy_cards.verify_user_pin "0006:2" "123456" before ≡ (done tt, 1)))
open_and_verify_opened_example =
    open_and_verify_opened toy_cards "0006:2" "123456" ("0006:2", "0006:2") 0 1 opened_test

-- A thread that counts what it is asked.
abbrev toy_ask : List ℕ → State ℕ Sent
toy_ask pk asked = (replied (ok secret), asked + 1)

abbrev peer : List ℕ
peer = replicate 32 1

abbrev other_peer : List ℕ
other_peer = replicate 32 2

primed_test : prime_ss toy_ask [] peer 0 ≡ ((ok tt, (peer, secret) ∷ []), 1)
unfolding prime_ss
primed_test = refl

prime_ss-async_x25519_example :
    (ss : List ℕ) × (received (toy_ask peer 0).0 ≡ ok ss)
    × (1 ≡ (toy_ask peer 0).1)
    × ((u : ℕ) → async_x25519 toy_ask ((peer, secret) ∷ []) peer u ≡ (shared ss, u))
    × ((other : List ℕ) (u : ℕ)
        → other ≢ peer
        → async_x25519 toy_ask ((peer, secret) ∷ []) other u ≡ async_x25519 toy_ask [] other u)
prime_ss-async_x25519_example =
    prime_ss-async_x25519 toy_ask [] ((peer, secret) ∷ []) peer 0 1 primed_test

abbrev primed : Cache
primed = (peer, secret) ∷ (other_peer, secret) ∷ (peer, other_peer) ∷ []

forget_peer-async_x25519_example :
    let answer = async_x25519 toy_ask (forget_peer primed peer) peer 4 in
    (answer.1 ≡ 5)
    × ((ss : List ℕ) → (toy_ask peer 4).0 ≡ replied (ok ss) → answer.0 ≡ shared ss)
    × (((ss : List ℕ) → (toy_ask peer 4).0 ≢ replied (ok ss)) → answer.0 ≡ key_exchange_error)
    × ((other : List ℕ)
        → other ≢ peer
        → async_x25519 toy_ask (forget_peer primed peer) other 4
          ≡ async_x25519 toy_ask primed other 4)
forget_peer-async_x25519_example = forget_peer-async_x25519 toy_ask primed peer 4

abbrev listed : List CardInfo
listed =
    record { ident = "0006:1"; public_key = replicate 32 9 }
    ∷ record { ident = "0006:2"; public_key = replicate 32 9 }
    ∷ []

listed_test : (list_cards toy_cards 0).0 ≡ ok listed
unfolding list_cards
listed_test = refl

list_cards-auto_example :
    AutoOpens toy_cards listed "123456" 0 (open_and_verify toy_cards "auto" "123456" 0).0
list_cards-auto_example = list_cards-auto toy_cards listed "123456" 0 listed_test

-- The texts of the key that the cards have, and what is read of them.
cmd_show_card-keys_example :
    (lines : List String) × ((cmd_show_card (λ k. "key") toy_cards 0).0 ≡ ok lines)
    × (keys_read (λ s. some (replicate 32 9)) lines
        ≡ value (replicate 32 9) ∷ value (replicate 32 9) ∷ [])
cmd_show_card-keys_example =
    cmd_show_card-keys (λ k. "key") (λ s. some (replicate 32 9)) toy_cards 0 listed listed_test
      (refl, (refl, tt))

printed_test :
    (cmd_show_card (λ k. "key") toy_cards 0).0
    ≡ ok (
        "Found 2 card(s):" ∷ "" ∷ "  Card:       0006:1" ∷ "  Public key: key" ∷ ""
        ∷ "  Card:       0006:2" ∷ "  Public key: key" ∷ "" ∷ [])
unfolding cmd_show_card
printed_test = refl
