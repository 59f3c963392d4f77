-- ===== src/Tests/Threads.antt =====
-- The theorems on the queue to the card thread of smartguard-crypto/src/thread.rs, and on the start on
-- a card of smartguard/src/main.rs, at two cards of which the second is asked.
use smartguard.Prelude.{ℕ, true, some, none, List, [], ◌∷◌, ◌≡◌, refl, arith, replicate}
use smartguard.Card.{done}
use smartguard.Card.Thread.{dh, pub_key, serve_all}
use smartguard.Card.Channel.{Action, send, work, hang_up, idle, act_all, accepted}
use smartguard.Card.Fifo.{IsFifo}
use smartguard.Card.Answers.{AllAnswered, act_all-idle-IsFifo, works-AllAnswered}
use smartguard.Card.Open.{prime_all}
use smartguard.Card.Asks.{ready, secrets_of, prime_all-serve_all}
use smartguard.Cli.{Surroundings}
use smartguard.Cli.Smartcard.{run_smartcard}
use smartguard.Cli.Primed.{IsReady, run_smartcard-IsReady}
use smartguard.Net.{IpNet}
use smartguard.Peers.{PeerConfig}
use smartguard.Tests.Toy.{toy_nets}
use smartguard.Tests.Cards.{toy_cards}

abbrev peer_key : List ℕ
peer_key = replicate 32 1

-- Two requests are sent, the first is answered while a third comes in, and the sender is dropped.
abbrev turns : List Action
turns = send (dh peer_key) ∷ send pub_key ∷ work ∷ send (dh (replicate 32 2)) ∷ work ∷ hang_up ∷ []

accepted_test :
    accepted toy_cards "0006:2" "123456" turns (idle "0006:2") 1
    ≡ dh peer_key ∷ pub_key ∷ dh (replicate 32 2) ∷ []
unfolding accepted
accepted_test = refl

act_all-idle-IsFifo_example :
    let (k, w') = act_all toy_cards "0006:2" "123456" turns (idle "0006:2") 1 in
    IsFifo toy_cards "0006:2" "123456" "0006:2" 1 k
      (accepted toy_cards "0006:2" "123456" turns (idle "0006:2") 1)
      w'
act_all-idle-IsFifo_example = act_all-idle-IsFifo toy_cards "0006:2" "123456" turns "0006:2" 1

works-AllAnswered_example :
    let (k, w') = act_all toy_cards "0006:2" "123456" turns (idle "0006:2") 1 in
    AllAnswered toy_cards "0006:2" "123456" "0006:2" 1
      (act_all toy_cards "0006:2" "123456" (replicate 65 work) k w').0
      (accepted toy_cards "0006:2" "123456" turns (idle "0006:2") 1)
works-AllAnswered_example =
    works-AllAnswered toy_cards "0006:2" "123456" "0006:2" 1 turns 65 (omega arith)

prime_all-serve_all_example :
    let (answers, w') =
      serve_all toy_cards "0006:2" "123456" (dh peer_key ∷ dh (replicate 32 2) ∷ []) "0006:2" 1 in
    prime_all toy_cards "0006:2" "123456" (peer_key ∷ replicate 32 2 ∷ []) [] (ready "0006:2" 1, 1)
    ≡ (secrets_of (peer_key ∷ replicate 32 2 ∷ []) answers.0 [], (ready answers.1 3, w'))
prime_all-serve_all_example =
    prime_all-serve_all toy_cards "0006:2" "123456" (peer_key ∷ replicate 32 2 ∷ []) [] "0006:2" 1 1

abbrev with_env : Surroundings
with_env = record { prompt = none; env = λ var_name. some "123456" }

abbrev a_peer : PeerConfig toy_nets
a_peer = record {
  public_key = peer_key;
  preshared_key = none;
  endpoint = none;
  allowed_ips = IpNet.v4 ("10.0.0.0/8", 8) ∷ [];
  persistent_keepalive = none;
}

run_smartcard-IsReady_example :
    IsReady toy_cards
      (run_smartcard toy_cards with_env true (done tt) "0006:2" "env:CARD_PIN" (a_peer ∷ []) 0).0
run_smartcard-IsReady_example =
    run_smartcard-IsReady toy_cards with_env true (done tt) "0006:2" "env:CARD_PIN" (a_peer ∷ []) 0
