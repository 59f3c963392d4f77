-- ===== src/Card/Open.antt =====
-- smartguard-crypto/src/card.rs, smartguard-crypto/src/thread.rs and smartguard/src/main.rs: a card is
-- opened, the handle asks its thread and waits for the reply, and the peers are primed. Nobody else
-- sends while the handle waits, so the thread works until nothing is pending.
use smartguard.Prelude.{
  ℕ, String, List, [], ◌∷◌, State, Run, returns, panics, ◌==◌, ◌<>◌, replicate, if◌then◌else◌,
}
use smartguard.Card.{Attempt, done, failed, card_error, Outcome, ok, err, CardLib}
use smartguard.Card.Thread.{Request, dh, pub_key, Reply, key_exchange, public_key, open_and_verify}
use smartguard.Card.Handle.{Sent, replied, full, disconnected, Cache, prime_ss}
use smartguard.Card.Channel.{
  Link, idle, load, TrySend, queued, no_room, no_receiver, try_send, work, act_all,
}

-- What comes of a request for which the handle waits.
pub data Asked : Type 0 where
  got : Reply → Asked
  was_full was_gone no_reply : Asked

abbrev pub take_reply : ℕ → List (ℕ × Reply) → Asked × List (ℕ × Reply)
take_reply i [] = (no_reply, [])
take_reply i ((j, reply) ∷ replies) =
    let rest = take_reply i replies in
    if i == j then (got reply, replies) else (rest.0, (j, reply) ∷ rest.1)

-- What a DH request gets. A one-shot of a DH has no public key.
abbrev pub sent_of : Asked → Sent
sent_of (got (key_exchange r)) = replied r
sent_of (got (public_key key)) = Sent.dropped
sent_of (got Reply.dropped) = Sent.dropped
sent_of was_full = full
sent_of was_gone = disconnected
sent_of no_reply = Sent.dropped

-- Both `expect`s of `pubkey`.
abbrev pub expect_key : Asked → Run (List ℕ)
expect_key (got (public_key key)) = returns key
expect_key (got (key_exchange r)) = panics
expect_key (got Reply.dropped) = panics
expect_key was_full = panics
expect_key was_gone = panics
expect_key no_reply = panics

-- What is held of the card: the link to its thread, the identity under which it was opened, and the
-- cache.
pub record CardHandle (C : Type 0) : Type 0 where
  pub link : Link C
  pub ident : String
  pub cache : Cache

module _ (l : CardLib) where
  open l use {World, Card}

  abbrev pub opened_as : Run (Outcome (Card × String)) → Outcome (Link Card × String)
  opened_as panics = err (card_error "card thread exited before ready")
  opened_as (returns (err e)) = err e
  opened_as (returns (ok (card, ident))) = ok (idle card, ident)

  abbrev pub run_thread :
      Attempt (Unit {0}) → String → String → State World (Outcome (Link Card × String))
  run_thread (failed e) requested pin w = (err (card_error ("spawn thread: " <> e)), w)
  run_thread (done t) requested pin w =
      let (opened, w') = open_and_verify l requested pin w in (opened_as opened, w')

  -- `spawned` is what the start of the thread gives.
  unfoldable pub spawn_card_thread :
      Attempt (Unit {0}) → String → String → State World (Outcome (Link Card × String))
  unfolding open_and_verify
  spawn_card_thread spawned requested pin = run_thread spawned requested pin

  abbrev pub as_handle : Outcome (Link Card × String) → Outcome (CardHandle Card)
  as_handle (err e) = err e
  as_handle (ok (link, ident)) = ok (record { link = link; ident = ident; cache = [] })

  -- `CardHandle::open`.
  unfoldable pub open_card :
      Attempt (Unit {0}) → String → String → State World (Outcome (CardHandle Card))
  unfolding spawn_card_thread
  open_card spawned requested pin w =
      let (thread, w') = spawn_card_thread spawned requested pin w in (as_handle thread, w')

  module _ (ident pin : String) where
    abbrev pub await_reply : TrySend × Link Card → World → Asked × (Link Card × World)
    await_reply (no_room, k) w = (was_full, (k, w))
    await_reply (no_receiver, k) w = (was_gone, (k, w))
    await_reply (queued i, k) w =
        let (k', w') = act_all l ident pin (replicate (load k.worker k.queue) work) k w in
        let (reply, replies) = take_reply i k'.replies in
        (reply, (record k' { replies = replies }, w'))

    -- `try_send`, and the wait for the one-shot.
    unfoldable pub ask_thread : Request → State (Link Card × World) Asked
    unfolding try_send act_all
    ask_thread req (k, w) = await_reply (try_send req k) w

    unfoldable pub ask : List ℕ → State (Link Card × World) Sent
    unfolding ask_thread
    ask peer_pk t = let (asked, t') = ask_thread (dh peer_pk) t in (sent_of asked, t')

    -- `CardHandle::pubkey`.
    unfoldable pub pubkey : State (Link Card × World) (Run (List ℕ))
    unfolding ask_thread
    pubkey t = let (asked, t') = ask_thread pub_key t in (expect_key asked, t')

    -- The loop of `run_smartcard` over the peers' keys; an error is only printed.
    unfoldable pub prime_all : List (List ℕ) → Cache → State (Link Card × World) Cache
    unfolding ask prime_ss
    prime_all [] cache t = (cache, t)
    prime_all (pk ∷ pks) cache t =
        let (primed, t') = prime_ss ask cache pk t in prime_all pks primed.1 t'
