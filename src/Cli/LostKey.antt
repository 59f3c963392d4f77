-- ===== src/Cli/LostKey.antt =====
-- smartguard/src/main.rs: when the start of `run_smartcard` panics.

use smartguard.Prelude.{String, ◌≡◌, Run, returns, panics}
use smartguard.Card.{Outcome, ok, err, CardLib}
use smartguard.Card.Thread.{pub_key, Reply, dropped, open_and_verify, serve}

module _ (l : CardLib) where
  open l use {World, Card}

  -- The card was opened, and gives no public key when it is asked again.
  abbrev pub LosesKey : String → String → World → Type 0
  LosesKey ident pin w =
      (card : Card) × (card_ident : String) × (w' : World) × (open_and_verify l ident pin w
        ≡ (returns (ok (card, card_ident)), w'))
      × ((serve l card_ident pin pub_key card w').0.0 ≡ dropped)

  abbrev reply_at : String → Run (Outcome (Card × String)) × World → Reply
  reply_at pin (returns (ok (card, ident)), w) = (serve l ident pin pub_key card w).0.0
  reply_at pin (returns (err e), w) = dropped
  reply_at pin (panics, w) = dropped
