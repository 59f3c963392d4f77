-- ===== src/Card/Handle.antt =====
-- smartguard-crypto/src/card.rs: the handle's cache in front of the card thread. The thread and the
-- queue to it are a parameter: asking gives what `try_send` and the wait for the one-shot give.
use smartguard.Prelude.{ℕ, Option, none, some, List, [], ◌∷◌, State}
use mathlib.Core.Logic.{ite}
use native.Mathlib.Decide.{ℕ_discrete}
use smartguard.Card.{queue_full, card_error, Outcome, ok, err}

pub key_discrete : Discrete (List ℕ)
key_discrete = hlevel ℕ_discrete

-- What comes of a request: a reply, a reply's sender that was dropped, a full queue, or no thread.
pub data Sent : Type 0 where
  replied : Outcome (List ℕ) → Sent
  dropped full disconnected : Sent

abbrev pub received : Sent → Outcome (List ℕ)
received (replied r) = r
received dropped = err (card_error "card thread dropped reply")
received full = err queue_full
received disconnected = err (card_error "card thread is gone")

-- `ss_cache`: the newest pair of a key comes first.
abbrev pub Cache : Type 0
Cache = List (List ℕ × List ℕ)

abbrev pub cache_get : Cache → List ℕ → Option (List ℕ)
cache_get [] pk = none
cache_get ((k, ss) ∷ pairs) pk = ite (key_discrete k pk) (some ss) (cache_get pairs pk)

abbrev pub cache_remove : Cache → List ℕ → Cache
cache_remove [] pk = []
cache_remove ((k, ss) ∷ pairs) pk =
    ite (key_discrete k pk) (cache_remove pairs pk) ((k, ss) ∷ cache_remove pairs pk)

abbrev pub cache_insert : Cache → List ℕ → List ℕ → Cache
cache_insert cache pk ss = (pk, ss) ∷ cache

-- `forget_peer`.
unfoldable pub forget_peer : Cache → List ℕ → Cache
forget_peer cache pk = cache_remove cache pk

-- The errors of a DH are one to the caller.
pub data Exchange : Type 0 where
  shared : List ℕ → Exchange
  key_exchange_error : Exchange

abbrev pub exchange_of : Outcome (List ℕ) → Exchange
exchange_of (ok ss) = shared ss
exchange_of (err e) = key_exchange_error

module _ {Thread : Type 0} (ask : List ℕ → State Thread Sent) where
  -- `CardHandle::dh`.
  unfoldable pub dh : List ℕ → State Thread (Outcome (List ℕ))
  dh peer_pk t = (received (ask peer_pk t).0, (ask peer_pk t).1)

  -- With the cache after it.
  unfoldable pub prime_ss : Cache → List ℕ → State Thread (Outcome (Unit {0}) × Cache)
  unfolding dh
  prime_ss cache peer_pk t =
      let (answer, t') = dh peer_pk t in
      elim answer [
        | ok ss ↦ ((ok tt, cache_insert cache peer_pk ss), t')
        | err e ↦ ((err e, cache), t')
      ]

  unfoldable pub async_x25519 : Cache → List ℕ → State Thread Exchange
  unfolding dh
  async_x25519 cache peer_pk t = elim (cache_get cache peer_pk) [
    | some ss ↦ (shared ss, t)
    | none ↦ (exchange_of (dh peer_pk t).0, (dh peer_pk t).1)
  ]
