-- ===== src/Card/Cache.antt =====
-- smartguard-crypto/src/card.rs: when the cache answers in place of the card thread.
use mathlib.Core.Logic.{if_pos, if_neg}
use smartguard.Prelude.{ℕ, none, some, List, [], ◌∷◌, ◌≡◌, ◌≢◌, refl, sym, ◌∙◌, State, inl, inr}
use smartguard.Card.{Outcome, ok, err}
use smartguard.Card.Laws.{Outcome-cases}
use smartguard.Card.Handle.{
  key_discrete, Sent, replied, dropped, full, disconnected, received, Cache, cache_get,
  cache_remove, cache_insert, forget_peer, shared, key_exchange_error, exchange_of, dh, prime_ss,
  async_x25519,
}

cache_get-cache_insert :
    (cache : Cache) (pk ss : List ℕ) → cache_get (cache_insert cache pk ss) pk ≡ some ss
cache_get-cache_insert cache pk ss = if_pos (key_discrete pk pk) refl (some ss) (cache_get cache pk)

cache_get-cache_insert_other :
    (cache : Cache) (pk ss other : List ℕ)
    → other ≢ pk
    → cache_get (cache_insert cache pk ss) other ≡ cache_get cache other
cache_get-cache_insert_other cache pk ss other differs =
    if_neg (key_discrete pk other) (λ e. differs (sym e)) (some ss) (cache_get cache other)

cache_get-cache_remove : (cache : Cache) (pk : List ℕ) → cache_get (cache_remove cache pk) pk ≡ none
cache_get-cache_remove [] pk = refl
cache_get-cache_remove ((k, ss) ∷ pairs) pk = elim (key_discrete k pk) [
  | yes same ↦ rw (if_pos (key_discrete k pk) same) (cache_get-cache_remove pairs pk)
  | no differs ↦
      rw (if_neg (key_discrete k pk) differs)
        (rw (if_neg (key_discrete k pk) differs) (cache_get-cache_remove pairs pk))
]

cache_get-cache_remove_other :
    (cache : Cache) (pk other : List ℕ)
    → other ≢ pk
    → cache_get (cache_remove cache pk) other ≡ cache_get cache other
cache_get-cache_remove_other [] pk other differs = refl
cache_get-cache_remove_other ((k, ss) ∷ pairs) pk other differs = elim (key_discrete k pk) [
  | yes same ↦
      rw
        (
          if_pos (key_discrete k pk) same,
          if_neg (key_discrete k other) (λ e. differs (sym e ∙ same)),
        )
        (cache_get-cache_remove_other pairs pk other differs)
  | no apart ↦
      rw (if_neg (key_discrete k pk) apart)
        (rw (cache_get-cache_remove_other pairs pk other differs, cache_get) refl)
]

module _ {Thread : Type 0} (ask : List ℕ → State Thread Sent) where
  -- The cache answers for a peer exactly as another cache does.
  async_x25519-same :
      (cache cache' : Cache) (pk : List ℕ) (t : Thread)
      → cache_get cache pk ≡ cache_get cache' pk
      → async_x25519 ask cache pk t ≡ async_x25519 ask cache' pk t
  unfolding async_x25519
  async_x25519-same cache cache' pk t e = rw (e, async_x25519) refl

  primed_inj :
      (a b : Cache) (v u : Thread)
      → ◌≡◌ {A = (Outcome (Unit {0}) × Cache) × Thread} ((ok tt, a), v) ((ok tt, b), u)
      → (a ≡ b) × (v ≡ u)
  primed_inj a b v u e = (cc, cc)

  -- Where priming a peer succeeds, the thread was asked once and replied with a secret, with which
  -- the handle answers from then on for that peer without the thread; for other peers it answers as
  -- before.
  pub prime_ss-async_x25519 :
      (cache cache' : Cache) (pk : List ℕ) (t t' : Thread)
      → prime_ss ask cache pk t ≡ ((ok tt, cache'), t')
      → (ss : List ℕ) × (received (ask pk t).0 ≡ ok ss)
        × (t' ≡ (ask pk t).1)
        × ((u : Thread) → async_x25519 ask cache' pk u ≡ (shared ss, u))
        × ((other : List ℕ) (u : Thread)
            → other ≢ pk
            → async_x25519 ask cache' other u ≡ async_x25519 ask cache other u)
  unfolding prime_ss async_x25519
  prime_ss-async_x25519 cache cache' pk t t' e = elim (Outcome-cases (received (ask pk t).0)) [
    | inr (x, e') ↦ absurd (cc (rw (e', prime_ss, dh) at e))
    | inl (ss, e') ↦
        let (same, at) =
          primed_inj (cache_insert cache pk ss) cache' _ t' (rw (e', prime_ss, dh) at e) in
        (
          ss,
          e',
          sym at,
          λ u. rw (← same) (rw (cache_get-cache_insert cache pk ss, async_x25519) refl),
          λ other u differs.
              async_x25519-same cache' cache other u
                (rw (← same) (cache_get-cache_insert_other cache pk ss other differs)),
        )
  ]

  -- After a peer is forgotten, the thread is asked for it again: the secret that it replies with is the
  -- answer, and whatever else comes of the request, an error that it replies with, a dropped reply, a
  -- full queue or no thread, is an error. For other peers the handle answers as before.
  pub forget_peer-async_x25519 :
      (cache : Cache) (pk : List ℕ) (t : Thread)
      → let answer = async_x25519 ask (forget_peer cache pk) pk t in
        (answer.1 ≡ (ask pk t).1)
        × ((ss : List ℕ) → (ask pk t).0 ≡ replied (ok ss) → answer.0 ≡ shared ss)
        × (((ss : List ℕ) → (ask pk t).0 ≢ replied (ok ss)) → answer.0 ≡ key_exchange_error)
        × ((other : List ℕ)
            → other ≢ pk
            → async_x25519 ask (forget_peer cache pk) other t ≡ async_x25519 ask cache other t)
  unfolding async_x25519 forget_peer
  forget_peer-async_x25519 cache pk t = (
    rw (cache_get-cache_remove cache pk, async_x25519) refl,
    λ ss e. rw (cache_get-cache_remove cache pk, async_x25519, e) refl,
    λ no_secret.
        rw (cache_get-cache_remove cache pk, async_x25519) (unshared (ask pk t).0 no_secret),
    λ other differs.
        async_x25519-same (cache_remove cache pk) cache other t
          (cache_get-cache_remove_other cache pk other differs),
  )
    where
      unshared :
          (sent : Sent)
          → ((ss : List ℕ) → sent ≢ replied (ok ss))
          → exchange_of (received sent) ≡ key_exchange_error
      unshared (replied (ok ss)) no_secret = absurd (no_secret ss refl)
      unshared (replied (err e)) no_secret = refl
      unshared dropped no_secret = refl
      unshared full no_secret = refl
      unshared disconnected no_secret = refl
