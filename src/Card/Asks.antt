-- ===== src/Card/Asks.antt =====
-- smartguard-crypto/src/card.rs and smartguard/src/main.rs: a handle that waits for each reply is
-- served at once by the thread.
use smartguard.Prelude.{
  State, suc, ℕ, ◌+◌, String, true, List, [], ◌∷◌, map, ◌≡◌, refl, ap, ◌∙◌, length, ==_iff, arith,
}
use smartguard.Card.{Outcome, ok, err, CardLib}
use smartguard.Card.Thread.{
  Request, dh, Reply, key_exchange, public_key, dropped, decipher_with_retry, serve, serve_all,
}
use smartguard.Card.Handle.{received, Sent, replied, Cache, cache_insert, prime_ss}
use smartguard.Card.Channel.{Link, waiting, act_all, work_once, try_send}
use smartguard.Card.Open.{Asked, got, sent_of, take_reply, ask_thread, ask, prime_all}

-- The thread waits for a request and owes no reply.
abbrev pub ready : {C : Type 0} → C → ℕ → Link C
ready card tickets = record {
  worker = waiting card;
  queue = [];
  replies = [];
  tickets = tickets;
  held = true;
}

-- The cache with the secret that came back for a peer, if one did.
abbrev pub with_secret : List ℕ → Reply → Cache → Cache
with_secret pk (key_exchange (ok ss)) cache = cache_insert cache pk ss
with_secret pk (key_exchange (err e)) cache = cache
with_secret pk (public_key key) cache = cache
with_secret pk dropped cache = cache

-- The cache after all peers were asked for.
unfoldable pub secrets_of : List (List ℕ) → List Reply → Cache → Cache
secrets_of [] replies cache = cache
secrets_of (pk ∷ pks) [] cache = cache
secrets_of (pk ∷ pks) (reply ∷ replies) cache = secrets_of pks replies (with_secret pk reply cache)

module _ {T : Type 0} where
  abbrev primed : List ℕ → Cache → T → Outcome (List ℕ) → (Outcome (Unit {0}) × Cache) × T
  primed pk cache t (ok ss) = ((ok tt, cache_insert cache pk ss), t)
  primed pk cache t (err e) = ((err e, cache), t)

  primed-with_secret :
      (pk : List ℕ) (cache : Cache) (answer : Outcome (List ℕ)) (t : T)
      → ◌≡◌ {A = Cache × T}
          ((primed pk cache t answer).0.1, (primed pk cache t answer).1)
          (with_secret pk (key_exchange answer) cache, t)
  primed-with_secret pk cache (ok ss) t = refl
  primed-with_secret pk cache (err e) t = refl

  prime_ss-primed :
      (ask' : List ℕ → State T Sent) (cache : Cache) (pk : List ℕ) (t : T)
      → prime_ss ask' cache pk t ≡ primed pk cache (ask' pk t).1 (received (ask' pk t).0)
  unfolding prime_ss
  prime_ss-primed ask' cache pk t = refl

module _ (l : CardLib) (ident pin : String) where
  open l use {World, Card}

  take_reply_own : (i : ℕ) (reply : Reply) → take_reply i ((i, reply) ∷ []) ≡ (got reply, [])
  take_reply_own i reply = rw (==_iff i i).1 refl

  -- A request to a thread that is ready is answered as the thread serves it, and the thread is ready
  -- again.
  pub ask_thread-serve :
      (req : Request) (card : Card) (n : ℕ) (w : World)
      → let (answer, w') = serve l ident pin req card w in
        ask_thread l ident pin req (ready card n, w) ≡ (got answer.0, (ready answer.1 (n + 1), w'))
  unfolding ask_thread act_all work_once try_send
  ask_thread-serve req card n w =
      let (answer, w') = serve l ident pin req card w in
      ap
        (λ (r : Asked × List (ℕ × Reply)).
          let k : Link Card = record (ready answer.1 (n + 1)) { replies = r.1 } in (r.0, (k, w')))
        (take_reply_own n answer.0)

  ask-ready :
      (pk : List ℕ) (card : Card) (n : ℕ) (w : World)
      → let (answer, w') = decipher_with_retry l card ident pin pk w in
        ask l ident pin pk (ready card n, w) ≡ (replied answer.0, (ready answer.1 (n + 1), w'))
  unfolding ask serve
  ask-ready pk card n w =
      ap (λ (r : Asked × (Link Card × World)). (sent_of r.0, r.1))
        (ask_thread-serve (dh pk) card n w)

  prime_ss-ready :
      (cache : Cache) (pk : List ℕ) (card : Card) (n : ℕ) (w : World)
      → let (answer, w') = decipher_with_retry l card ident pin pk w in
        let (r, t) = prime_ss (ask l ident pin) cache pk (ready card n, w) in
        ◌≡◌ {A = Cache × (Link Card × World)}
          (r.1, t)
          (with_secret pk (key_exchange answer.0) cache, (ready answer.1 (n + 1), w'))
  prime_ss-ready cache pk card n w =
      let (answer, w') = decipher_with_retry l card ident pin pk w in
      ap (λ (r : (Outcome (Unit {0}) × Cache) × (Link Card × World)). (r.0.1, r.1))
        (prime_ss-primed (ask l ident pin) cache pk (ready card n, w)
          ∙ ap (λ (a : Sent × (Link Card × World)). primed pk cache a.1 (received a.0))
              (ask-ready pk card n w))
      ∙ primed-with_secret pk cache answer.0 (ready answer.1 (n + 1), w')

  -- Where the thread is ready, the peers are primed as the thread serves one DH for each, in order, and
  -- the cache keeps the secrets that it replied with.
  pub prime_all-serve_all :
      (pks : List (List ℕ)) (cache : Cache) (card : Card) (n : ℕ) (w : World)
      → let (answers, w') = serve_all l ident pin (map dh pks) card w in
        prime_all l ident pin pks cache (ready card n, w)
        ≡ (secrets_of pks answers.0 cache, (ready answers.1 (n + length pks), w'))
  unfolding prime_all secrets_of serve_all serve
  prime_all-serve_all [] cache card n w = ap (λ i. (cache, (ready card i, w))) (omega arith)
  prime_all-serve_all (pk ∷ pks) cache card n w =
      let (answer, w') = decipher_with_retry l card ident pin pk w in
      ap (λ (r : Cache × (Link Card × World)). prime_all l ident pin pks r.0 r.1)
        (prime_ss-ready cache pk card n w)
      ∙ prime_all-serve_all pks (with_secret pk (key_exchange answer.0) cache) answer.1 (n + 1) w'
      ∙ ap
          (λ i.
            let (answers, last) = serve_all l ident pin (map dh pks) answer.1 w' in
            (
              secrets_of pks answers.0 (with_secret pk (key_exchange answer.0) cache),
              (ready answers.1 i, last),
            ))
          later
    where
      later : n + 1 + length pks ≡ n + suc (length pks)
      later = omega arith
