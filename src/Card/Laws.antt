-- ===== src/Card/Laws.antt =====
-- smartguard-crypto/src/thread.rs: what a key that comes back is.
use smartguard.Prelude.{
  ℕ, ◌≤◌, String, false, Option, none, some, List, [], ◌∷◌, ◌≡◌, refl, ◌⊎◌, inl, inr, leb, leb→le,
  length, take, length-take, All, arith, Bool-cases, ==_iff,
}
use smartguard.Card.{Attempt, done, failed, SmartcardError, Outcome, ok, err, CardLib}
use smartguard.Card.Thread.{
  Request, dh, pub_key, Reply, key_exchange, public_key, dropped, is_zero, or_all, key_of, and_then,
  try_decipher, reconnect, decipher_with_retry, serve, serve_all, public_key_of, reply_public_key,
  attempt,
}
use smartguard.Prelude.{pure}
use smartguard.Card.{card_error, pin_failed, dh_failed}

-- 32 bytes, not all of them zero.
abbrev pub IsSharedSecret : List ℕ → Type 0
IsSharedSecret key = (length key ≡ 32) × ¬ All (λ b. b ≡ 0) key

or_all-zeros : (bs : List ℕ) → All (λ b. b ≡ 0) bs → or_all 0 bs ≡ 0
or_all-zeros [] h = refl
or_all-zeros (b ∷ bs) h = rw h.0 (or_all-zeros bs h.1)

pub ok_inj : {A : Type 0} (a b : A) → ok a ≡ ok b → a ≡ b
ok_inj a b e = cc

taken-IsSharedSecret :
    (ss : List ℕ) → 32 ≤ length ss → is_zero (take 32 ss) ≡ false → IsSharedSecret (take 32 ss)
taken-IsSharedSecret ss long nonzero = (
  omega (arith, length-take 32 ss),
  λ zeros. cc ((==_iff (or_all 0 (take 32 ss)) 0).1 (or_all-zeros (take 32 ss) zeros), nonzero),
)

key_of-IsSharedSecret : (ss key : List ℕ) → key_of ss ≡ ok key → IsSharedSecret key
unfolding key_of
key_of-IsSharedSecret ss key e = elim (Bool-cases (leb 32 (length ss))) [
  | inr short ↦ absurd (cc (rw short at e))
  | inl long ↦ elim (Bool-cases (is_zero (take 32 ss))) [
    | inl zero ↦ absurd (cc (rw (long, zero) at e))
    | inr nonzero ↦
        rw (← ok_inj (take 32 ss) key (rw (long, nonzero) at e))
          (taken-IsSharedSecret ss (leb→le 32 (length ss) long) nonzero)
  ]
]

-- An error, or a shared secret.
abbrev pub IsExchange : Outcome (List ℕ) → Type 0
IsExchange (ok key) = IsSharedSecret key
IsExchange (err e) = Unit

key_of-IsExchange : (ss : List ℕ) (r : Outcome (List ℕ)) → key_of ss ≡ r → IsExchange r
key_of-IsExchange ss (ok key) e = key_of-IsSharedSecret ss key e
key_of-IsExchange ss (err x) e = tt

-- What a request may be answered with.
abbrev pub IsAnswer : Request → Reply → Type 0
IsAnswer (dh pk) (key_exchange r) = IsExchange r
IsAnswer (dh pk) (public_key key) = ⊥
IsAnswer (dh pk) dropped = ⊥
IsAnswer pub_key (key_exchange r) = ⊥
IsAnswer pub_key (public_key key) = length key ≡ 32
IsAnswer pub_key dropped = Unit

abbrev pub Answered : List Request → List Reply → Type 0
Answered [] [] = Unit
Answered [] (reply ∷ replies) = ⊥
Answered (req ∷ reqs) [] = ⊥
Answered (req ∷ reqs) (reply ∷ replies) = IsAnswer req reply × Answered reqs replies

pub Outcome-cases :
    {A : Type 0} (o : Outcome A) → ((a : A) × (o ≡ ok a)) ⊎ ((e : SmartcardError) × (o ≡ err e))
Outcome-cases (ok a) = inl (a, refl)
Outcome-cases (err e) = inr (e, refl)

pub Attempt-cases :
    {A : Type 0} (o : Attempt A) → ((a : A) × (o ≡ done a)) ⊎ ((e : String) × (o ≡ failed e))
Attempt-cases (done a) = inl (a, refl)
Attempt-cases (failed e) = inr (e, refl)

and_then-IsExchange :
    {W A : Type 0} (s : W → Outcome A × W) (f : A → W → Outcome (List ℕ) × W) (w : W)
    → ((a : A) (w : W) → IsExchange (f a w).0)
    → IsExchange (and_then s f w).0
and_then-IsExchange s f w h = elim (Outcome-cases (s w).0) [
  | inl (a, e) ↦ rw (e, and_then, IsExchange) (h a (s w).1)
  | inr (x, e) ↦ rw (e, and_then, IsExchange) tt
]

module _ (l : CardLib) where
  open l use {World, Card}

  try_decipher-IsExchange :
      (card : Card) (pin : String) (peer_pk : List ℕ) (w : World)
      → IsExchange (try_decipher l card pin peer_pk w).0
  unfolding try_decipher
  try_decipher-IsExchange card pin peer_pk w =
      and_then-IsExchange (attempt card_error (l.transaction card))
        (λ t. and_then (attempt pin_failed (l.verify_user_pin card pin)) opened) w
        λ t w1.
          and_then-IsExchange (attempt pin_failed (l.verify_user_pin card pin)) opened w1 λ v w2.
            and_then-IsExchange (attempt dh_failed (l.decipher card peer_pk))
              (λ ss. pure (key_of ss)) w2 λ ss w3. key_of-IsExchange ss (key_of ss) refl
    where
      opened : Unit {0} → World → Outcome (List ℕ) × World
      opened v = and_then (attempt dh_failed (l.decipher card peer_pk)) λ ss. pure (key_of ss)

  decipher_with_retry-IsExchange :
      (card : Card) (ident pin : String) (peer_pk : List ℕ) (w : World)
      → IsExchange (decipher_with_retry l card ident pin peer_pk w).0.0
  unfolding decipher_with_retry
  decipher_with_retry-IsExchange card ident pin peer_pk w =
      elim (Outcome-cases (try_decipher l card pin peer_pk w).0) [
        | inl (key, e) ↦
            let shared = try_decipher-IsExchange card pin peer_pk w in
            rw (e, decipher_with_retry) (rw e at shared)
        | inr (x, e) ↦
            elim (Outcome-cases (reconnect l ident (try_decipher l card pin peer_pk w).1).0) [
              | inl (card', e') ↦
                  rw (e, e', decipher_with_retry) (try_decipher-IsExchange card' pin peer_pk _)
              | inr (x', e') ↦ rw (e, e', decipher_with_retry) tt
            ]
      ]

  public_key_of-IsAnswer : (key : Option (List ℕ)) → IsAnswer pub_key (public_key_of l key)
  public_key_of-IsAnswer none = tt
  public_key_of-IsAnswer (some key) = elim (Bool-cases (leb 32 (length key))) [
    | inl long ↦ rw long (omega (arith, length-take 32 key, leb→le 32 (length key) long))
    | inr short ↦ rw short tt
  ]

  reply_public_key-IsAnswer :
      (card : Card) (t : Attempt (Unit {0})) (w : World)
      → IsAnswer pub_key (reply_public_key l card t w).0
  reply_public_key-IsAnswer card (failed e) w = tt
  reply_public_key-IsAnswer card (done t) w =
      public_key_of-IsAnswer (l.public_key_material card w).0

  -- The thread answers every request in turn, whatever the card does: a DH with an error or with 32
  -- bytes that are not all zero, a question for the public key with 32 bytes or not at all.
  pub serve_all-Answered :
      (ident pin : String) (reqs : List Request) (card : Card) (w : World)
      → Answered reqs (serve_all l ident pin reqs card w).0.0
  unfolding serve_all serve
  serve_all-Answered ident pin [] card w = tt
  serve_all-Answered ident pin (dh peer_pk ∷ reqs) card w = (
    decipher_with_retry-IsExchange card ident pin peer_pk w,
    serve_all-Answered ident pin reqs _ _,
  )
  serve_all-Answered ident pin (pub_key ∷ reqs) card w =
      (reply_public_key-IsAnswer card _ _, serve_all-Answered ident pin reqs card _)
