-- ===== src/Card/Thread.antt =====
-- smartguard-crypto/src/thread.rs: the card is opened, a DH operation is tried twice, and requests
-- are served one after the other. The channels are the lists of requests and replies; the pause
-- before a reconnect and what is printed are left out.
use Prim.Native.Nat.{bit_or}
use smartguard.Prelude.{
  ℕ, String, Bool, Option, none, some, List, [], ◌∷◌, State, ◌>>=◌, pure, ◌&&◌, not, Run, returns,
  panics, ◌==◌, leb, length, take, if◌then◌else◌, str_eq,
}
use smartguard.Card.{
  Attempt, done, failed, SmartcardError, card_not_found, no_decryption_key, pin_failed, dh_failed,
  card_error, zero_shared_secret, Outcome, ok, err, CardLib,
}

abbrev pub map_err : {A : Type 0} → (String → SmartcardError) → Attempt A → Outcome A
map_err f (done a) = ok a
map_err f (failed e) = err (f e)

-- `?` in a function on the world.
abbrev pub and_then :
    {W A B : Type 0} → State W (Outcome A) → (A → State W (Outcome B)) → State W (Outcome B)
and_then s f w = elim (s w).0 [ ok a ↦ f a (s w).1 | err e ↦ (err e, (s w).1) ]

abbrev pub attempt :
    {W A : Type 0} → (String → SmartcardError) → State W (Attempt A) → State W (Outcome A)
attempt f s w = (map_err f (s w).0, (s w).1)

-- Nothing is left to do where a value is missing.
abbrev pub or_skip :
    {W A B : Type 0} → State W (Option A) → (A → State W (Option B)) → State W (Option B)
or_skip s f w = elim (s w).0 [ some a ↦ f a (s w).1 | none ↦ (none, (s w).1) ]

-- The bytes are or-ed together and compared with zero.
abbrev pub or_all : ℕ → List ℕ → ℕ
or_all acc [] = acc
or_all acc (b ∷ bs) = or_all (bit_or acc b) bs

abbrev pub is_zero : List ℕ → Bool
is_zero key = or_all 0 key == 0

-- The first 32 bytes of the secret, if they are there and not all zero.
unfoldable pub key_of : List ℕ → Outcome (List ℕ)
key_of ss =
    if leb 32 (length ss)
    then (if is_zero (take 32 ss) then err zero_shared_secret else ok (take 32 ss))
    else err (dh_failed "DECIPHER returned <32 bytes")

pub data Request : Type 0 where
  dh : List ℕ → Request
  pub_key : Request

-- What goes back through a request's one-shot; `dropped` where nothing does.
pub data Reply : Type 0 where
  key_exchange : Outcome (List ℕ) → Reply
  public_key : List ℕ → Reply
  dropped : Reply

module _ (l : CardLib) where
  open l use {World, Slot, Card}

  abbrev pub succeeded : {A : Type 0} → Attempt A → Option A
  succeeded (done a) = some a
  succeeded (failed e) = none

  -- A transaction of which the error is discarded.
  abbrev pub begin : Card → State World (Option (Unit {0}))
  begin card w = (succeeded (l.transaction card w).0, (l.transaction card w).1)

  unfoldable pub try_decipher : Card → String → List ℕ → State World (Outcome (List ℕ))
  unfolding key_of
  try_decipher card pin peer_pk = and_then (attempt card_error (l.transaction card)) λ t.
      and_then (attempt pin_failed (l.verify_user_pin card pin))
        λ v. and_then (attempt dh_failed (l.decipher card peer_pk)) λ ss. pure (key_of ss)

  -- The card in a slot and its identity, as far as a transaction gets.
  unfoldable pub open_slot : Slot → State World (Option (Card × String))
  open_slot slot = or_skip (l.next slot) λ backend. or_skip (l.new backend) λ card.
      or_skip (begin card)
        λ t. or_skip (l.application_identifier card) λ ident. pure (some (card, ident))

  -- The loop of `reconnect`.
  unfoldable pub find_card : String → List Slot → State World (Outcome Card)
  unfolding open_slot
  find_card ident [] w = (err (card_not_found ident), w)
  find_card ident (slot ∷ slots) w =
      let rest = find_card ident slots (open_slot slot w).1 in
      elim (open_slot slot w).0 [
        | none ↦ rest
        | some (card, card_ident) ↦
            if str_eq card_ident ident then (ok card, (open_slot slot w).1) else rest
      ]

  unfoldable pub reconnect : String → State World (Outcome Card)
  unfolding find_card
  reconnect ident = and_then (attempt card_error l.cards) λ slots. find_card ident slots

  -- With the card that is held afterwards.
  unfoldable pub decipher_with_retry :
      Card → String → String → List ℕ → State World (Outcome (List ℕ) × Card)
  unfolding try_decipher reconnect
  decipher_with_retry card ident pin peer_pk w =
      let (first, w1) = try_decipher card pin peer_pk w in
      elim first [
        | ok key ↦ ((ok key, card), w1)
        | err e ↦
            let (again, w2) = reconnect ident w1 in
            elim again [
              | err e' ↦ ((err e', card), w2)
              | ok card' ↦
                  let (second, w3) = try_decipher card' pin peer_pk w2 in ((second, card'), w3)
            ]
      ]

  -- What `find_map` makes of a card of the right identity: the card, an error, or neither.
  abbrev pub accept : String → Card → String → Option (List ℕ) → Option (Outcome (Card × String))
  accept requested card ident none =
      if str_eq requested "auto" then none else some (err no_decryption_key)
  accept requested card ident (some key) =
      if leb 32 (length key)
      then some (ok (card, ident))
      else if str_eq requested "auto"
      then none
      else some (err no_decryption_key)

  unfoldable pub choose_slot : String → Slot → State World (Option (Outcome (Card × String)))
  unfolding open_slot
  choose_slot requested slot = or_skip (open_slot slot) λ (card, ident).
      if not (str_eq requested "auto") && not (str_eq requested ident)
      then pure none
      else (do key ← l.public_key_material card; pure (accept requested card ident key))

  unfoldable pub choose : String → List Slot → State World (Outcome (Card × String))
  unfolding choose_slot
  choose requested [] w = (err (card_not_found requested), w)
  choose requested (slot ∷ slots) w =
      let rest = choose requested slots (choose_slot requested slot w).1 in
      elim (choose_slot requested slot w).0 [
        | none ↦ rest
        | some found ↦ (found, (choose_slot requested slot w).1)
      ]

  abbrev pub verify_opened :
      String → Card × String → Attempt (Unit {0}) → State World (Run (Outcome (Card × String)))
  verify_opened pin opened (failed e) w = (panics, w)
  verify_opened pin opened (done t) w =
      let (verified, w') = attempt pin_failed (l.verify_user_pin opened.0 pin) w in
      elim verified [ ok v ↦ (returns (ok opened), w') | err e ↦ (returns (err e), w') ]

  -- The second transaction is expected to succeed.
  unfoldable pub open_and_verify : String → String → State World (Run (Outcome (Card × String)))
  unfolding choose
  open_and_verify requested pin w =
      let (chosen, w1) = and_then (attempt card_error l.cards) (choose requested) w in
      elim chosen [
        | err e ↦ (returns (err e), w1)
        | ok opened ↦ let (t, w2) = l.transaction opened.0 w1 in verify_opened pin opened t w2
      ]

  abbrev pub public_key_of : Option (List ℕ) → Reply
  public_key_of none = dropped
  public_key_of (some key) = if leb 32 (length key) then public_key (take 32 key) else dropped

  abbrev pub reply_public_key : Card → Attempt (Unit {0}) → State World Reply
  reply_public_key card (failed e) w = (dropped, w)
  reply_public_key card (done t) w =
      (public_key_of (l.public_key_material card w).0, (l.public_key_material card w).1)

  -- One turn of the loop of `run`.
  unfoldable pub serve : String → String → Request → Card → State World (Reply × Card)
  unfolding decipher_with_retry
  serve ident pin (dh peer_pk) card w =
      let (answer, w') = decipher_with_retry card ident pin peer_pk w in
      ((key_exchange answer.0, answer.1), w')
  serve ident pin pub_key card w =
      let (t, w1) = l.transaction card w in
      let (reply, w2) = reply_public_key card t w1 in ((reply, card), w2)

  -- The loop of `run` over the requests until the sender is dropped.
  unfoldable pub serve_all : String → String → List Request → Card → State World (List Reply × Card)
  unfolding serve
  serve_all ident pin [] card w = (([], card), w)
  serve_all ident pin (req ∷ reqs) card w =
      let (first, w1) = serve ident pin req card w in
      let (rest, w2) = serve_all ident pin reqs first.1 w1 in ((first.0 ∷ rest.0, rest.1), w2)
