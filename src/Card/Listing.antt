-- ===== src/Card/Listing.antt =====
-- smartguard-crypto/src/card.rs: the list of cards, and the card that `auto` opens.
use smartguard.Prelude.{
  ℕ, String, Option, none, some, List, [], ◌∷◌, ◌++◌, ◌≡◌, refl, ◌⊎◌, inl, inr, State, Run, returns,
  panics, leb, length, take, if◌then◌else◌, Bool-cases, Option-cases,
}
use smartguard.Card.{
  done, failed, card_not_found, card_error, pin_failed, Outcome, ok, err, CardLib,
}
use smartguard.Card.Thread.{
  and_then, attempt, or_skip, open_slot, choose_slot, choose, accept, open_and_verify,
  verify_opened,
}
use smartguard.Card.Laws.{Attempt-cases, ok_inj}

pub record CardInfo : Type 0 where
  pub ident : String
  pub public_key : List ℕ

abbrev pub info_of : String → Option (List ℕ) → List CardInfo
info_of ident none = []
info_of ident (some key) =
    if leb 32 (length key) then record { ident = ident; public_key = take 32 key } ∷ [] else []

module _ (l : CardLib) where
  open l use {World, Slot, Card}

  -- What is read of a slot that gave a card.
  abbrev pub info_at : Option (Card × String) → State World (List CardInfo)
  info_at none w = ([], w)
  info_at (some (card, ident)) w =
      (info_of ident (l.public_key_material card w).0, (l.public_key_material card w).1)

  -- The loop of `list_cards`.
  unfoldable pub list_slots : List Slot → State World (List CardInfo)
  unfolding open_slot
  list_slots [] w = ([], w)
  list_slots (slot ∷ slots) w =
      let here = info_at (open_slot l slot w).0 (open_slot l slot w).1 in
      let rest = list_slots slots here.1 in (here.0 ++ rest.0, rest.1)

  unfoldable pub list_cards : State World (Outcome (List CardInfo))
  unfolding list_slots
  list_cards =
      and_then (attempt card_error l.cards)
        λ slots w. (ok (list_slots slots w).0, (list_slots slots w).1)

  -- Nothing is listed and nothing found, or the first that is listed is found.
  abbrev pub Agree : List CardInfo → Outcome (Card × String) → Type 0
  Agree [] found = found ≡ err (card_not_found "auto")
  Agree (info ∷ infos) found = (card : Card) × (found ≡ ok (card, info.ident))

  key_agrees :
      (card : Card) (ident : String) (key : Option (List ℕ))
      → ((info_of ident key ≡ []) × (accept l "auto" card ident key ≡ none))
        ⊎ ((info : CardInfo) × (info_of ident key ≡ info ∷ [])
            × (info.ident ≡ ident)
            × (accept l "auto" card ident key ≡ some (ok (card, ident))))
  key_agrees card ident none = inl (refl, refl)
  key_agrees card ident (some key) = elim (Bool-cases (leb 32 (length key))) [
    | inl long ↦
        inr (record { ident = ident; public_key = take 32 key }, rw long refl, refl, rw long refl)
    | inr short ↦ inl (rw short refl, rw short refl)
  ]

  skip_slot :
      (slot : Slot) (w : World)
      → (open_slot l slot w).0 ≡ none
      → choose_slot l "auto" slot w ≡ (none, (open_slot l slot w).1)
  unfolding choose_slot
  skip_slot slot w gone = rw (gone, choose_slot, or_skip) refl

  choose_there :
      (card : Card) (ident : String) (slot : Slot) (w : World)
      → (open_slot l slot w).0 ≡ some (card, ident)
      → choose_slot l "auto" slot w ≡ (
        accept l "auto" card ident (l.public_key_material card (open_slot l slot w).1).0,
        (l.public_key_material card (open_slot l slot w).1).1,
      )
  unfolding choose_slot
  choose_there card ident slot w there = rw (there, choose_slot, or_skip) refl

  slots-Agree :
      (slots : List Slot) (w : World) → Agree (list_slots slots w).0 (choose l "auto" slots w).0
  unfolding list_slots choose
  slots-Agree [] w = refl
  slots-Agree (slot ∷ slots) w = elim (Option-cases (open_slot l slot w).0) [
    | inl gone ↦
        rw (list_slots, choose, skip_slot slot w gone, gone, info_at)
          (rw (skip_slot slot w gone) (slots-Agree slots (open_slot l slot w).1))
    | inr ((card, ident), there) ↦
        elim (key_agrees card ident (l.public_key_material card (open_slot l slot w).1).0) [
          | inl (unlisted, skipped) ↦
              rw
                (
                  list_slots,
                  choose,
                  choose_there card ident slot w there,
                  there,
                  unlisted,
                  skipped,
                  info_at,
                )
                (rw (choose_there card ident slot w there)
                  (slots-Agree slots (l.public_key_material card (open_slot l slot w).1).1))
          | inr (info, listed, same, found) ↦
              rw
                (
                  list_slots,
                  choose,
                  choose_there card ident slot w there,
                  there,
                  listed,
                  found,
                  info_at,
                )
                (card, rw same refl)
        ]
  ]

  -- What becomes of a card that was found: in the world `w1` after the search it is reached a second
  -- time and takes the PIN, or takes it not, or is not reached.
  abbrev pub OpensFound : Card → String → String → World → Run (Outcome (Card × String)) → Type 0
  OpensFound card ident pin w1 r =
      let again = l.transaction card w1 in
      let verified = l.verify_user_pin card pin again.1 in
      ((again.0 ≡ done tt) × (verified.0 ≡ done tt) × (r ≡ returns (ok (card, ident))))
      ⊎ ((msg : String) × (again.0 ≡ done tt)
          × (verified.0 ≡ failed msg)
          × (r ≡ returns (err (pin_failed msg))))
      ⊎ ((msg : String) × (again.0 ≡ failed msg) × (r ≡ panics))

  -- The search for a card for `auto`.
  abbrev pub search : State World (Outcome (Card × String))
  search = and_then (attempt card_error l.cards) (choose l "auto")

  -- What `auto` comes to where `infos` is listed: the search finds the first that is listed.
  abbrev pub AutoOpens : List CardInfo → String → World → Run (Outcome (Card × String)) → Type 0
  AutoOpens [] pin w r = r ≡ returns (err (card_not_found "auto"))
  AutoOpens (info ∷ infos) pin w r =
      (card : Card) × ((search w).0 ≡ ok (card, info.ident))
      × OpensFound card info.ident pin (search w).1 r

  chosen_opens :
      (infos : List CardInfo) (pin : String) (w : World)
      → Agree infos (search w).0
      → AutoOpens infos pin w (open_and_verify l "auto" pin w).0
  unfolding open_and_verify
  chosen_opens [] pin w h = rw (h, open_and_verify) refl
  chosen_opens (info ∷ infos) pin w (card, found) = (
    card,
    found,
    elim (Attempt-cases (l.transaction card (search w).1).0) [
      | inr (x, e) ↦ inr (inr (x, e, rw (found, e, open_and_verify, verify_opened) refl))
      | inl (tt, e) ↦
          elim (Attempt-cases (l.verify_user_pin card pin (l.transaction card (search w).1).1).0) [
            | inl (tt, e') ↦
                inl (e, e', rw (found, e, e', open_and_verify, verify_opened, attempt) refl)
            | inr (x, e') ↦
                inr
                  (inl (x, e, e', rw (found, e, e', open_and_verify, verify_opened, attempt) refl))
          ]
    ],
  )

  -- From the same state of the readers and cards, where the cards can be listed, `auto` finds no card
  -- if none is listed; and otherwise it comes to the first card that is listed. It opens that card if,
  -- after the search, a second transaction with the card succeeds and the card takes the PIN; where the
  -- card refuses the PIN, the error has the card's text; and the thread panics exactly where the second
  -- transaction fails.
  pub list_cards-auto :
      (infos : List CardInfo) (pin : String) (w : World)
      → (list_cards w).0 ≡ ok infos
      → AutoOpens infos pin w (open_and_verify l "auto" pin w).0
  unfolding list_cards
  list_cards-auto infos pin w e = elim (Attempt-cases (l.cards w).0) [
    | inr (x, e') ↦ absurd (cc (rw (e', list_cards, and_then, attempt) at e))
    | inl (slots, e') ↦
        let same =
          ok_inj (list_slots slots (l.cards w).1).0 infos
            (rw (e', list_cards, and_then, attempt) at e) in
        chosen_opens infos pin w
          (rw (e', and_then, attempt, ← same) (slots-Agree slots (l.cards w).1))
  ]
