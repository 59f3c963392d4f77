-- ===== src/Card/Opened.antt =====
-- smartguard-crypto/src/thread.rs: which card is opened.
use smartguard.Prelude.{
  ℕ, String, Option, none, some, List, [], ◌∷◌, ◌≡◌, ap, sym, subst, ◌∙◌, ◌⊎◌, inl, inr, Run,
  returns, leb, length, str_eq, eq_iff, Bool-cases, Option-cases,
}
use smartguard.Card.{done, Outcome, ok, CardLib}
use smartguard.Card.Thread.{
  and_then, choose_slot, choose, open_and_verify, open_slot, accept, verify_opened, attempt,
  or_skip,
}
use smartguard.Card.{card_error}
use smartguard.Card.Laws.{Outcome-cases, Attempt-cases}

pair_of : {A B : Type 0} (p : A × B) (a : A) (b : B) → p.0 ≡ a → p.1 ≡ b → p ≡ (a, b)
pair_of p a b e f = cc

opened_inj :
    {A B : Type 0} (a b : A) (v w : B)
    → ◌≡◌ {A = Run (Outcome A) × B} (returns (ok a), v) (returns (ok b), w)
    → (a ≡ b) × (v ≡ w)
opened_inj a b v w e = (cc, cc)

module _ (l : CardLib) where
  open l use {World, Slot, Card}

  accept-same :
      (requested : String) (card : Card) (ident : String) (key : Option (List ℕ))
      (opened : Card × String)
      → accept l requested card ident key ≡ some (ok opened)
      → opened.1 ≡ ident
  accept-same requested card ident none opened e = elim (Bool-cases (str_eq requested "auto")) [
    | inl auto ↦ absurd (cc (rw auto at e))
    | inr other ↦ absurd (cc (rw other at e))
  ]
  accept-same requested card ident (some key) opened e = elim (Bool-cases (leb 32 (length key))) [
    | inl long ↦ found (rw long at e)
    | inr short ↦ elim (Bool-cases (str_eq requested "auto")) [
      | inl auto ↦ absurd (cc (rw (short, auto) at e))
      | inr other ↦ absurd (cc (rw (short, other) at e))
    ]
  ]
    where
      found : some (ok (card, ident)) ≡ some (ok opened) → opened.1 ≡ ident
      found e = let same : (card, ident) ≡ opened = cc in ap (λ o. o.1) (sym same)

  -- The card is the one that was asked for.
  abbrev pub IsRequested : String → Card × String → Type 0
  IsRequested requested opened = (requested ≡ "auto") ⊎ (requested ≡ opened.1)

  choose_slot-IsRequested :
      (requested : String) (slot : Slot) (opened : Card × String) (w : World)
      → (choose_slot l requested slot w).0 ≡ some (ok opened)
      → IsRequested requested opened
  unfolding choose_slot
  choose_slot-IsRequested requested slot opened w e = elim (Option-cases (open_slot l slot w).0) [
    | inl gone ↦ absurd (cc (rw (gone, choose_slot, or_skip) at e))
    | inr ((card, ident), there) ↦ elim (Bool-cases (str_eq requested "auto")) [
      | inl auto ↦ inl ((eq_iff requested "auto").0 auto)
      | inr named ↦ elim (Bool-cases (str_eq requested ident)) [
        | inl same ↦ inr (
            (eq_iff requested ident).0 same
            ∙ sym (
                accept-same requested card ident
                  (l.public_key_material card (open_slot l slot w).1).0 opened
                  (rw (there, named, same, choose_slot, or_skip) at e)))
        | inr other ↦ absurd (cc (rw (there, named, other, choose_slot, or_skip) at e))
      ]
    ]
  ]

  choose-IsRequested :
      (requested : String) (slots : List Slot) (opened : Card × String) (w : World)
      → (choose l requested slots w).0 ≡ ok opened
      → IsRequested requested opened
  unfolding choose
  choose-IsRequested requested [] opened w e = absurd (cc)
  choose-IsRequested requested (slot ∷ slots) opened w e =
      elim (Option-cases (choose_slot l requested slot w).0) [
        | inl skipped ↦ choose-IsRequested requested slots opened _ (rw (skipped, choose) at e)
        | inr (found, here) ↦
            choose_slot-IsRequested requested slot opened w
              (here ∙ ap some (rw (here, choose) at e))
      ]

  -- Where opening gives a card, it is the one that was asked for, or `auto` was asked for, and the
  -- last thing that was done is that the card took the PIN.
  pub open_and_verify_opened :
      (requested pin : String) (opened : Card × String) (w w' : World)
      → open_and_verify l requested pin w ≡ (returns (ok opened), w')
      → IsRequested requested opened
        × ((before : World) × (l.verify_user_pin opened.0 pin before ≡ (done tt, w')))
  unfolding open_and_verify
  open_and_verify_opened requested pin opened w w' e = elim (Outcome-cases chosen.0) [
    | inr (x, e1) ↦ absurd (cc (rw (e1, open_and_verify) at e))
    | inl (found, e1) ↦ elim (Attempt-cases (l.transaction found.0 chosen.1).0) [
      | inr (x, e2) ↦ absurd (cc (rw (e1, e2, open_and_verify) at e))
      | inl (t, e2) ↦
          elim (Attempt-cases
            (l.verify_user_pin found.0 pin (l.transaction found.0 chosen.1).1).0) [
              | inr (x, e3) ↦
                  absurd (cc (rw (e1, e2, e3, open_and_verify, verify_opened, attempt) at e))
              | inl (v, e3) ↦
                  let (same, at) =
                    opened_inj found opened _ w'
                      (rw (e1, e2, e3, open_and_verify, verify_opened, attempt) at e) in
                  (
                    ap_IsRequested same (chosen-IsRequested found e1),
                    ((l.transaction found.0 chosen.1).1, rw (← same) (pair_of _ (done v) w' e3 at)),
                  )
            ]
    ]
  ]
    where
      chosen : Outcome (Card × String) × World
      chosen = and_then (attempt card_error l.cards) (choose l requested) w

      ap_IsRequested :
          {a b : Card × String} → a ≡ b → IsRequested requested a → IsRequested requested b
      ap_IsRequested same h = subst (IsRequested requested) same h

      chosen-IsRequested :
          (found : Card × String) → chosen.0 ≡ ok found → IsRequested requested found
      chosen-IsRequested found e1 = elim (Attempt-cases (l.cards w).0) [
        | inr (x, e2) ↦ absurd (cc (rw (e2, and_then, attempt) at e1))
        | inl (slots, e2) ↦
            choose-IsRequested requested slots found _ (rw (e2, and_then, attempt) at e1)
      ]
