-- ===== src/Cli/ShowCard.antt =====
-- smartguard/src/main.rs: `cmd_show_card`, with what it prints as lines; base64 is a parameter. A key that
-- it prints is read as a peer's key from a configuration.
use smartguard.Prelude.{
  ℕ, zero, suc, ◌/◌, ◌%◌, String, Option, none, some, List, [], ◌∷◌, ◌++◌, ◌≡◌, ◌∙◌, refl, subst,
  map, State, length, leb, ltb, if◌then◌else◌, ◌<>◌, strip_prefix, strip_prefix-append, All,
  Bool-cases, inl, inr, leb→le, length-take, arith, All-append,
}
use text.Mathlib.TextLemmas.{cons-append}
use smartguard.Card.{Outcome, ok, err, CardLib}
use smartguard.Card.Laws.{Attempt-cases, ok_inj}
use smartguard.Card.Thread.{open_slot, and_then, attempt}
use smartguard.Card.Listing.{CardInfo, info_of, info_at, list_slots, list_cards}
use smartguard.Config.{Read, value, deserialize_key_base64}
use smartguard.Net.Display.{digit}
use smartguard.Peers.{Key}

-- Decimals of a number; the fuel is the number itself, which has no more digits.
abbrev decimal : ℕ → ℕ → String
decimal zero n = digit (n % 10)
decimal (suc fuel) n =
    let rest = decimal fuel (n / 10) in if ltb n 10 then digit (n % 10) else rest <> digit (n % 10)

module _ (encode : Key → String) where
  abbrev pub card_lines : CardInfo → List String
  card_lines card =
      ("  Card:       " <> card.ident) ∷ ("  Public key: " <> encode card.public_key) ∷ "" ∷ []

  abbrev pub all_card_lines : List CardInfo → List String
  all_card_lines [] = []
  all_card_lines (card ∷ cards) = card_lines card ++ all_card_lines cards

  unfoldable pub show_lines : List CardInfo → List String
  show_lines [] =
      "No OpenPGP smartcards with X25519 decryption keys found." ∷ "" ∷ "Make sure:"
      ∷ "  - A smartcard reader is connected"
      ∷ "  - The card has an X25519 key in the decryption slot"
      ∷ "  - pcscd is running (Linux: systemctl start pcscd)" ∷ []
  show_lines (card ∷ cards) =
      let count = length (card ∷ cards) in
      ("Found " <> decimal count count <> " card(s):") ∷ "" ∷ all_card_lines (card ∷ cards)

  abbrev pub shown : Outcome (List CardInfo) → Outcome (List String)
  shown (ok cards) = ok (show_lines cards)
  shown (err e) = err e

  unfoldable pub cmd_show_card : (c : CardLib) → State c.World (Outcome (List String))
  unfolding show_lines list_cards
  cmd_show_card c w = let (listed, w') = list_cards c w in (shown listed, w')

abbrev with_key : (String → Option (List ℕ)) → Option String → List (Read Key) → List (Read Key)
with_key decode none rest = rest
with_key decode (some s) rest = deserialize_key_base64 decode s ∷ rest

-- What a reader of a peer's key makes of the lines with a public key.
abbrev pub keys_read : (String → Option (List ℕ)) → List String → List (Read Key)
keys_read decode [] = []
keys_read decode (line ∷ lines) =
    let rest = keys_read decode lines in with_key decode (strip_prefix "  Public key: " line) rest

keys_read-skip :
    (decode : String → Option (List ℕ)) (line : String) (lines : List String)
    → strip_prefix "  Public key: " line ≡ none
    → keys_read decode (line ∷ lines) ≡ keys_read decode lines
keys_read-skip decode line lines e = rw e

keys_read-key :
    (decode : String → Option (List ℕ)) (line s : String) (lines : List String)
    → strip_prefix "  Public key: " line ≡ some s
    → keys_read decode (line ∷ lines) ≡ deserialize_key_base64 decode s ∷ keys_read decode lines
keys_read-key decode line s lines e = rw e

card_line-no_key :
    (ident : String) → strip_prefix "  Public key: " ("  Card:       " <> ident) ≡ none
unfolding strip_prefix
card_line-no_key ident = rw cons-append (rw cons-append (rw cons-append refl))

count_line-no_key : (rest : String) → strip_prefix "  Public key: " ("Found " <> rest) ≡ none
unfolding strip_prefix
count_line-no_key rest = rw cons-append refl

info_of-length :
    (ident : String) (key : Option (List ℕ))
    → All (λ card. length card.public_key ≡ 32) (info_of ident key)
info_of-length ident none = tt
info_of-length ident (some key) = elim (Bool-cases (leb 32 (length key))) [
  | inr short ↦ rw short tt
  | inl long ↦ rw long (omega (arith, length-take 32 key, leb→le 32 (length key) long), tt)
]

module _ (c : CardLib) where
  info_at-length :
      (opened : Option (c.Card × String)) (w : c.World)
      → All (λ card. length card.public_key ≡ 32) (info_at c opened w).0
  info_at-length none w = tt
  info_at-length (some (card, ident)) w = info_of-length ident (c.public_key_material card w).0

  list_slots-length :
      (slots : List c.Slot) (w : c.World)
      → All (λ card. length card.public_key ≡ 32) (list_slots c slots w).0
  unfolding list_slots
  list_slots-length [] w = tt
  list_slots-length (slot ∷ slots) w =
      All-append _ (info_at c (open_slot c slot w).0 (open_slot c slot w).1).0 _
        (info_at-length (open_slot c slot w).0 _) (list_slots-length slots _)

  -- Each listed card has a key of 32 bytes.
  list_cards-length :
      (w : c.World) (cards : List CardInfo)
      → (list_cards c w).0 ≡ ok cards
      → All (λ card. length card.public_key ≡ 32) cards
  unfolding list_cards
  list_cards-length w cards e = elim (Attempt-cases (c.cards w).0) [
    | inr (x, e') ↦ absurd (cc (rw (e', list_cards, and_then, attempt) at e))
    | inl (slots, e') ↦
        subst (All (λ card. length card.public_key ≡ 32))
          (ok_inj (list_slots c slots (c.cards w).1).0 cards
            (rw (e', list_cards, and_then, attempt) at e))
          (list_slots-length slots (c.cards w).1)
  ]

module _ (encode : Key → String) (decode : String → Option (List ℕ)) where
  all_card_lines-read :
      (cards : List CardInfo)
      → All (λ card. length card.public_key ≡ 32) cards
      → All (λ card. decode (encode card.public_key) ≡ some card.public_key) cards
      → keys_read decode (all_card_lines encode cards) ≡ map (λ card. value card.public_key) cards
  unfolding deserialize_key_base64 strip_prefix
  all_card_lines-read [] long back = refl
  all_card_lines-read (card ∷ cards) long back =
      let line = "  Public key: " <> encode card.public_key in
      let rest = all_card_lines encode cards in
      keys_read-skip decode ("  Card:       " <> card.ident) (line ∷ "" ∷ rest)
        (card_line-no_key card.ident)
      ∙ keys_read-key decode line (encode card.public_key) ("" ∷ rest)
          (strip_prefix-append "  Public key: " (encode card.public_key))
      ∙ rw
          (
            back.0,
            long.0,
            keys_read-skip decode "" rest refl,
            all_card_lines-read cards long.1 back.1,
          )
          refl

  show_lines-read :
      (cards : List CardInfo)
      → All (λ card. length card.public_key ≡ 32) cards
      → All (λ card. decode (encode card.public_key) ≡ some card.public_key) cards
      → keys_read decode (show_lines encode cards) ≡ map (λ card. value card.public_key) cards
  unfolding show_lines strip_prefix
  show_lines-read [] long back = refl
  show_lines-read (card ∷ cards) long back =
      let count = length (card ∷ cards) in
      let found = decimal count count <> " card(s):" in
      let rest = all_card_lines encode (card ∷ cards) in
      keys_read-skip decode ("Found " <> found) ("" ∷ rest) (count_line-no_key found)
      ∙ keys_read-skip decode "" rest refl
      ∙ all_card_lines-read (card ∷ cards) long back

  -- Where base64 reads back what it writes of the keys of the listed cards, the public keys that are
  -- printed are read as a peer's key from a configuration: they are those of the listed cards, in order,
  -- and nothing else that is printed looks like one.
  pub cmd_show_card-keys :
      (c : CardLib) (w : c.World) (cards : List CardInfo)
      → (list_cards c w).0 ≡ ok cards
      → All (λ card. decode (encode card.public_key) ≡ some card.public_key) cards
      → (lines : List String) × ((cmd_show_card encode c w).0 ≡ ok lines)
        × (keys_read decode lines ≡ map (λ card. value card.public_key) cards)
  unfolding cmd_show_card
  cmd_show_card-keys c w cards listed back = (
    show_lines encode cards,
    rw listed refl,
    show_lines-read cards (list_cards-length c w cards listed) back,
  )
