-- ===== src/Config/Laws.antt =====
-- smartguard/src/config.rs: which values give which private key.
use smartguard.Config.{
  Read, value, unread, Presented, text, table, array, something_else, PrivateKeyConfig, software,
  smartcard, smartcard_auto, deserialize_key_base64, visit_str, read_entries, visit_map,
  deserialize_private_key, card_of, exactly_32, read_bind,
}
use smartguard.Peers.{Key}
use smartguard.Prelude.{
  ℕ, String, Option, none, some, List, [], ◌∷◌, ◌≡◌, ◌≢◌, refl, ◌↔◌, inl, inr, length, str_eq,
  eq_iff, ◌==◌, if◌then◌else◌, Bool-cases, ◌∙◌, ap, sym, ==_iff,
}

-- A table whose entries are all for the card, with their texts in order.
abbrev pub card_entries : List String → List (String × Option String)
card_entries [] = []
card_entries (s ∷ ss) = ("smartcard", some s) ∷ card_entries ss

-- The last of the texts, or the one before them.
abbrev pub last_or : Option String → List String → Option String
last_or found [] = found
last_or found (s ∷ ss) = last_or (some s) ss

read_entries-card :
    (found : Option String) (ss : List String)
    → read_entries found (card_entries ss) ≡ value (last_or found ss)
unfolding read_bind read_entries
read_entries-card found [] = refl
read_entries-card found (s ∷ ss) = read_entries-card (some s) ss

-- Only a table of card entries is read to the end.
read_entries-eq-value :
    (found : Option String) (entries : List (String × Option String)) (result : Option String)
    → read_entries found entries ≡ value result
    → (ss : List String) × (entries ≡ card_entries ss) × (result ≡ last_or found ss)
unfolding read_bind read_entries
read_entries-eq-value found [] result e = ([], refl, cc)
read_entries-eq-value found ((key, none) ∷ rest) result e =
    elim (Bool-cases (str_eq key "smartcard")) [
      | inl card ↦ absurd (cc (rw card at e))
      | inr other ↦ absurd (cc (rw other at e))
    ]
read_entries-eq-value found ((key, some s) ∷ rest) result e =
    elim (Bool-cases (str_eq key "smartcard")) [
      | inl card ↦
          let same = (eq_iff key "smartcard").0 card in
          let (ss, all, last) = read_entries-eq-value (some s) rest result (rw card at e) in
          (s ∷ ss, rw (same, all), last)
      | inr other ↦ absurd (cc (rw other at e))
    ]

-- What the last text of a card names.
abbrev pub named_card : String → PrivateKeyConfig
named_card ident = if str_eq ident "auto" then smartcard_auto else smartcard ident

card_of-eq : (ident : String) → card_of (some ident) ≡ value (named_card ident)
card_of-eq ident = elim (Bool-cases (str_eq ident "auto")) [
  | inl auto ↦ rw auto
  | inr other ↦ rw other
]

pub read_bind-value :
    {A B : Type 0} (r : Read A) (f : A → Read B) (b : B)
    → read_bind r f ≡ value b
    → (a : A) × (r ≡ value a) × (f a ≡ value b)
unfolding read_bind
read_bind-value (value a) f b e = (a, refl, e)
read_bind-value (unread x) f b e = absurd (cc)

value_inj : {A : Type 0} (x y : A) → value x ≡ value y → x ≡ y
value_inj x y e = cc

-- A table is read as a private key exactly if all its entries are texts under the key of the card and
-- there is at least one; the last of them counts, and the text `auto` stands for any card.
pub deserialize_private_key-table_iff :
    (decode : String → Option (List ℕ)) (entries : List (String × Option String))
    (config : PrivateKeyConfig)
    → (deserialize_private_key decode (table entries) ≡ value config) ↔ (
        (ss : List String) × (ident : String) × (entries ≡ card_entries ss)
        × (last_or none ss ≡ some ident)
        × (config ≡ named_card ident))
unfolding read_bind deserialize_private_key visit_map
deserialize_private_key-table_iff decode entries config = (
  λ e.
      let (found, all, named) = read_bind-value (read_entries none entries) card_of config e in
      let (ss, same, last) = read_entries-eq-value none entries found all in
      named_by ss found same last named,
  λ (ss, ident, same, last, named).
      rw (same, read_entries-card none ss, last, card_of-eq ident, named) refl,
)
  where
    named_by :
        (ss : List String) (found : Option String)
        → entries ≡ card_entries ss
        → found ≡ last_or none ss
        → card_of found ≡ value config
        → (ss : List String) × (ident : String) × (entries ≡ card_entries ss)
          × (last_or none ss ≡ some ident)
          × (config ≡ named_card ident)
    named_by ss none same last named = absurd (cc)
    named_by ss (some ident) same last named = (
      ss,
      ident,
      same,
      sym last,
      value_inj config (named_card ident) (sym named ∙ card_of-eq ident),
    )

exactly_32-eq :
    (o : Option (List ℕ)) (key : Key)
    → exactly_32 o ≡ value key
    → (o ≡ some key) × (length key ≡ 32)
exactly_32-eq none key e = absurd (cc)
exactly_32-eq (some bytes) key e = elim (Bool-cases (length bytes == 32)) [
  | inr other ↦ absurd (cc (rw other at e))
  | inl long ↦
      let same = value_inj bytes key (rw long at e) in
      (ap some same, ap length (sym same) ∙ (==_iff (length bytes) 32).0 long)
]

software_inj : (a b : Key) → software a ≡ software b → a ≡ b
software_inj a b e = cc

card_of-ne-software : (found : Option String) (key : Key) → card_of found ≢ value (software key)
card_of-ne-software none key e = cc
card_of-ne-software (some ident) key e = elim (Bool-cases (str_eq ident "auto")) [
  | inl auto ↦ cc (rw auto at e)
  | inr other ↦ cc (rw other at e)
]

visit_str-value :
    (decode : String → Option (List ℕ)) (v : String) (key : Key)
    → visit_str decode v ≡ value (software key)
    → (decode v ≡ some key) × (length key ≡ 32)
unfolding read_bind visit_str deserialize_key_base64
visit_str-value decode v key e =
    let (key', got, same) = read_bind-value (exactly_32 (decode v)) _ (software key) e in
    exactly_32-eq (decode v) key
      (got ∙ ap value (software_inj key' key (value_inj (software key') (software key) same)))

-- A software key is read exactly from a text that is the base64 form of 32 bytes, as those bytes.
pub deserialize_private_key-software_iff :
    (decode : String → Option (List ℕ)) (v : Presented) (key : Key)
    → (deserialize_private_key decode v ≡ value (software key))
      ↔ ((s : String) × (v ≡ text s) × (decode s ≡ some key) × (length key ≡ 32))
unfolding read_bind deserialize_private_key visit_str deserialize_key_base64 visit_map
deserialize_private_key-software_iff decode v key =
    (λ e. from v e, λ (s, same, decoded, long). rw (same, decoded) (rw long refl))
  where
    from :
        (v : Presented)
        → deserialize_private_key decode v ≡ value (software key)
        → (s : String) × (v ≡ text s) × (decode s ≡ some key) × (length key ≡ 32)
    from (text s) e =
        let (decoded, long) = visit_str-value decode s key e in (s, refl, decoded, long)
    from (table entries) e =
        let (found, all, named) =
          read_bind-value (read_entries none entries) card_of (software key) e in
        absurd (card_of-ne-software found key named)
    from (array vs) e = absurd (cc)
    from something_else e = absurd (cc)
