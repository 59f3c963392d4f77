-- ===== src/Card.antt =====
-- smartguard-crypto/src/thread.rs and card.rs: the thread that owns the smart card, and the handle
-- that asks it. The crates `card_backend_pcsc` and `openpgp_card` are a parameter.
pub mod Thread
pub mod Channel
pub mod Tickets
pub mod Fifo
pub mod Answers
pub mod Open
pub mod Asks
pub mod Handle
pub mod Laws
pub mod Opened
pub mod Cache
pub mod Listing
use smartguard.Prelude.{ℕ, String, Option, List, State}

-- What a call of the crates gives, or the text of its error.
pub data Attempt (A : Type 0) : Type 0 where
  done : A → Attempt A
  failed : String → Attempt A

pub data SmartcardError : Type 0 where
  card_not_found : String → SmartcardError
  no_decryption_key : SmartcardError
  pin_failed dh_failed card_error : String → SmartcardError
  zero_shared_secret queue_full : SmartcardError

pub data Outcome (A : Type 0) : Type 0 where
  ok : A → Outcome A
  err : SmartcardError → Outcome A

-- The readers and cards. An item of `PcscBackend::cards` is a slot that is tried when the iterator
-- comes to it; a card is a handle whose state stands in the world. `public_key_material` is for the
-- slot of decryption, and has no value where the call fails or the key is of another kind.
pub record CardLib : Type 1 where
  pub World : Type 0
  pub Slot : Type 0
  pub Backend : Type 0
  pub Card : Type 0
  pub cards : State World (Attempt (List Slot))
  pub next : Slot → State World (Option Backend)
  pub new : Backend → State World (Option Card)
  pub transaction : Card → State World (Attempt (Unit {0}))
  pub application_identifier : Card → State World (Option String)
  pub public_key_material : Card → State World (Option (List ℕ))
  pub verify_user_pin : Card → String → State World (Attempt (Unit {0}))
  pub decipher : Card → List ℕ → State World (Attempt (List ℕ))
