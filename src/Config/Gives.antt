-- ===== src/Config/Gives.antt =====
-- smartguard/src/config.rs: what all values have that a reader gives, for the readers composed as the
-- fields' attributes ask.
use smartguard.Config.{Read, value, unread, read_bind}
use smartguard.Config.Document.{Value, required, optional, or_default}
use smartguard.Prelude.{String, Option, none, some}

abbrev pub Holds : {A : Type 0} → (A → Type 0) → Option A → Type 0
Holds P none = Unit
Holds P (some a) = P a

-- What is read, when it is, is in `P`.
unfoldable pub Gives : {A : Type 0} → (A → Type 0) → Read A → Type 0
Gives P (value a) = P a
Gives P (unread e) = Unit

pub gives : {A : Type 0} (P : A → Type 0) (a : A) → P a → Gives P (value a)
unfolding Gives
gives P a h = h

pub Gives-bind :
    {A B : Type 0} (P : A → Type 0) (Q : B → Type 0) (r : Read A) (f : A → Read B)
    → Gives P r
    → ((a : A) → P a → Gives Q (f a))
    → Gives Q (read_bind r f)
unfolding Gives read_bind
Gives-bind P Q (value a) f h k = k a h
Gives-bind P Q (unread e) f h k = tt

abbrev pub Anything : {A : Type 0} → A → Type 0
Anything a = Unit

Gives-Anything : {A : Type 0} (r : Read A) → Gives Anything r
unfolding Gives
Gives-Anything (value a) = tt
Gives-Anything (unread e) = tt

-- The next step's value is in `P`, or nothing is known of it.
pub Gives-then :
    {A B : Type 0} (Q : B → Type 0) (r : Read A) (f : A → Read B)
    → ((a : A) → Gives Q (f a))
    → Gives Q (read_bind r f)
Gives-then Q r f k = Gives-bind Anything Q r f (Gives-Anything r) (λ a h. k a)

pub required-Gives :
    {A : Type 0} (P : A → Type 0) (key : String) (read : Value → Read A) (o : Option Value)
    → ((v : Value) → Gives P (read v))
    → Gives P (required key read o)
unfolding Gives
required-Gives P key read none h = tt
required-Gives P key read (some v) h = h v

pub optional-Gives :
    {A : Type 0} (P : A → Type 0) (read : Value → Read A) (o : Option Value)
    → ((v : Value) → Gives P (read v))
    → Gives (Holds P) (optional read o)
unfolding Gives
optional-Gives P read none h = tt
optional-Gives P read (some v) h = Gives-bind P (Holds P) (read v) _ (h v) (λ a k. k)

pub or_default-Gives :
    {A : Type 0} (P : A → Type 0) (d : A) (read : Value → Read A) (o : Option Value)
    → P d
    → ((v : Value) → Gives P (read v))
    → Gives P (or_default d read o)
unfolding Gives
or_default-Gives P d read none h k = h
or_default-Gives P d read (some v) h k = k v
