-- ===== src/Prelude/Monads.antt =====
-- State passing: a command takes the world and returns its result with the world after it.

abbrev pub State : Type 0 → Type 0 → Type 0
State W A = W → A × W

infixl 5 ◌>>=◌
abbrev pub ◌>>=◌ : {W A B : Type 0} → State W A → (A → State W B) → State W B
◌>>=◌ m f w = let r = m w in f r.0 r.1

infixl 5 ◌>>◌
abbrev pub ◌>>◌ : {W A B : Type 0} → State W A → State W B → State W B
◌>>◌ m k w = k (m w).1

abbrev pub pure : {W A : Type 0} → A → State W A
pure a w = (a, w)

-- What a Rust call that may panic does: it returns, or it panics (an index out of range, `expect`).
pub data Run (A : Type 0) : Type 0 where
  returns : A → Run A
  panics : Run A

abbrev pub run_bind : {A B : Type 0} → Run A → (A → Run B) → Run B
run_bind (returns a) f = f a
run_bind panics f = panics
