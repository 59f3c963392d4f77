-- ===== src/Prelude/Lines.antt =====
-- Laws of the operations of Rust's `str` on texts that are put together from parts.
use Prim.Native.Char.{Char, code}
use Prim.Native.Nat.{ℕ, zero, suc}
use Prim.Native.String.{String, [], ◌∷◌}
use mathlib.Core.Path.{◌≡◌, refl, ap, ◌∙◌}
use mathlib.Core.Logic.{◌≢◌, inl, inr}
use mathlib.Core.Bool.{Bool, true, false, ◌&&◌, ◌||◌}
use mathlib.Core.List.{List}
use mathlib.Core.Option.{none}
use native.Mathlib.Omega.{arith}
use text.Mathlib.TextLemmas.{nil-append, cons-append}
use text.Mathlib.TextEquality.{Char-path}
use smartguard.Prelude.Tests.{◌==◌, if◌then◌else◌, Bool-cases, ==_iff}
use smartguard.Prelude.Text.{
  ◌<>◌, is_empty, is_whitespace, trim_start, trim_end, trim, strip_prefix, lines,
}

-- Every character passes a test of its code.
abbrev pub Codes : (ℕ → Bool) → String → Type 0
Codes test [] = Unit
Codes test (c ∷ s) = (test (code c) ≡ true) × Codes test s

abbrev pub is_break : ℕ → Bool
is_break n = n == 10 || n == 13

abbrev pub no_break : ℕ → Bool
no_break n = if is_break n then false else true

abbrev pub no_space : ℕ → Bool
no_space n = if is_whitespace n then false else true

abbrev pub no_colon : ℕ → Bool
no_colon n = if n == 58 then false else true

line_feed : Char
line_feed = "\n"

line_feed-append : (rest : String) → "\n" <> rest ≡ line_feed ∷ rest
unfolding line_feed
line_feed-append rest = cons-append line_feed [] rest ∙ ap (◌∷◌ line_feed) (nil-append rest)

-- A line comes first.
pub lines-line :
    (l rest : String) → Codes no_break l → lines (l <> "\n" <> rest) ≡ List.◌∷◌ l (lines rest)
unfolding lines line_feed
lines-line [] rest h = rw nil-append (rw line_feed-append refl)
lines-line (c ∷ l) rest h = rw cons-append (ground (arith, lines-line l rest h.1))

-- A text whose first character is no white space.
abbrev pub IsSolid : String → Type 0
IsSolid [] = ⊥
IsSolid (c ∷ s) = is_whitespace (code c) ≡ false

abbrev pub space : Char
space = " "

abbrev pub spaces : ℕ → String
spaces zero = []
spaces (suc n) = space ∷ spaces n

space-append : (s : String) → " " <> s ≡ space ∷ s
space-append s = cons-append space [] s ∙ ap (◌∷◌ space) (nil-append s)

pub trim_start-spaces : (n : ℕ) (s : String) → trim_start (spaces n <> s) ≡ trim_start s
unfolding trim_start is_whitespace
trim_start-spaces zero s = rw nil-append
trim_start-spaces (suc n) s = rw cons-append (trim_start-spaces n s)

pub trim_start-IsSolid : (s t : String) → IsSolid s → trim_start (s <> t) ≡ s <> t
unfolding trim_start
trim_start-IsSolid [] t h = absurd h
trim_start-IsSolid (c ∷ s) t h = rw cons-append (rw h)

-- A word has no white space, and at least one character.
abbrev pub IsWord : String → Type 0
IsWord s = Codes no_space s × (is_empty s ≡ false)

trim_end-no_space : (s : String) → Codes no_space s → trim_end s ≡ s
unfolding trim_end
trim_end-no_space [] h = refl
trim_end-no_space (c ∷ s) h = ground (arith, trim_end-no_space s h.1)

is_empty-append : (s t : String) → is_empty t ≡ false → is_empty (s <> t) ≡ false
is_empty-append [] t h = rw nil-append h
is_empty-append (c ∷ s) t h = rw cons-append refl

pub trim_end-append :
    (s t : String) → trim_end t ≡ t → is_empty t ≡ false → trim_end (s <> t) ≡ s <> t
unfolding trim_end
trim_end-append [] t e h = rw nil-append e
trim_end-append (c ∷ s) t e h =
    rw cons-append (ground (arith, trim_end-append s t e h, is_empty-append s t h))

trim_start-IsWord : (v : String) → IsWord v → trim_start v ≡ v
unfolding trim_start
trim_start-IsWord [] h = refl
trim_start-IsWord (c ∷ v) h = ground arith

trim_start_space : (v : String) → trim_start (" " <> v) ≡ trim_start v
unfolding trim_start is_whitespace
trim_start_space v = rw space-append refl

pub trim_word : (v : String) → IsWord v → trim (" " <> v) ≡ v
unfolding trim
trim_word v h = ap trim_end (trim_start_space v ∙ trim_start-IsWord v h) ∙ trim_end-no_space v h.0

-- A text in which a word stands last, behind spaces, loses only the spaces.
pub trim-spaces :
    (n : ℕ) (s v : String) → IsSolid s → IsWord v → trim (spaces n <> (s <> v)) ≡ s <> v
unfolding trim
trim-spaces n s v h k =
    ap trim_end (trim_start-spaces n (s <> v) ∙ trim_start-IsSolid s v h)
    ∙ trim_end-append s v (trim_end-no_space v k.0) k.1

Codes-trim_start : (test : ℕ → Bool) (s : String) → Codes test s → Codes test (trim_start s)
unfolding trim_start
Codes-trim_start test [] h = tt
Codes-trim_start test (c ∷ s) h = elim (Bool-cases (is_whitespace (code c))) [
  | inl white ↦ rw white (Codes-trim_start test s h.1)
  | inr solid ↦ rw solid h
]

Codes-trim_end : (test : ℕ → Bool) (s : String) → Codes test s → Codes test (trim_end s)
unfolding trim_end
Codes-trim_end test [] h = tt
Codes-trim_end test (c ∷ s) h =
    elim (Bool-cases (is_empty (trim_end s) && is_whitespace (code c))) [
      | inl gone ↦ rw gone tt
      | inr stays ↦ rw stays (h.0, Codes-trim_end test s h.1)
    ]

pub Codes-trim : (test : ℕ → Bool) (s : String) → Codes test s → Codes test (trim s)
unfolding trim
Codes-trim test s h = Codes-trim_end test (trim_start s) (Codes-trim_start test s h)

pub Codes-append :
    (test : ℕ → Bool) (s t : String) → Codes test s → Codes test t → Codes test (s <> t)
Codes-append test [] t h k = rw nil-append k
Codes-append test (c ∷ s) t h k = rw cons-append (h.0, Codes-append test s t h.1 k)

colon : Char
colon = ":"

colon-append : (rest : String) → ":" <> rest ≡ colon ∷ rest
unfolding colon
colon-append rest = cons-append colon [] rest ∙ ap (◌∷◌ colon) (nil-append rest)

-- A field's name that is another than the one looked for.
pub strip_prefix-ne :
    (p name rest : String)
    → Codes no_colon p
    → Codes no_colon name
    → p ≢ name
    → strip_prefix (p <> ":") (name <> ":" <> rest) ≡ none
unfolding strip_prefix colon
strip_prefix-ne [] [] rest h k differs = absurd (differs refl)
strip_prefix-ne [] (d ∷ name) rest h k differs = rw cons-append (ground arith)
strip_prefix-ne (c ∷ p) [] rest h k differs =
    rw cons-append (rw nil-append (rw colon-append (ground arith)))
strip_prefix-ne (c ∷ p) (d ∷ name) rest h k differs = elim (Bool-cases (code c == code d)) [
  | inr other ↦ rw cons-append (rw cons-append (rw other refl))
  | inl same ↦
      let same_char = Char-path c d ((==_iff (code c) (code d)).0 same) in
      rw cons-append (
        rw cons-append
          (rw same (strip_prefix-ne p name rest h.1 k.1 (λ e. differs (rw (same_char, e) refl)))))
]

-- No field begins in a text without a colon.
pub strip_prefix-no_colon : (p s : String) → Codes no_colon s → strip_prefix (p <> ":") s ≡ none
unfolding strip_prefix colon
strip_prefix-no_colon [] [] h = refl
strip_prefix-no_colon [] (c ∷ s) h = ground arith
strip_prefix-no_colon (c ∷ p) [] h = rw cons-append refl
strip_prefix-no_colon (c ∷ p) (d ∷ s) h =
    rw cons-append (ground (arith, strip_prefix-no_colon p s h.1))

no_break_of_no_space : (n : ℕ) → no_space n ≡ true → no_break n ≡ true
unfolding is_whitespace
no_break_of_no_space n h = elim (Bool-cases (n == 10)) [
  | inl feed ↦ absurd (cc (rw ((==_iff n 10).0 feed) at h))
  | inr no_feed ↦ elim (Bool-cases (n == 13)) [
    | inl return ↦ absurd (cc (rw ((==_iff n 13).0 return) at h))
    | inr no_return ↦ rw (no_feed, no_return) refl
  ]
]

pub no_break-Codes : (s : String) → Codes no_space s → Codes no_break s
no_break-Codes [] h = tt
no_break-Codes (c ∷ s) h = (no_break_of_no_space (code c) h.0, no_break-Codes s h.1)

pub spaces-Codes : (n : ℕ) → Codes no_break (spaces n)
spaces-Codes zero = tt
spaces-Codes (suc n) = (refl, spaces-Codes n)
