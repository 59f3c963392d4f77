-- ===== src/Prelude/Text.antt =====
-- The operations of Rust's `str` that the source uses, over the native text.
use Prim.Native.Char.{Char, code}
use Prim.Native.Nat.{ℕ}
use Prim.Native.String
use Prim.Native.String.{String, [], ◌∷◌}
use mathlib.Core.Path.{◌≡◌, ap, sym, ◌∙◌}
use mathlib.Core.Logic.{inl, inr}
use mathlib.Core.Bool.{Bool, true, false, ◌&&◌, ◌||◌}
use mathlib.Core.List.{List}
use mathlib.Core.Option.{Option, none, some}
use native.Mathlib.Omega.{arith}
use text.Mathlib.Text.{◌==◌ as str_eq}
use text.Mathlib.TextLemmas.{nil-append, cons-append}
use text.Mathlib.TextPositions.{eq_refl}
use text.Mathlib.TextEquality.{Char-path}
use smartguard.Prelude.Tests.{leb, ◌==◌, if◌then◌else◌, Bool-cases, ==_iff}

infixr 65 ◌<>◌
abbrev pub ◌<>◌ : String → String → String
s <> t = String.◌++◌ s t

abbrev pub is_empty : String → Bool
is_empty [] = true
is_empty (c ∷ s) = false

-- `char::is_whitespace`: the Unicode property White_Space.
unfoldable pub is_whitespace : ℕ → Bool
is_whitespace n =
    (leb 9 n && leb n 13)
    || (n == 32)
    || (n == 0x85)
    || (n == 0xa0)
    || (n == 0x1680)
    || (leb 0x2000 n && leb n 0x200a)
    || (n == 0x2028)
    || (n == 0x2029)
    || (n == 0x202f)
    || (n == 0x205f)
    || (n == 0x3000)

unfoldable pub trim_start : String → String
trim_start [] = []
trim_start (c ∷ s) = if is_whitespace (code c) then trim_start s else c ∷ s

-- A character stays if it is no white space or something after it stays.
unfoldable pub trim_end : String → String
trim_end [] = []
trim_end (c ∷ s) = let r = trim_end s in if is_empty r && is_whitespace (code c) then [] else c ∷ r

unfoldable pub trim : String → String
unfolding trim_start trim_end
trim s = trim_end (trim_start s)

unfoldable pub strip_prefix : String → String → Option String
strip_prefix [] s = some s
strip_prefix (p ∷ ps) [] = none
strip_prefix (p ∷ ps) (c ∷ s) = if code p == code c then strip_prefix ps s else none

abbrev pub starts_line_feed : String → Bool
starts_line_feed [] = false
starts_line_feed (c ∷ s) = code c == 10

abbrev pub cons_line : Char → List String → List String
cons_line c List.[] = List.◌∷◌ (c ∷ []) List.[]
cons_line c (List.◌∷◌ l ls) = List.◌∷◌ (c ∷ l) ls

-- `str::lines`: a line ends at "\n" or "\r\n", and what follows the last one counts if not empty.
unfoldable pub lines : String → List String
lines [] = List.[]
lines (c ∷ s) =
    let ls = lines s in
    if code c == 10
    then List.◌∷◌ [] ls
    else if code c == 13 && starts_line_feed s
    then ls
    else cons_line c ls

-- `[&str]::join`.
unfoldable pub join : String → List String → String
join sep List.[] = []
join sep (List.◌∷◌ s List.[]) = s
join sep (List.◌∷◌ s (List.◌∷◌ t ts)) = s <> sep <> join sep (List.◌∷◌ t ts)

-- A text put together from a prefix and a rest gives the rest back.
pub strip_prefix-append : (p s : String) → strip_prefix p (p <> s) ≡ some s
unfolding strip_prefix
strip_prefix-append [] s = ap some (nil-append s)
strip_prefix-append (c ∷ p) s = rw cons-append (ground (arith, strip_prefix-append p s))

some_inj : (s r : String) → some s ≡ some r → s ≡ r
some_inj s r e = cc

-- What is left behind a prefix is the rest of the text.
pub strip_prefix-some : (p s r : String) → strip_prefix p s ≡ some r → s ≡ p <> r
unfolding strip_prefix
strip_prefix-some [] s r e = (some_inj s r e) ∙ sym (nil-append r)
strip_prefix-some (c ∷ p) [] r e = absurd (cc)
strip_prefix-some (c ∷ p) (d ∷ s) r e = elim (Bool-cases (code c == code d)) [
  | inl same ↦ rw cons-append (
      rw (Char-path c d ((==_iff (code c) (code d)).0 same))
        (ap (◌∷◌ d) (strip_prefix-some p s r (rw same at e))))
  | inr other ↦ absurd (cc (rw other at e))
]

-- A text that does not begin with white space, nor end with it.
abbrev pub IsTrimmed : String → Type 0
IsTrimmed s = trim s ≡ s

pub str_eq_refl : (s : String) → str_eq s s ≡ true
str_eq_refl s = eq_refl s
