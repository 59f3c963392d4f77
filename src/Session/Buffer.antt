-- ===== src/Session/Buffer.antt =====
-- Slices of a buffer inside one another, for smartguard-crypto/src/session/handle.rs.
use smartguard.Prelude.{
  ℕ, zero, suc, ◌+◌, ◌-◌, ◌≤◌, ◌<◌, true, false, List, [], ◌∷◌, ◌++◌, ◌≡◌, refl, sym, ap, ◌∙◌,
  length, take, drop, leb, arith, returns, panics, length-take, length-drop, length-append,
}
use mathlib.Core.List.{append_assoc}
use smartguard.Session.Handle.{slice, overwrite}

module _ {A : Type 0} where
  pub drop-nil : (n : ℕ) → drop {A = A} n [] ≡ []
  drop-nil zero = refl
  drop-nil (suc n) = refl

  pub drop-drop : (xs : List A) (s k t : ℕ) → s + k ≡ t → drop k (drop s xs) ≡ drop t xs
  drop-drop xs zero k t e = let same : k ≡ t = omega arith in rw same
  drop-drop xs (suc s) k zero e = absurd (omega arith)
  drop-drop [] (suc s) k (suc t) e = drop-nil k
  drop-drop (x ∷ xs) (suc s) k (suc t) e = drop-drop xs s k t (omega arith)

  pub drop-take : (xs : List A) (k n t : ℕ) → k + n ≡ t → drop k (take t xs) ≡ take n (drop k xs)
  drop-take xs zero n t e = let same : t ≡ n = omega arith in rw same
  drop-take xs (suc k) n zero e = absurd (omega arith)
  drop-take [] (suc k) n (suc t) e = sym (take-nil n)
    where
      take-nil : (n : ℕ) → take {A = A} n [] ≡ []
      take-nil zero = refl
      take-nil (suc n) = refl
  drop-take (x ∷ xs) (suc k) n (suc t) e = drop-take xs k n t (omega arith)

  pub take_all : (xs ys : List A) → take (length xs) (xs ++ ys) ≡ xs
  take_all [] ys = refl
  take_all (x ∷ xs) ys = ap (◌∷◌ x) (take_all xs ys)

  pub take-take : (xs : List A) (m n : ℕ) → m ≤ n → take m (take n xs) ≡ take m xs
  take-take xs zero n h = refl
  take-take xs (suc m) zero h = absurd (omega arith)
  take-take [] (suc m) (suc n) h = refl
  take-take (x ∷ xs) (suc m) (suc n) h = ap (◌∷◌ x) (take-take xs m n (omega arith))

pub leb_of_le : (a b : ℕ) → a ≤ b → leb a b ≡ true
leb_of_le a b h = ground arith

pub leb_of_lt : (a b : ℕ) → b < a → leb a b ≡ false
leb_of_lt a b h = ground arith

pub slice_short : (buf : List ℕ) (start end : ℕ) → length buf < end → slice buf start end ≡ panics
unfolding slice
slice_short buf start end h = ground arith

pub slice-eq :
    (buf : List ℕ) (start end : ℕ)
    → start ≤ end
    → end ≤ length buf
    → slice buf start end ≡ returns (take (end - start) (drop start buf))
unfolding slice
slice-eq buf start end h k = rw (leb_of_le start end h, leb_of_le end (length buf) k)

-- A slice is returned only if its range lies in the buffer.
pub slice-returns :
    (buf : List ℕ) (start end : ℕ) (bytes : List ℕ)
    → slice buf start end ≡ returns bytes
    → (start ≤ end) × (end ≤ length buf) × (take (end - start) (drop start buf) ≡ bytes)
unfolding slice
slice-returns buf start end bytes e = ground arith

-- A slice that begins `k` bytes earlier holds the shorter one behind `k` bytes.
pub slice_earlier :
    (buf : List ℕ) (start early k end : ℕ) (bytes : List ℕ)
    → early + k ≡ start
    → slice buf start end ≡ returns bytes
    → (longer : List ℕ) × (slice buf early end ≡ returns longer)
      × (k ≤ length longer)
      × (drop k longer ≡ bytes)
slice_earlier buf start early k end bytes e h =
    let (lo, hi, same) = slice-returns buf start end bytes h in
    (
      take (end - early) (drop early buf),
      slice-eq buf early end (omega arith) hi,
      omega (arith, length-take (end - early) (drop early buf), length-drop early buf),
      drop-take (drop early buf) k (end - start) (end - early) (omega arith)
          ∙ ap (take (end - start)) (drop-drop buf early k start e)
          ∙ same,
    )

pub take-append :
    (xs ys zs : List ℕ) (m : ℕ) → m ≡ length xs + length ys → take m (xs ++ (ys ++ zs)) ≡ xs ++ ys
take-append xs ys zs m e =
    rw (← append_assoc) (rw (e, ← length-append xs ys) (take_all (xs ++ ys) zs))

pub drop-append : (xs ys : List ℕ) (m : ℕ) → m ≤ length xs → drop m (xs ++ ys) ≡ drop m xs ++ ys
drop-append xs ys zero h = refl
drop-append [] ys (suc m) h = absurd (omega arith)
drop-append (x ∷ xs) ys (suc m) h = drop-append xs ys m (omega arith)

pub drop_all : (xs ys : List ℕ) (m : ℕ) → m ≡ length xs → drop m (xs ++ ys) ≡ ys
drop_all [] ys m e = rw e
drop_all (x ∷ xs) ys zero e = absurd (omega arith)
drop_all (x ∷ xs) ys (suc m) e = drop_all xs ys m (omega arith)

pub length-overwrite :
    (buf bytes : List ℕ) (start : ℕ)
    → start + length bytes ≤ length buf
    → length (overwrite buf start bytes) ≡ length buf
length-overwrite buf bytes start h = omega (
  arith,
  length-append (take start buf) (bytes ++ drop (start + length bytes) buf),
  length-append bytes (drop (start + length bytes) buf),
  length-take start buf,
  length-drop (start + length bytes) buf,
)

-- What was written at a place is read there.
pub overwrite_read :
    (buf bytes : List ℕ) (start : ℕ)
    → start ≤ length buf
    → take (length bytes) (drop start (overwrite buf start bytes)) ≡ bytes
overwrite_read buf bytes start h =
    ap (take (length bytes)) (
      drop_all (take start buf) (bytes ++ drop (start + length bytes) buf) start
        (omega (arith, length-take start buf)))
    ∙ take_all bytes (drop (start + length bytes) buf)

-- The bytes from `start` to `stop` and those written behind them.
pub overwrite_tail :
    (buf bytes : List ℕ) (start stop m : ℕ)
    → start ≤ stop
    → stop ≤ length buf
    → m ≡ (stop - start) + length bytes
    → take m (drop start (overwrite buf stop bytes)) ≡ take (stop - start) (drop start buf) ++ bytes
overwrite_tail buf bytes start stop m h k e =
    ap (take m) (
      drop-append (take stop buf) rest start (omega (arith, length-take stop buf))
      ∙ ap (λ xs. xs ++ rest) (drop-take buf start (stop - start) stop (omega arith)))
    ∙ take-append (take (stop - start) (drop start buf)) bytes (drop (stop + length bytes) buf) m
        (omega (arith, length-take (stop - start) (drop start buf), length-drop start buf))
  where
    rest : List ℕ
    rest = bytes ++ drop (stop + length bytes) buf
