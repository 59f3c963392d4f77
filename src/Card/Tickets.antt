-- ===== src/Card/Tickets.antt =====
-- smartguard-crypto/src/thread.rs and card.rs: the tickets of requests and replies, and the thread's
-- loop with one request more.
use smartguard.Prelude.{ℕ, zero, suc, String, List, [], ◌∷◌, ◌++◌, map, ◌≡◌, refl, ap}
use smartguard.Card.{CardLib}
use smartguard.Card.Thread.{Request, Reply, serve, serve_all}
use smartguard.Card.Channel.{Worker, waiting, serving, gone}

-- The tickets that were given out.
unfoldable pub upto : ℕ → List ℕ
upto zero = []
upto (suc n) = upto n ++ (n ∷ [])

module _ {A B : Type 0} where
  pub map-append : (f : A → B) (xs ys : List A) → map f (xs ++ ys) ≡ map f xs ++ map f ys
  map-append f [] ys = refl
  map-append f (x ∷ xs) ys = ap (◌∷◌ (f x)) (map-append f xs ys)

-- What is behind the tickets, and the tickets.
abbrev pub contents : {A : Type 0} → List (ℕ × A) → List A
contents xs = map (λ x. x.1) xs

abbrev pub numbers : {A : Type 0} → List (ℕ × A) → List ℕ
numbers xs = map (λ x. x.0) xs

-- What has come in and is not answered.
abbrev pub pending : {C : Type 0} → Worker C → List (ℕ × Request) → List (ℕ × Request)
pending (waiting card) queue = queue
pending (serving card i req) queue = (i, req) ∷ queue
pending gone queue = queue

module _ (l : CardLib) (ident pin : String) where
  open l use {World, Card}

  -- One request more.
  abbrev pub then_serve : Request → (List Reply × Card) × World → (List Reply × Card) × World
  then_serve req r =
      let (answer, w) = serve l ident pin req r.0.1 r.1 in ((r.0.0 ++ (answer.0 ∷ []), answer.1), w)

  pub serve_all-append :
      (done : List Request) (req : Request) (card : Card) (w : World)
      → serve_all l ident pin (done ++ (req ∷ [])) card w
        ≡ then_serve req (serve_all l ident pin done card w)
  unfolding serve_all
  serve_all-append [] req card w = refl
  serve_all-append (r ∷ done) req card w =
      let (first, w') = serve l ident pin r card w in
      ap (λ (t : (List Reply × Card) × World). ((first.0 ∷ t.0.0, t.0.1), t.1))
        (serve_all-append done req first.1 w')
