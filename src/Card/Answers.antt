-- ===== src/Card/Answers.antt =====
-- smartguard-crypto/src/thread.rs and card.rs: what is in the queue between the handle and the thread,
-- and that all of it is answered.
use mathlib.Core.List.{append-nil}
use smartguard.Prelude.{
  ℕ, zero, suc, ◌-◌, ◌≤◌, String, Bool, true, false, List, [], ◌∷◌, ◌++◌, ◌≡◌, refl, sym, ap, subst,
  ◌∙◌, length, replicate, arith,
}
use smartguard.Card.{CardLib}
use smartguard.Card.Thread.{Request, Reply, serve_all}
use smartguard.Card.Channel.{
  load, max_handshake_request, Worker, waiting, serving, gone, Link, idle, Action, work, work_as,
  work_once, act_all, accepted,
}
use smartguard.Card.Tickets.{upto, contents, numbers}
use smartguard.Card.Fifo.{Served, IsFifo, act_all-IsFifo}

module _ (l : CardLib) (ident pin : String) where
  open l use {World, Card}

  idle-IsFifo : (card : Card) (w : World) → IsFifo l ident pin card w (idle card) [] w
  unfolding serve_all upto
  idle-IsFifo card w = record {
    owes = record { done = []; in_order = refl; by_thread = refl };
    tickets = refl;
    next_ticket = refl;
    bounded = omega arith;
  }

  -- However the two sides take turns, the requests that came in are answered in their order as the
  -- thread's loop answers them, each under its own ticket; those that are not answered are pending, and
  -- no more than `MAX_HANDSHAKE_REQUEST` are in the queue.
  pub act_all-idle-IsFifo :
      (actions : List Action) (card : Card) (w : World)
      → let (k, w') = act_all l ident pin actions (idle card) w in
        IsFifo l ident pin card w k (accepted l ident pin actions (idle card) w) w'
  act_all-idle-IsFifo actions card w =
      act_all-IsFifo l ident pin card w actions (idle card) [] w (idle-IsFifo card w)

  work_as-load :
      (worker : Worker Card) (queue : List (ℕ × Request)) (replies : List (ℕ × Reply)) (tickets : ℕ)
      (held : Bool) (w : World)
      → let k : Link Card = record {
        worker = worker;
        queue = queue;
        replies = replies;
        tickets = tickets;
        held = held;
      } in
        let k' = (work_as l ident pin worker queue k w).0 in
        load k'.worker k'.queue ≤ load worker queue - 1
  work_as-load gone queue replies tickets held w = omega arith
  work_as-load (waiting card) [] replies tickets true w = omega arith
  work_as-load (waiting card) [] replies tickets false w = omega arith
  work_as-load (waiting card) ((i, req) ∷ queue) replies tickets held w = omega arith
  work_as-load (serving card i req) queue replies tickets held w = omega arith

  works-load :
      (n : ℕ) (k : Link Card) (w : World)
      → load k.worker k.queue ≤ n
      → let k' = (act_all l ident pin (replicate n work) k w).0 in load k'.worker k'.queue ≡ 0
  unfolding act_all work_once
  works-load zero k w h = omega arith
  works-load (suc n) k w h =
      works-load n _ _ (omega (arith, work_as-load k.worker k.queue k.replies k.tickets k.held w))

  accepted-works :
      (n : ℕ) (k : Link Card) (w : World) → accepted l ident pin (replicate n work) k w ≡ []
  unfolding accepted
  accepted-works zero k w = refl
  accepted-works (suc n) k w = accepted-works n _ _

  module _ (card : Card) (w : World) where
    -- All that came in is answered.
    abbrev pub AllAnswered : Link Card → List Request → Type 0
    AllAnswered k came =
        (contents k.replies ≡ (serve_all l ident pin came card w).0.0)
        × (numbers k.replies ≡ upto (length came))

    nothing_left :
        (c : Card) (queue : List (ℕ × Request)) (replies : List (ℕ × Reply)) (came : List Request)
        (w' : World)
        → queue ≡ []
        → Served l ident pin card w c [] replies came w'
        → numbers replies ++ numbers queue ≡ upto (length came)
        → (contents replies ≡ (serve_all l ident pin came card w).0.0)
          × (numbers replies ≡ upto (length came))
    nothing_left c queue replies came w' e served tickets = (
      sym (ap (λ (r : (List Reply × Card) × World). r.0.0) served.by_thread)
          ∙ ap (λ reqs. (serve_all l ident pin reqs card w).0.0)
              (sym (served.in_order ∙ append-nil served.done)),
      sym (append-nil (numbers replies)) ∙ ap (λ q. numbers replies ++ numbers q) (sym e) ∙ tickets,
    )

    answered-worker :
        (worker : Worker Card) (queue : List (ℕ × Request)) (replies : List (ℕ × Reply))
        (tickets : ℕ) (held : Bool) (came : List Request) (w' : World)
        → let k : Link Card = record {
          worker = worker;
          queue = queue;
          replies = replies;
          tickets = tickets;
          held = held;
        } in
          load worker queue ≡ 0 → IsFifo l ident pin card w k came w' → AllAnswered k came
    answered-worker (waiting c) [] replies tickets held came w' e h =
        nothing_left c [] replies came w' refl h.owes h.tickets
    answered-worker (waiting c) (p ∷ queue) replies tickets held came w' e h = absurd (omega arith)
    answered-worker (serving c i req) queue replies tickets held came w' e h = absurd (omega arith)
    answered-worker gone queue replies tickets held came w' e h =
        let (c, none_queued, served) = h.owes in
        nothing_left c queue replies came w' none_queued served h.tickets

    load-bound :
        (k : Link Card) (came : List Request) (w' : World)
        → IsFifo l ident pin card w k came w'
        → load k.worker k.queue ≤ 65
    load-bound k came w' h = load_within k.worker k.queue h.bounded
      where
        load_within :
            (worker : Worker Card) (queue : List (ℕ × Request))
            → length queue ≤ max_handshake_request
            → load worker queue ≤ 65
        load_within (waiting c) queue h = omega arith
        load_within (serving c i req) queue h = omega arith
        load_within gone queue h = omega arith

    -- However the two sides took turns, after 65 more turns of the thread every request that came in is
    -- answered under its own ticket, as the thread's loop answers it after the ones before.
    pub works-AllAnswered :
        (actions : List Action) (n : ℕ)
        → 65 ≤ n
        → let (k, w') = act_all l ident pin actions (idle card) w in
          AllAnswered
            (act_all l ident pin (replicate n work) k w').0
            (accepted l ident pin actions (idle card) w)
    works-AllAnswered actions n enough =
        let (k, w') = act_all l ident pin actions (idle card) w in
        let came = accepted l ident pin actions (idle card) w in
        let (k', w'') = act_all l ident pin (replicate n work) k w' in
        let before = act_all-idle-IsFifo actions card w in
        let after = act_all-IsFifo l ident pin card w (replicate n work) k came w' before in
        answered-worker k'.worker k'.queue k'.replies k'.tickets k'.held came w''
          (works-load n k w' (omega (arith, load-bound k came w' before)))
          (subst (λ c. IsFifo l ident pin card w k' c w'')
            (ap (λ more. came ++ more) (accepted-works n k w') ∙ append-nil came) after)
