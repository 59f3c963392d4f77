-- ===== src/Card/Fifo.antt =====
-- smartguard-crypto/src/thread.rs and card.rs: the thread answers the requests of the queue one after
-- the other, in the order in which they came in, however the two sides take turns.
use mathlib.Core.List.{append_assoc, append-nil}
use smartguard.Prelude.{
  ℕ, suc, ◌≤◌, String, Bool, true, false, List, [], ◌∷◌, ◌++◌, ◌≡◌, refl, sym, ap, ◌∙◌, ltb, ltb→lt,
  length, length-append, if◌then◌else◌, Bool-cases, inl, inr, arith,
}
use smartguard.Card.{CardLib}
use smartguard.Card.Thread.{Request, Reply, serve, serve_all}
use smartguard.Card.Tickets.{
  upto, map-append, contents, numbers, pending, then_serve, serve_all-append,
}
use smartguard.Card.Channel.{
  max_handshake_request, Worker, waiting, serving, gone, Link, try_send, TrySend, send_to, if_room,
  Action, send, work, hang_up, work_as, act, act_all, taken_of, taken_in, accepted,
}

module _ (l : CardLib) (ident pin : String) where
  open l use {World, Card}

  module _ (card₀ : Card) (w₀ : World) where
    -- The thread's state comes of serving some of what came in; what is left is pending.
    pub record Served (card : Card) (pend : List (ℕ × Request)) (replies : List (ℕ × Reply))
        (came : List Request) (w : World) : Type 0 where
      pub done : List Request
      pub in_order : came ≡ done ++ contents pend
      pub by_thread : serve_all l ident pin done card₀ w₀ ≡ ((contents replies, card), w)

    abbrev pub Owes :
        Worker Card → List (ℕ × Request) → List (ℕ × Reply) → List Request → World → Type 0
    Owes (waiting card) queue replies came w = Served card queue replies came w
    Owes (serving card i req) queue replies came w = Served card ((i, req) ∷ queue) replies came w
    Owes gone queue replies came w = (card : Card) × (queue ≡ []) × Served card [] replies came w

    -- How a link stands after `came` came in.
    pub record IsFifo (k : Link Card) (came : List Request) (w : World) : Type 0 where
      pub owes : Owes k.worker k.queue k.replies came w
      pub tickets : numbers k.replies ++ numbers (pending k.worker k.queue) ≡ upto (length came)
      pub next_ticket : k.tickets ≡ length came
      pub bounded : length k.queue ≤ max_handshake_request

    came_in :
        (card : Card) (pend : List (ℕ × Request)) (replies : List (ℕ × Reply)) (came : List Request)
        (w : World) (i : ℕ) (req : Request)
        → Served card pend replies came w
        → Served card (pend ++ ((i, req) ∷ [])) replies (came ++ (req ∷ [])) w
    came_in card pend replies came w i req h = record {
      done = h.done;
      in_order =
          ap (λ xs. xs ++ (req ∷ [])) h.in_order
          ∙ append_assoc h.done (contents pend) (req ∷ [])
          ∙ ap (λ xs. h.done ++ xs) (sym (map-append (λ x. x.1) pend ((i, req) ∷ [])));
      by_thread = h.by_thread;
    }

    answered :
        (card : Card) (pend : List (ℕ × Request)) (replies : List (ℕ × Reply)) (came : List Request)
        (w : World) (i : ℕ) (req : Request)
        → Served card ((i, req) ∷ pend) replies came w
        → let (answer, w') = serve l ident pin req card w in
          Served answer.1 pend (replies ++ ((i, answer.0) ∷ [])) came w'
    answered card pend replies came w i req h =
        let (answer, w') = serve l ident pin req card w in
        record {
          done = h.done ++ (req ∷ []);
          in_order = h.in_order ∙ sym (append_assoc h.done (req ∷ []) (contents pend));
          by_thread =
              serve_all-append l ident pin h.done req card₀ w₀
              ∙ ap (then_serve l ident pin req) h.by_thread
              ∙ ap (λ rs. ((rs, answer.1), w'))
                  (sym (map-append (λ x. x.1) replies ((i, answer.0) ∷ [])));
        }

    numbered :
        (replies : List (ℕ × Reply)) (pend : List (ℕ × Request)) (came : List Request) (i : ℕ)
        (req : Request)
        → numbers replies ++ numbers pend ≡ upto (length came)
        → i ≡ length came
        → numbers replies ++ numbers (pend ++ ((i, req) ∷ [])) ≡ upto (length (came ++ (req ∷ [])))
    unfolding upto
    numbered replies pend came i req h same =
        ap (λ ns. numbers replies ++ ns) (map-append (λ x. x.0) pend ((i, req) ∷ []))
        ∙ sym (append_assoc (numbers replies) (numbers pend) (i ∷ []))
        ∙ ap (λ ns. ns ++ (i ∷ [])) h
        ∙ ap (λ j. upto (length came) ++ (j ∷ [])) same
        ∙ ap upto longer
      where
        longer : suc (length came) ≡ length (came ++ (req ∷ []))
        longer = omega (arith, length-append came (req ∷ []))

    if_room-IsFifo :
        (k : Link Card) (came : List Request) (w : World) (req : Request)
        → (Owes k.worker k.queue k.replies came w
            → Owes k.worker (k.queue ++ ((k.tickets, req) ∷ [])) k.replies (came ++ (req ∷ [])) w)
        → (pending k.worker (k.queue ++ ((k.tickets, req) ∷ []))
            ≡ pending k.worker k.queue ++ ((k.tickets, req) ∷ []))
        → IsFifo k came w
        → IsFifo (if_room req k).1 (came ++ taken_of (if_room req k).0 req) w
    if_room-IsFifo k came w req owing behind h =
        elim (Bool-cases (ltb (length k.queue) max_handshake_request)) [
          | inr full ↦ rw full (rw append-nil h)
          | inl room ↦ rw room (record {
            owes = owing h.owes;
            tickets =
                ap (λ p. numbers k.replies ++ numbers p) behind
                ∙ numbered k.replies (pending k.worker k.queue) came k.tickets req h.tickets
                    h.next_ticket;
            next_ticket = omega (arith, h.next_ticket, length-append came (req ∷ []));
            bounded = omega (
              arith,
              ltb→lt (length k.queue) max_handshake_request room,
              length-append k.queue ((k.tickets, req) ∷ []),
            );
          })
        ]

    send_to-IsFifo :
        (worker : Worker Card) (queue : List (ℕ × Request)) (replies : List (ℕ × Reply))
        (tickets : ℕ) (held : Bool) (came : List Request) (w : World) (req : Request)
        → let k : Link Card = record {
          worker = worker;
          queue = queue;
          replies = replies;
          tickets = tickets;
          held = held;
        } in
          IsFifo k came w
          → IsFifo (send_to worker req k).1 (came ++ taken_of (send_to worker req k).0 req) w
    send_to-IsFifo (waiting card) queue replies tickets held came w req h =
        if_room-IsFifo _ came w req (came_in card queue replies came w tickets req) refl h
    send_to-IsFifo (serving card i taken) queue replies tickets held came w req h =
        if_room-IsFifo _ came w req (came_in card ((i, taken) ∷ queue) replies came w tickets req)
          refl h
    send_to-IsFifo gone queue replies tickets held came w req h = rw append-nil h

    work_as-IsFifo :
        (worker : Worker Card) (queue : List (ℕ × Request)) (replies : List (ℕ × Reply))
        (tickets : ℕ) (held : Bool) (came : List Request) (w : World)
        → let k : Link Card = record {
          worker = worker;
          queue = queue;
          replies = replies;
          tickets = tickets;
          held = held;
        } in
          IsFifo k came w → let (k', w') = work_as l ident pin worker queue k w in IsFifo k' came w'
    work_as-IsFifo gone queue replies tickets held came w h = h
    work_as-IsFifo (waiting card) [] replies tickets true came w h = h
    work_as-IsFifo (waiting card) [] replies tickets false came w h = record {
      owes = (card, refl, h.owes);
      tickets = h.tickets;
      next_ticket = h.next_ticket;
      bounded = h.bounded;
    }
    work_as-IsFifo (waiting card) ((i, req) ∷ queue) replies tickets held came w h = record {
      owes = h.owes;
      tickets = h.tickets;
      next_ticket = h.next_ticket;
      bounded = omega (arith, h.bounded);
    }
    work_as-IsFifo (serving card i req) queue replies tickets held came w h =
        let (answer, w') = serve l ident pin req card w in
        record {
          owes = answered card queue replies came w i req h.owes;
          tickets =
              ap (λ ns. ns ++ numbers queue) (map-append (λ x. x.0) replies ((i, answer.0) ∷ []))
              ∙ append_assoc (numbers replies) (i ∷ []) (numbers queue)
              ∙ h.tickets;
          next_ticket = h.next_ticket;
          bounded = h.bounded;
        }

    if_held-IsFifo :
        (held : Bool) (sent : TrySend × Link Card) (k : Link Card) (came : List Request) (w : World)
        (req : Request)
        → IsFifo sent.1 (came ++ taken_of sent.0 req) w
        → IsFifo k came w
        → IsFifo (if held then sent.1 else k) (came ++ (if held then taken_of sent.0 req else [])) w
    if_held-IsFifo true sent k came w req h h' = h
    if_held-IsFifo false sent k came w req h h' = rw append-nil h'

    act-IsFifo :
        (a : Action) (k : Link Card) (came : List Request) (w : World)
        → IsFifo k came w
        → let (k', w') = act l ident pin a k w in IsFifo k' (came ++ taken_in l ident pin a k) w'
    unfolding act taken_in try_send
    act-IsFifo (send req) k came w h =
        if_held-IsFifo k.held (try_send req k) k came w req
          (send_to-IsFifo k.worker k.queue k.replies k.tickets k.held came w req h) h
    act-IsFifo work k came w h =
        rw append-nil (work_as-IsFifo k.worker k.queue k.replies k.tickets k.held came w h)
    act-IsFifo hang_up k came w h = rw append-nil (record {
      owes = h.owes;
      tickets = h.tickets;
      next_ticket = h.next_ticket;
      bounded = h.bounded;
    })

    pub act_all-IsFifo :
        (actions : List Action) (k : Link Card) (came : List Request) (w : World)
        → IsFifo k came w
        → let (k', w') = act_all l ident pin actions k w in
          IsFifo k' (came ++ accepted l ident pin actions k w) w'
    unfolding act_all accepted
    act_all-IsFifo [] k came w h = rw append-nil h
    act_all-IsFifo (a ∷ actions) k came w h =
        let (k', w') = act l ident pin a k w in
        rw (← append_assoc came (taken_in l ident pin a k) (accepted l ident pin actions k' w')) (
          act_all-IsFifo actions k' (came ++ taken_in l ident pin a k) w' (act-IsFifo a k came w h))
