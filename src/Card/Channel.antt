-- ===== src/Card/Channel.antt =====
-- smartguard-crypto/src/thread.rs and card.rs: the bounded queue between the handle and the thread
-- that owns the card. A request's one-shot is a ticket; a reply stands under its request's ticket.

use smartguard.Prelude.{
  ℕ, ◌+◌, ◌*◌, String, Bool, true, false, List, [], ◌∷◌, ◌++◌, State, pure, ltb, length,
  if◌then◌else◌,
}
use smartguard.Card.{CardLib}
use smartguard.Card.Thread.{Request, Reply, serve}

-- `MAX_HANDSHAKE_REQUEST`.
abbrev pub max_handshake_request : ℕ
max_handshake_request = 32

-- The thread waits at `recv`, or it has taken a request, or it has ended.
pub data Worker (C : Type 0) : Type 0 where
  waiting : C → Worker C
  serving : C → ℕ → Request → Worker C
  gone : Worker C

-- `held` where the sender is not dropped.
pub record Link (C : Type 0) : Type 0 where
  pub worker : Worker C
  pub queue : List (ℕ × Request)
  pub replies : List (ℕ × Reply)
  pub tickets : ℕ
  pub held : Bool

pub data TrySend : Type 0 where
  queued : ℕ → TrySend
  no_room no_receiver : TrySend

module _ {C : Type 0} where
  -- The thread has its card, and nothing was asked.
  abbrev pub idle : C → Link C
  idle card = record { worker = waiting card; queue = []; replies = []; tickets = 0; held = true }

  abbrev pub if_room : Request → Link C → TrySend × Link C
  if_room req k =
      if ltb (length k.queue) max_handshake_request
      then (
        queued k.tickets,
        record k { queue = k.queue ++ ((k.tickets, req) ∷ []); tickets = k.tickets + 1 },
      )
      else (no_room, k)

  abbrev pub send_to : Worker C → Request → Link C → TrySend × Link C
  send_to (waiting card) req k = if_room req k
  send_to (serving card i taken) req k = if_room req k
  send_to gone req k = (no_receiver, k)

  -- A full queue refuses a request at once.
  unfoldable pub try_send : Request → Link C → TrySend × Link C
  try_send req k = send_to k.worker req k

-- A request that comes into the queue.
abbrev pub taken_of : TrySend → Request → List Request
taken_of (queued i) req = req ∷ []
taken_of no_room req = []
taken_of no_receiver req = []

-- What the thread has to do until nothing is pending: to take and to answer each request.
abbrev pub load : {C : Type 0} → Worker C → List (ℕ × Request) → ℕ
load (waiting card) queue = 2 * length queue
load (serving card i req) queue = 2 * length queue + 1
load gone queue = 0

-- What the two sides do.
pub data Action : Type 0 where
  send : Request → Action
  work : Action
  hang_up : Action

module _ (l : CardLib) (ident pin : String) where
  open l use {World, Card}

  abbrev pub work_as : Worker Card → List (ℕ × Request) → Link Card → State World (Link Card)
  work_as gone queue k w = (k, w)
  work_as (waiting card) [] k w = (if k.held then k else record k { worker = gone }, w)
  work_as (waiting card) ((i, req) ∷ queue) k w =
      (record k { worker = serving card i req; queue = queue }, w)
  work_as (serving card i req) queue k w =
      let (answer, w') = serve l ident pin req card w in
      (record k { worker = waiting answer.1; replies = k.replies ++ ((i, answer.0) ∷ []) }, w')

  -- What the thread does next: it takes a request, answers the one it has taken, or ends where the
  -- sender is dropped and the queue is empty.
  unfoldable pub work_once : Link Card → State World (Link Card)
  unfolding serve
  work_once k = work_as k.worker k.queue k

  unfoldable pub act : Action → Link Card → State World (Link Card)
  unfolding work_once try_send
  act (send req) k = pure (if k.held then (try_send req k).1 else k)
  act work k = work_once k
  act hang_up k = pure (record k { held = false })

  -- The two sides, in any order.
  unfoldable pub act_all : List Action → Link Card → State World (Link Card)
  unfolding act
  act_all [] k w = (k, w)
  act_all (a ∷ actions) k w = let (k', w') = act a k w in act_all actions k' w'

  -- The request that an action brings into the queue.
  unfoldable pub taken_in : Action → Link Card → List Request
  unfolding try_send
  taken_in (send req) k = if k.held then taken_of (try_send req k).0 req else []
  taken_in work k = []
  taken_in hang_up k = []

  -- All requests that came into the queue, in their order.
  unfoldable pub accepted : List Action → Link Card → World → List Request
  unfolding act taken_in
  accepted [] k w = []
  accepted (a ∷ actions) k w = let (k', w') = act a k w in taken_in a k ++ accepted actions k' w'
