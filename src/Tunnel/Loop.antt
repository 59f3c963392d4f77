-- ===== src/Tunnel/Loop.antt =====
-- smartguard/src/tunnel.rs: the event loop of `run_tunnel`. An event carries what the timer, the
-- socket, the device and the signals gave, and whether what was sent in turn went out; which event
-- comes is the environment's choice. The buffer of the device keeps what earlier packets left in
-- it, so an event has the whole buffer as a read leaves it.
pub mod Account
pub mod Across
pub mod Guarded
pub mod Device
pub mod Indexed
pub mod Clock
use smartguard.Prelude.{
  ℕ, ◌+◌, Bool, true, false, not, Option, none, some, List, [], ◌∷◌, ◌++◌, map, State, pure, Run,
  returns, panics, ◌≡◌, if◌then◌else◌,
}
use smartguard.Dns.{Platform}
use smartguard.Machine.{Machine}
use smartguard.Net.{SocketAddr}
use smartguard.Peers.PeerNet.{TrieLib, PeerNet}
use smartguard.Session.Handle.{
  Write, inbound, outbound, nothing, SessionLib, handle_extern, handle_intern,
}
use smartguard.Tunnel.Guard.{CleanupGuard, recheck_guard}
use smartguard.Tunnel.Keepalive.{PeerRuntime, on_sent, Ticked, send_keepalives, wants_recheck}

-- What the loop hands on: a packet to the device, or a datagram to an address.
pub data Emitted : Type 0 where
  to_device : List ℕ → Emitted
  datagram : List ℕ → SocketAddr → Emitted

abbrev pub as_datagram : List ℕ × SocketAddr → Emitted
as_datagram (bytes, to) = datagram bytes to

-- How a round of the loop leaves it.
pub data Flow : Type 0 where
  goes_on ends_ok ends_err panicked : Flow

pub data Event (l : SessionLib) : Type 0 where
  sigint sigterm : Event l
  -- The instant, and what the calls of `turn` gave, with the sessions after them.
  tick : ℕ → List (List ℕ × SocketAddr) → l.Sessions → Event l
  recv_failed read_failed : Event l
  -- The sender, the bytes, and whether the write to the device and the sending succeed.
  received : SocketAddr → List ℕ → (written sent : Bool) → Event l
  -- The buffer after the read, the bytes read, whether the sending succeeds, and its instant.
  was_read : List ℕ → ℕ → (sent : Bool) → ℕ → Event l

pub record LoopState (l : SessionLib) : Type 0 where
  pub peers : List (PeerRuntime l.PeerId)
  pub sessions : l.Sessions
  pub guard : CleanupGuard

pub record Round (l : SessionLib) : Type 0 where
  pub state : LoopState l
  pub emitted : List Emitted
  pub flow : Flow

-- The calls of `turn` until there is no message, with the time and the randomness in the sessions.
pub data Turns (l : SessionLib) (turn : l.Sessions → Option (List ℕ × SocketAddr) × l.Sessions)
    : l.Sessions → List (List ℕ × SocketAddr) → l.Sessions → Type 0 where
  settled : {s s' : l.Sessions} → turn s ≡ (none, s') → Turns l turn s [] s'
  turned :
      {s s' s'' : l.Sessions} {msg : List ℕ × SocketAddr} {msgs : List (List ℕ × SocketAddr)}
      → turn s ≡ (some msg, s')
      → Turns l turn s' msgs s''
      → Turns l turn s (msg ∷ msgs) s''

-- What is fixed before the loop: the platform and what is not under test here, the routing table of
-- the peers, the index of their endpoints, and the position of the first bypass.
pub record Setting : Type 1 where
  pub platform : Platform
  pub machine : Machine
  pub lib : SessionLib
  pub t4 : TrieLib lib.PeerId
  pub t6 : TrieLib lib.PeerId
  pub peer_net : PeerNet t4 t6
  pub pairs : List (SocketAddr × ℕ)
  pub host_idx : Option ℕ
  pub turn : lib.Sessions → Option (List ℕ × SocketAddr) × lib.Sessions

module _ (t : Setting) where
  abbrev pub World : Type 0
  World = t.machine.World

  abbrev pub Tunnel : Type 0
  Tunnel = LoopState t.lib

  abbrev pub recheck_if : Bool → CleanupGuard → State World CleanupGuard
  recheck_if true guard = recheck_guard t.platform t.machine guard
  recheck_if false guard = pure guard

  -- A round that panics before it sends anything.
  abbrev pub in_panic : Tunnel → Round t.lib
  in_panic s = record { state = s; emitted = []; flow = panicked }

  abbrev pub rechecked : Bool → Tunnel → List Emitted → State World (Round t.lib)
  rechecked wanted s emitted w =
      let (guard', w') = recheck_if wanted s.guard w in
      (record { state = record s { guard = guard' }; emitted = emitted; flow = goes_on }, w')

  -- A tick behind the test for a recheck: the messages of `turn`, and the keepalives.
  abbrev pub ticked : ℕ → List (List ℕ × SocketAddr) → Tunnel → Run Bool → State World (Round t.lib)
  ticked now msgs s panics = pure (in_panic s)
  ticked now msgs s (returns wanted) =
      let done = send_keepalives t.lib now s.peers s.sessions in
      rechecked wanted (record s { peers = done.peers; sessions = done.sessions })
        (map as_datagram (msgs ++ done.datagrams))

  -- A tick behind the calls of `turn`.
  unfoldable pub on_tick :
      ℕ → List (List ℕ × SocketAddr) → t.lib.Sessions → Tunnel → State World (Round t.lib)
  unfolding wants_recheck recheck_guard send_keepalives
  on_tick now msgs sessions s =
      ticked now msgs (record s { sessions = sessions })
        (wants_recheck t.host_idx s.guard.added_routes)

  -- What `handle_extern` gave for bytes from `addr`.
  unfoldable pub on_extern :
      SocketAddr → (written sent : Bool) → Tunnel → Run Write → State World (Round t.lib)
  unfolding recheck_guard
  on_extern addr written sent s panics = pure (in_panic s)
  on_extern addr written sent s (returns (inbound bytes)) = pure (record {
    state = s;
    emitted = to_device bytes ∷ [];
    flow = if written then goes_on else ends_err;
  })
  on_extern addr written sent s (returns (outbound bytes to)) =
      rechecked (not sent) s (datagram bytes addr ∷ [])
  on_extern addr written sent s (returns nothing) =
      pure (record { state = s; emitted = []; flow = goes_on })

  -- The clocks after a datagram went out.
  abbrev pub postponed : Tunnel → List Emitted → Run (List (PeerRuntime t.lib.PeerId)) → Round t.lib
  postponed s emitted panics = record { state = s; emitted = emitted; flow = panicked }
  postponed s emitted (returns peers') = record {
    state = record s { peers = peers' };
    emitted = emitted;
    flow = goes_on;
  }

  -- What `handle_intern` gave for a packet from the device.
  unfoldable pub on_intern : (sent : Bool) → ℕ → Tunnel → Run Write → State World (Round t.lib)
  unfolding on_sent recheck_guard
  on_intern sent now s panics = pure (in_panic s)
  on_intern true now s (returns (outbound bytes to)) =
      pure (postponed s (datagram bytes to ∷ []) (on_sent now t.pairs s.peers to))
  on_intern false now s (returns (outbound bytes to)) = rechecked true s (datagram bytes to ∷ [])
  on_intern sent now s (returns (inbound bytes)) =
      pure (record { state = s; emitted = []; flow = goes_on })
  on_intern sent now s (returns nothing) = pure (record { state = s; emitted = []; flow = goes_on })

  abbrev pub leaves : Flow → Tunnel → Round t.lib
  leaves flow s = record { state = s; emitted = []; flow = flow }

  -- One round of the loop.
  unfoldable pub on_event : Event t.lib → Tunnel → State World (Round t.lib)
  unfolding on_tick on_extern on_intern handle_extern handle_intern
  on_event Event.sigint s = pure (leaves ends_ok s)
  on_event Event.sigterm s = pure (leaves ends_ok s)
  on_event Event.recv_failed s = pure (leaves ends_err s)
  on_event Event.read_failed s = pure (leaves ends_err s)
  on_event (Event.tick now msgs sessions) s = on_tick now msgs sessions s
  on_event (Event.received addr bytes written sent) s =
      let (write, sessions) = handle_extern t.lib t.t4 t.t6 s.sessions t.peer_net addr bytes in
      on_extern addr written sent (record s { sessions = sessions }) write
  on_event (Event.was_read tun_buf n sent now) s =
      let (write, sessions) =
        handle_intern t.lib t.t4 t.t6 s.sessions t.peer_net tun_buf (t.lib.tun_buf_start + n) in
      on_intern sent now (record s { sessions = sessions }) write

  -- The messages of a tick are those of the calls of `turn`.
  abbrev pub Possible : Tunnel → Event t.lib → Type 0
  Possible s (Event.tick now msgs sessions) = Turns t.lib t.turn s.sessions msgs sessions
  Possible s _ = Unit

  -- What the loop can come to from a state, and how its last round left it.
  pub data Reach (s : Tunnel) (w : World) : Tunnel → World → Flow → Type 0 where
    here : Reach s w s w goes_on
    next :
        {s' : Tunnel} {w' : World}
        → Reach s w s' w' goes_on
        → (e : Event t.lib) → Possible s' e
        → Reach s w (on_event e s' w').0.state (on_event e s' w').1 (on_event e s' w').0.flow
