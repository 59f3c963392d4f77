-- ===== src/Tests/Watch.antt =====
-- The theorems on the rechecks and the keepalives of smartguard/src/route.rs and tunnel.rs, at a
-- bypass by an old gateway and at peers whose clocks stand at 100.
use smartguard.Prelude.{
  ℕ, String, false, none, some, List, [], ◌∷◌, ◌≡◌, ◌≢◌, refl, returns, panics, All, get_elem?,
  if◌then◌else◌,
}
use smartguard.Dns.{linux}
use smartguard.Net.{IpAddr, SocketAddr}
use smartguard.Route.Command.{Family, AddedRoute, host, net}
use smartguard.Route.Kernel.{after, ran, add_args, delete_args, key_eq, RouteKey, Target}
use smartguard.Route.Recheck.{recheck_host, recheck_all}
use smartguard.Route.Sync.{recheck_all_idem, recheck_host_moved}
use smartguard.Tunnel.Guard.{CleanupGuard}
use smartguard.Tunnel.Keepalive.{
  PeerRuntime, endpoint_pairs, hash_get, is_due, on_sent, send_keepalives, host_route_idx,
  wants_recheck,
}
use smartguard.Tunnel.Silence.{on_sent_postpones}
use smartguard.Tunnel.HostIndex.{recheck_times, wants_recheck-ne-panics}
use smartguard.Tests.Toy.{toy, toy_kernel, toy_adds_all, toy_removes, Table, empty_table}
use smartguard.Tests.ToySessions.{toy_sessions}

abbrev routes : List AddedRoute
routes =
    net "0.0.0.0/1" "utun5" Family.v4
    ∷ host "203.0.113.2" Family.v4 none
    ∷ host "203.0.113.3" Family.v4 (some "10.9.9.9")
    ∷ []

recheck_all_idem_example :
    let first = recheck_all toy (some "192.168.1.1") none routes empty_table in
    recheck_all toy (some "192.168.1.1") none first.0 first.1 ≡ first
recheck_all_idem_example =
    recheck_all_idem toy_kernel (some "192.168.1.1") none routes empty_table toy_adds_all
      toy_removes

abbrev bypass : RouteKey
bypass = record { family = Family.v4; kind = "-host"; dest = "203.0.113.2" }

abbrev by_router : Target
by_router = record { via = "-gateway"; name = "192.168.1.1" }

abbrev router : String
router = "192.168.1.1"

abbrev former : String
former = "10.9.9.9"

differs : some former ≢ some router
differs e = cc

-- The bypass stands by another gateway than the current one.
abbrev by_former : Table
by_former j =
    if key_eq bypass j then some (record { via = "-gateway"; name = "10.9.9.9" }) else none

recheck_host_moved_example :
    let removed = ran toy (delete_args bypass) by_former in
    let added = ran toy (add_args bypass by_router) (after toy (delete_args bypass) by_former) in
    let result =
      recheck_host toy "203.0.113.2" Family.v4 (some former) (some "192.168.1.1") by_former in
    (result.0 ≡ (if added then some "192.168.1.1" else some former))
    × (result.1 bypass
        ≡ (if added then some by_router else if removed then none else by_former bypass))
    × (removed ≡ false
        → by_former bypass ≢ none
        → (result.0 ≡ some former) × (result.1 bypass ≡ by_former bypass))
recheck_host_moved_example =
    recheck_host_moved toy_kernel "203.0.113.2" Family.v4 (some former) "192.168.1.1" by_former
      differs

abbrev guard : CleanupGuard
guard = record { added_routes = routes; applied_dns = none }

wants_recheck-ne-panics_example :
    wants_recheck
      (host_route_idx guard.added_routes)
      (recheck_times toy linux 3 guard empty_table).0.added_routes
    ≢ panics
wants_recheck-ne-panics_example = wants_recheck-ne-panics toy linux 3 guard empty_table

abbrev there : SocketAddr
there = record { ip = IpAddr.v4 203 0 113 2; port = 51820 }

abbrev peers : List (PeerRuntime ℕ)
peers =
    record { id = 1; endpoint = some there; keepalive = some 25; last_sent = 100 }
    ∷ record { id = 2; endpoint = none; keepalive = none; last_sent = 100 }
    ∷ []

-- At 125 the first peer is due, at 124 none is.
tick_test :
    ((send_keepalives toy_sessions 125 peers 0).datagrams ≢ [])
    × (All (λ p. is_due 124 p ≡ false) peers)
unfolding send_keepalives is_due
tick_test = (λ e. cc, (refl, (refl, tt)))

on_sent_postpones_example :
    (peers' : List (PeerRuntime ℕ)) × (on_sent 120 (endpoint_pairs 0 peers) peers there
      ≡ returns peers')
    × (endpoint_pairs 0 peers' ≡ endpoint_pairs 0 peers)
    × ((i : ℕ)
        → hash_get (endpoint_pairs 0 peers) there ≡ some i
        → (p : PeerRuntime ℕ) × (get_elem? peers' i ≡ some p)
          × (p.endpoint ≡ some there)
          × (p.last_sent ≡ 120))
on_sent_postpones_example = on_sent_postpones 120 peers there
