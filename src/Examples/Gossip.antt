-- ===== src/Examples/Gossip.antt =====
-- Findings between switches, at concrete messages and a concrete fabric.
use sonic_watchtower.Prelude.{ℕ, ◌≤◌, String, ◌≡◌, refl, true, false, List, [], ◌∷◌, arith, All}
use sonic_watchtower.Prelude.Dict.{Dict}
use sonic_watchtower.Governor.{Governor, ResourceSnapshot, compute_state}
use sonic_watchtower.Governor
use sonic_watchtower.Peer.{Client, FindingShare, Rpc, share_finding}
use sonic_watchtower.Peer.Calls
use sonic_watchtower.Peer.Calls.{tell_finding}
use sonic_watchtower.Peer.Handlers.Remembering.{served_all, serve_finding-remembered}
use sonic_watchtower.Peer.Handlers.Findings.{
  serve_finding_branches, refused_then_acknowledged, after_accept,
}
use sonic_watchtower.Prelude.{◌⊎◌}
use sonic_watchtower.Prelude.Exec.{ok}
use sonic_watchtower.Peer.ClientCalls
use sonic_watchtower.Peer.ClientCalls.{answered, unreached, unanswered}
use sonic_watchtower.Peer.ClientCalls.Retrying.{served, share_finding-retry}
use sonic_watchtower.Peer.Network.{
  Network, Packet, Step, here, next, tell, lose, packets, with_node,
}
use sonic_watchtower.Peer.Network.Settling.{
  all_deliveries, IsDelivery, Run-deliveries, idle, and_then,
}
use sonic_watchtower.Peer.Network.Hops.{Reach-hops_le}
use sonic_watchtower.Peer.Seen.{has_seen, max_seen_findings}
use sonic_watchtower.Peer.Seen.Bounds.{marks, notes, marks-last_entries}
use sonic_watchtower.Peer.Seen.Refines.{last_entries}
use sonic_watchtower.Peer.Server.{serve_finding}
use sonic_watchtower.Examples.{now, later, journal, spine, manager, share}

serve_finding_branches_example :
    serve_finding now share manager ≡ ((true, false), after_accept now share manager)
unfolding has_seen Calls.init
serve_finding_branches_example = serve_finding_branches now share manager

abbrev another : FindingShare
another = record share { finding_id = "f-20260303-0009"; severity = "info" }

serve_finding-remembered_example :
    serve_finding later share
      (served_all ((now, another) ∷ (later, share) ∷ []) (serve_finding now share manager).1)
    ≡ (
      (true, true),
      served_all ((now, another) ∷ (later, share) ∷ []) (serve_finding now share manager).1,
    )
unfolding has_seen Calls.init
serve_finding-remembered_example =
    serve_finding-remembered now later share share ((now, another) ∷ (later, share) ∷ []) manager
      refl (omega arith) refl

abbrev odd : FindingShare
odd = record share { severity = "error" }

refused_then_acknowledged_example :
    ((serve_finding now odd manager).0 ≡ (false, false))
    × ((serve_finding later odd (serve_finding now odd manager).1).0 ≡ (true, true))
    × ((serve_finding later odd (serve_finding now odd manager).1).1.store ≡ journal)
unfolding has_seen Calls.init
refused_then_acknowledged_example =
    refused_then_acknowledged now later odd odd manager refl refl refl

abbrev clients : Dict Client
clients = ("spine1", spine) ∷ ("spine2", record spine { hostname = "spine2" }) ∷ []

-- A leaf that tells its spine of a finding.
abbrev fabric : Network ℕ
fabric = record { node = λ host. manager; in_flight = [] }

abbrev told : List (String × Rpc)
told =
    (
      "spine1",
      share_finding (record {
        hostname = "leaf1";
        origin_hostname = "leaf1";
        timestamp = "2026-03-03T10:00:00Z";
        severity = "warning";
        summary = "Ethernet0 down";
        affected_scope = "Ethernet0";
        ttl = 3;
        finding_id = "f-1";
      }),
    )
    ∷ []

abbrev fabric_after : Network ℕ
fabric_after = record {
  node =
      with_node "leaf1" (tell_finding now "f-1" "warning" "Ethernet0 down" "Ethernet0" manager)
        (λ host. manager);
  in_flight = packets 1 told;
}

tells : (tell_finding now "f-1" "warning" "Ethernet0 down" "Ethernet0" manager).outbox ≡ told
unfolding tell_finding Calls.init Governor.init
tells = refl

Reach-hops_le_example : All (λ p. p.hops ≤ 3) fabric_after.in_flight
unfolding Calls.init
Reach-hops_le_example =
    Reach-hops_le 3 {net = fabric} refl (λ host. (omega arith, omega arith))
      (next here (tell "leaf1" now "f-1" "warning" "Ethernet0 down" "Ethernet0" told tells))

marks-last_entries_example :
    marks ("f-1" ∷ "f-2" ∷ "f-1" ∷ []) []
    ≡ last_entries max_seen_findings (notes ("f-1" ∷ "f-2" ∷ "f-1" ∷ []) [])
marks-last_entries_example = marks-last_entries ("f-1" ∷ "f-2" ∷ "f-1" ∷ [])

-- A finding on its way to the leaf, which gets lost.
abbrev crossing : Packet
crossing = record { to = "leaf1"; message = share; hops = 1 }

abbrev fabric_before : Network ℕ
fabric_before = record { node = λ host. manager; in_flight = crossing ∷ [] }

Run-deliveries_example :
    (1 ≤ all_deliveries 1 fabric_before.in_flight)
    × ((fabric.in_flight ≡ []) ⊎ ((w : Network ℕ) × (s : Step fabric w) × IsDelivery s))
Run-deliveries_example =
    Run-deliveries 1 1 now fabric_before fabric (λ host. omega arith)
      (and_then idle (lose [] [] crossing refl) tt)

share_finding-retry_example :
    (ClientCalls.share_finding unreached now share manager ≡ (ok (false, false), manager))
    × (ClientCalls.share_finding unanswered now share manager
        ≡ (ok (false, false), served now share manager))
    × ((ClientCalls.share_finding answered now share manager).1 ≡ served now share manager)
    × (ClientCalls.share_finding answered later share
          (ClientCalls.share_finding unreached now share manager).1
        ≡ ClientCalls.share_finding answered later share manager)
    × (ClientCalls.share_finding answered later share
          (ClientCalls.share_finding unanswered now share manager).1
        ≡ (ok (true, true), served now share manager))
share_finding-retry_example = share_finding-retry now later share manager
