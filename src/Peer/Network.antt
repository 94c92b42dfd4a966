-- ===== src/Peer/Network.antt =====
-- A network of switches that run `ShareFinding` (peer/server.py over peer/__init__.py): the
-- managers, and the findings in flight between them. A packet carries, beside the message, the
-- number of links that the finding has crossed with it, which no switch reads.
pub mod Hops
pub mod Settling
use sonic_watchtower.Prelude.{
  ℕ, ◌+◌, ◌-◌, ◌≤◌, ◌<◌, String, ◌≡◌, refl, ap, Bool, true, false, ◌&&◌, ◌||◌, List, [], ◌∷◌, ◌++◌,
  arith, ◌==◌, ltb, if◌then◌else◌, Bool-cases, inl, inr, All, All-append, All-append_left,
  All-append_right, ltb→lt,
}
use sonic_watchtower.Prelude.Clock.{Moment}
use sonic_watchtower.Prelude.Dict.{Dict}
use sonic_watchtower.Store.{is_event_severity}
use sonic_watchtower.Peer.{
  Manager, Client, FindingShare, Rpc, heartbeat, share_event, share_topology, share_finding,
}
use sonic_watchtower.Peer.Calls.{tell_finding, may_share, to_all}
use sonic_watchtower.Peer.Handlers.{gossip, passed_on}
use sonic_watchtower.Peer.Handlers.Findings.{serve_finding_branches}
use sonic_watchtower.Peer.Seen.{has_seen}
use sonic_watchtower.Peer.Server.{serve_finding}

pub record Packet : Type 0 where
  pub to : String
  pub message : FindingShare
  pub hops : ℕ

pub record Network (F : Type 0) : Type 0 where
  pub node : String → Manager F
  pub in_flight : List Packet

-- The findings among the calls of a switch, each about to cross a link.
abbrev pub packets : ℕ → List (String × Rpc) → List Packet
packets hops [] = []
packets hops ((to, share_finding msg) ∷ calls) =
    record { to = to; message = msg; hops = hops } ∷ packets hops calls
packets hops ((to, heartbeat _) ∷ calls) = packets hops calls
packets hops ((to, share_event _) ∷ calls) = packets hops calls
packets hops ((to, share_topology _) ∷ calls) = packets hops calls

abbrev pub with_node : {F : Type 0} → String → Manager F → (String → Manager F) → String → Manager F
with_node host m node j = if j == host then m else node j

-- One step: a switch shares a finding of its own; a packet is served, and the calls of the switch
-- cross one link more; a packet is lost; or a switch does anything else that keeps its
-- configuration.
pub data Step {F : Type 0} (net : Network F) : Network F → Type 0 where
  tell :
      (host : String) (now : Moment) (finding_id severity summary scope : String)
      (calls : List (String × Rpc))
      → (tell_finding now finding_id severity summary scope (net.node host)).outbox
        ≡ (net.node host).outbox ++ calls
      → Step net (record {
        node =
            with_node host
              (tell_finding now finding_id severity summary scope (net.node host))
              net.node;
        in_flight = net.in_flight ++ packets 1 calls;
      })
  serve :
      (now : Moment) (before after : List Packet) (p : Packet) (calls : List (String × Rpc))
      → net.in_flight ≡ before ++ p ∷ after
      → (serve_finding now p.message (net.node p.to)).1.outbox ≡ (net.node p.to).outbox ++ calls
      → Step net (record {
        node = with_node p.to (serve_finding now p.message (net.node p.to)).1 net.node;
        in_flight = (before ++ after) ++ packets (p.hops + 1) calls;
      })
  lose :
      (before after : List Packet) (p : Packet)
      → net.in_flight ≡ before ++ p ∷ after
      → Step net (record net { in_flight = before ++ after })
  work :
      (host : String) (m : Manager F)
      → m.config ≡ (net.node host).config
      → Step net (record net { node = with_node host m net.node })

pub data Reach {F : Type 0} (net : Network F) : Network F → Type 0 where
  here : Reach net net
  next : {u v : Network F} → Reach net u → Step u v → Reach net v
