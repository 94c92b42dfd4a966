-- ===== src/Peer/Handlers.antt =====
-- The handlers of `PeerManager` (peer/__init__.py) for what peers send.
pub mod Findings
pub mod Heartbeats
pub mod Remembering
use sonic_watchtower.Prelude.{
  ℕ, ◌+◌, ◌-◌, String, ◌<>◌, Bool, true, false, not, ◌&&◌, Option, none, some, List, [], ◌∷◌, ◌++◌,
  ◌==◌, ltb, if◌then◌else◌,
}
use sonic_watchtower.Prelude.Clock.{Moment}
use sonic_watchtower.Prelude.Dict
use sonic_watchtower.Prelude.Dict.{Dict}
use sonic_watchtower.Prelude.Exec.{
  Exec, Result, ok, raise, zoom, pure, modify, gets, continue, ◌>>=◌, ◌>>◌,
}
use sonic_watchtower.Store.{Store, Value, text, int, table}
use sonic_watchtower.Store.Events
use sonic_watchtower.Store.Peers
use sonic_watchtower.Peer.{
  Manager, Client, Status, EventShare, TopologyShare, FindingShare, Rpc, share_finding,
}
use sonic_watchtower.Peer.Calls.{own_status, on_store, with_store}
use sonic_watchtower.Peer.Seen.{has_seen, mark_seen}

-- `_gossip_finding`: to every client but the sender.
unfoldable pub gossip : String → FindingShare → Dict Client → List (String × Rpc)
gossip sender msg [] = []
gossip sender msg ((host, _) ∷ clients) =
    let rest = gossip sender msg clients in
    if host == sender then rest else (host, share_finding msg) ∷ rest

module _ {F : Type 0} where
  -- `handle_heartbeat`
  unfoldable pub handle_heartbeat : Moment → Status → Exec (Manager F) Status
  handle_heartbeat now r = do
    on_store (
        Peers.update_heartbeat now.seconds r.hostname r.current_severity r.active_finding_count
          r.governor_state r.role)
    gets (own_status now)

  abbrev pub event_data : EventShare → Dict (Value F)
  event_data r =
      ("peer_hostname", text r.hostname)
      ∷ ("timestamp", text r.timestamp)
      ∷ ("summary", text r.summary)
      ∷ ("metrics", table r.metrics)
      ∷ []

  -- `handle_event`
  unfoldable pub handle_event : Moment → EventShare → Exec (Manager F) Bool
  handle_event now r = do
    on_store (
        Events.record_event now.seconds "peer" r.event_type "info"
          (if r.affected_port == "" then none else some r.affected_port) (some (event_data r)))
    on_store (modify (Peers.update_event_summary now.seconds r.hostname r.summary))
    pure true

  -- `handle_topology`
  unfoldable pub handle_topology : Moment → TopologyShare → Exec (Manager F) Bool
  handle_topology now r = do
    on_store (Peers.update_peer_topology now.seconds r.hostname r.neighbors)
    pure true

  abbrev pub finding_data : FindingShare → Dict (Value F)
  finding_data r =
      ("peer_hostname", text r.hostname)
      ∷ ("origin_hostname", text r.origin_hostname)
      ∷ ("finding_id", text r.finding_id)
      ∷ ("summary", text r.summary)
      ∷ ("affected_scope", text r.affected_scope)
      ∷ ("ttl", int r.ttl)
      ∷ []

  -- The message that is passed on: one hop fewer, and this switch as its sender.
  abbrev pub passed_on : Manager F → FindingShare → FindingShare
  passed_on m r = record r { hostname = m.config.hostname; ttl = r.ttl - 1 }

  -- The last step of `handle_finding`: the gossip, while hops are left.
  abbrev pub regossip : FindingShare → Manager F → Manager F
  regossip r m =
      if ltb 1 r.ttl
      then record m { outbox = m.outbox ++ gossip r.hostname (passed_on m r) m.clients }
      else m

  abbrev mark : String → Manager F → Manager F
  mark fid m = record m { seen_finding_ids = mark_seen fid m.seen_finding_ids }

  -- The part of `handle_finding` for a finding that was not seen: the id is marked first.
  unfoldable pub accept_finding : Moment → FindingShare → Exec (Manager F) (Bool × Bool)
  accept_finding now r = do
    modify (mark r.finding_id)
    on_store (
        Events.record_event now.seconds "peer" "peer_finding" r.severity none
          (some (finding_data r)))
    on_store
        (modify (Peers.update_event_summary now.seconds r.hostname ("[finding] " <> r.summary)))
    modify (regossip r)
    pure (true, false)

  -- `handle_finding`: whether it was accepted, and whether it was seen before.
  unfoldable pub handle_finding : Moment → FindingShare → Exec (Manager F) (Bool × Bool)
  unfolding accept_finding
  handle_finding now r m =
      if has_seen r.finding_id m.seen_finding_ids
      then (ok (true, true), m)
      else accept_finding now r m
