-- ===== src/Daemon/Invariant/Serving.antt =====
-- What peers send to the daemon (peer/server.py over peer/__init__.py) keeps the keys unique.
use sonic_watchtower.Prelude.{
  String, true, false, none, some, ◌==◌, if◌then◌else◌, any, Bool-cases, inl, inr,
}
use sonic_watchtower.Prelude.Clock.{Moment}
use sonic_watchtower.Prelude.Exec.{modify, pure, ◌>>◌, continue_preserves, for_each_preserves}
use sonic_watchtower.Store.{Store, is_peer_severity, is_event_severity}
use sonic_watchtower.Store.Events.{record_event}
use sonic_watchtower.Store.Findings.Creating.{UniqueIds}
use sonic_watchtower.Store.Baselines.Keys.{UniqueKeys}
use sonic_watchtower.Store.Peers.{
  Link, insert_link, link_of, same_link, update_peer_topology, update_event_summary, forget_links,
}
use sonic_watchtower.Peer.{Manager, Status, EventShare, TopologyShare, FindingShare}
use sonic_watchtower.Peer.Calls.{on_store}
use sonic_watchtower.Peer.Handlers.{handle_event, handle_topology, event_data}
use sonic_watchtower.Peer.Handlers.Findings.{serve_finding_branches}
use sonic_watchtower.Peer.Handlers.Heartbeats.{serve_heartbeat-valid, serve_heartbeat-refused}
use sonic_watchtower.Peer.Seen.{has_seen}
use sonic_watchtower.Peer.Server.{serve_heartbeat, serve_event, serve_topology, serve_finding}
use sonic_watchtower.Peer.Server.Rescue.{rescue_state}
use sonic_watchtower.Daemon.Invariant.{IsSoundManager, mark_seen-IsSeenSet, record_event_keeps}

module _ {F : Type 0} (now : Moment) (m : Manager F) (h : IsSoundManager m) where
  pub serve_heartbeat-IsSound : (r : Status) → IsSoundManager (serve_heartbeat now r m).1
  serve_heartbeat-IsSound r = elim (Bool-cases (is_peer_severity r.current_severity)) [
    | inl valid ↦ rw (serve_heartbeat-valid now r m valid) h
    | inr other ↦ rw (serve_heartbeat-refused now r m other) h
  ]

  pub serve_finding-IsSound : (r : FindingShare) → IsSoundManager (serve_finding now r m).1
  unfolding update_event_summary
  serve_finding-IsSound r =
      let marked = mark_seen-IsSeenSet r.finding_id m.seen_finding_ids h.3 in
      rw (serve_finding_branches now r m)
        (elim (Bool-cases (has_seen r.finding_id m.seen_finding_ids)) [
          | inl known ↦ rw known h
          | inr new ↦ rw new (elim (Bool-cases (is_event_severity r.severity)) [
            | inl valid ↦ rw valid (h.0, h.1, h.2, marked)
            | inr other ↦ rw other (h.0, h.1, h.2, marked)
          ])
        ])

  handle_event-IsSound : (r : EventShare) → IsSoundManager (handle_event now r m).1
  unfolding handle_event update_event_summary
  handle_event-IsSound r =
      let port = if r.affected_port == "" then none else some r.affected_port in
      let kept =
        record_event_keeps now.seconds "peer" r.event_type "info" port (some (event_data r))
          m.store in
      let (o, m') =
        on_store (record_event now.seconds "peer" r.event_type "info" port (some (event_data r)))
          m in
      let h' : IsSoundManager m' = (rw kept.0 h.0, rw kept.1 h.1, h.2, h.3) in
      continue_preserves IsSoundManager o
        (λ _.
          on_store (modify (update_event_summary now.seconds r.hostname r.summary)) >> pure true)
        m' h' (λ _. h')

  pub serve_event-IsSound : (r : EventShare) → IsSoundManager (serve_event now r m).1
  unfolding serve_event
  serve_event-IsSound r = rw (rescue_state false (handle_event now r) m) (handle_event-IsSound r)

  -- The parts of the journal that the peers' links do not touch.
  abbrev Others : Store F → Type 0
  Others s = UniqueIds s.findings × UniqueKeys s.baselines

  insert_link-Others :
      (host : String) (n : Link) (s : Store F)
      → Others s
      → Others (insert_link now.seconds host n s).1
  unfolding insert_link
  insert_link-Others host n s o =
      elim (Bool-cases (any (same_link (link_of now.seconds host n)) s.peer_topology)) [
        | inl taken ↦ rw (taken, insert_link) o
        | inr free ↦ rw (free, insert_link) o
      ]

  handle_topology-IsSound : (r : TopologyShare) → IsSoundManager (handle_topology now r m).1
  unfolding handle_topology update_peer_topology
  handle_topology-IsSound r =
      let (o, m') = on_store (update_peer_topology now.seconds r.hostname r.neighbors) m in
      let others =
        for_each_preserves Others (insert_link now.seconds r.hostname)
          (insert_link-Others r.hostname) r.neighbors (forget_links r.hostname m.store)
          (h.0, h.1) in
      let h' : IsSoundManager m' = (others.0, others.1, h.2, h.3) in
      continue_preserves IsSoundManager o (λ _. pure true) m' h' (λ _. h')

  pub serve_topology-IsSound : (r : TopologyShare) → IsSoundManager (serve_topology now r m).1
  unfolding serve_topology
  serve_topology-IsSound r =
      rw (rescue_state false (handle_topology now r) m) (handle_topology-IsSound r)
