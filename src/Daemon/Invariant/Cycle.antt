-- ===== src/Daemon/Invariant/Cycle.antt =====
-- The poll cycle of main.py keeps the keys unique.
use sonic_watchtower.Prelude.{
  String, ◌≡◌, refl, ap, Bool, false, not, ◌&&◌, ◌||◌, Option, none, List, [], ◌∷◌, arith, ◌==◌,
  if◌then◌else◌, any, select, ltb, ◌+◌, map, Option-cases, Bool-cases, inl, inr,
}
use sonic_watchtower.Prelude.Clock.{Moment}
use sonic_watchtower.Prelude.Dict.{has_key}
use sonic_watchtower.Prelude.Exec.{modify, ◌>>◌, continue_preserves, for_each_preserves}
use sonic_watchtower.Store.{Finding, prune, is_peer_severity}
use sonic_watchtower.Store.Findings.Creating.{UniqueIds}
use sonic_watchtower.Store.Peers.{update_heartbeat}
use sonic_watchtower.Analyzers.Correlate.{CorrelationResult}
use sonic_watchtower.Analyzers.Diff.{TopologyChange}
use sonic_watchtower.Peer.{Manager, System, Status, Client}
use sonic_watchtower.Peer.Discovery.{PeerEndpoint, discover_peers}
use sonic_watchtower.Peer.Calls.{
  refresh_peers, connect_new, connect_peer, tls_available, tls_readable, send_heartbeats, beat,
  share_topology_fragment, drop_stale, tell_finding,
}
use sonic_watchtower.Peer.Calls.Clients.{refresh_peers-clients}
use sonic_watchtower.Report.{finding_from_peer_correlation, finding_from_topology_change}
use sonic_watchtower.Daemon.{Daemon, with_manager}
use sonic_watchtower.Daemon.Checks.{create_finding, emit}
use sonic_watchtower.Daemon.Cycle.{
  World, report_correlation, report_topology, write_banner, prune_journal,
}
use sonic_watchtower.Daemon.Invariant.{
  IsSound, IsSoundManager, create_finding-IsSound, tell_finding-IsSound,
}

any-select :
    (p q : Finding → Bool) (fs : List Finding) → any q fs ≡ false → any q (select p fs) ≡ false
unfolding any select
any-select p q [] h = refl
any-select p q (f ∷ fs) h = elim (Bool-cases (p f)) [
  | inl kept ↦ rw kept (ground (arith, h, any-select p q fs))
  | inr dropped ↦ rw dropped (any-select p q fs (ground (arith, h)))
]

select-UniqueIds : (p : Finding → Bool) (fs : List Finding) → UniqueIds fs → UniqueIds (select p fs)
unfolding select
select-UniqueIds p [] u = tt
select-UniqueIds p (f ∷ fs) (fresh, u) = elim (Bool-cases (p f)) [
  | inl kept ↦
      rw kept (any-select p (λ g. g.finding_id == f.finding_id) fs fresh, select-UniqueIds p fs u)
  | inr dropped ↦ rw dropped (select-UniqueIds p fs u)
]

module _ {F : Type 0} where
  pub prune_journal-IsSound :
      (now : Moment) (d : Daemon F) → IsSound d → IsSound (prune_journal now d)
  unfolding prune_journal prune
  prune_journal-IsSound now d (ids, keys, hosts, seen) =
      (select-UniqueIds _ d.manager.store.findings ids, keys, hosts, seen)

  pub report_correlation-IsSound :
      (now : Moment) (c : CorrelationResult F) (d : Daemon F)
      → IsSound d
      → IsSound (report_correlation now c d).1
  unfolding report_correlation emit
  report_correlation-IsSound now c d h =
      let fd =
        finding_from_peer_correlation c.local_event c.peer_event c.peer_hostname c.local_port
          c.peer_port in
      let (r, d') = create_finding now fd none d in
      let h' = create_finding-IsSound now fd none d h in
      continue_preserves IsSound r (λ fid. modify (emit fid fd)) d' h' (λ fid. h')

  pub report_topology-IsSound :
      (now : Moment) (c : TopologyChange) (d : Daemon F)
      → IsSound d
      → IsSound (report_topology now c d).1
  unfolding report_topology emit
  report_topology-IsSound now c d h =
      let fd =
        finding_from_topology_change c.change_type c.local_port c.neighbor_hostname c.neighbor_port
          c.old_neighbor_hostname c.old_neighbor_port in
      let (r, d') = create_finding now fd none d in
      let h' = create_finding-IsSound now fd none d h in
      continue_preserves IsSound r
        (λ fid.
          modify (emit fid fd)
          >> modify (with_manager (tell_finding now fid fd.severity fd.summary c.local_port)))
        d' h'
        (λ fid. tell_finding-IsSound now fid fd.severity fd.summary c.local_port d'.manager h')

  connect_new_keeps :
      (sys : System) (eps : List PeerEndpoint) (m : Manager F)
      → ((connect_new sys eps m).store ≡ m.store)
        × ((connect_new sys eps m).seen_finding_ids ≡ m.seen_finding_ids)
  unfolding connect_new connect_peer
  connect_new_keeps sys [] m = (refl, refl)
  connect_new_keeps sys (ep ∷ eps) m = elim (Bool-cases (has_key ep.hostname m.clients)) [
    | inl old ↦ rw (old, connect_new) (connect_new_keeps sys eps m)
    | inr new ↦
        rw (new, connect_new)
          (elim (Bool-cases
            (tls_available sys m.config.peer.tls && not (tls_readable sys m.config.peer.tls))) [
              | inl refused ↦ rw (refused, connect_peer) (connect_new_keeps sys eps m)
              | inr free ↦ rw (free, connect_peer) (connect_new_keeps sys eps _)
            ])
  ]

  pub write_banner-IsSound : (w : World F) (d : Daemon F) → IsSound d → IsSound (write_banner w d).1
  unfolding write_banner
  write_banner-IsSound w d h = h

  beat-IsSound :
      (now : Moment) (reply : String → Option Status) (c : String × Client) (m : Manager F)
      → IsSoundManager m
      → IsSoundManager (beat now reply c m).1
  unfolding beat
  beat-IsSound now reply c m h = elim (Option-cases (reply c.0)) [
    | inl silent ↦ rw (silent, beat) h
    | inr (r, answer) ↦
        rw (answer, beat)
          (elim (Bool-cases (is_peer_severity r.current_severity)) [
            | inl valid ↦ rw (valid, update_heartbeat) h
            | inr other ↦ rw (other, update_heartbeat) h
          ])
  ]

  pub send_heartbeats-IsSound :
      (now : Moment) (reply : String → Option Status) (m : Manager F)
      → IsSoundManager m
      → IsSoundManager (send_heartbeats now reply m).1
  unfolding send_heartbeats
  send_heartbeats-IsSound now reply m h =
      elim (Bool-cases (
        not m.enabled
        || ltb now.seconds (m.last_heartbeat_time + m.config.peer.heartbeat_interval))) [
          | inl early ↦ rw (early, send_heartbeats) h
          | inr due ↦
              rw (due, send_heartbeats)
                (for_each_preserves IsSoundManager (beat now reply) (beat-IsSound now reply)
                  m.clients (record m { last_heartbeat_time = now.seconds }) h)
        ]

  pub share_topology-IsSound :
      (now : Moment) (m : Manager F)
      → IsSoundManager m
      → IsSoundManager (share_topology_fragment now m)
  unfolding share_topology_fragment
  share_topology-IsSound now m h =
      elim (Bool-cases (
        not m.enabled
        || ltb now.seconds (m.last_topology_share_time + m.config.peer.topology_share_interval))) [
          | inl early ↦ rw (early, share_topology_fragment) h
          | inr due ↦ rw (due, share_topology_fragment) h
        ]

  pub refresh_peers-IsSound :
      (sys : System) (m : Manager F) → IsSoundManager m → IsSoundManager (refresh_peers sys m)
  unfolding refresh_peers
  refresh_peers-IsSound sys m (ids, keys, hosts, seen) =
      let eps = discover_peers sys.getaddrinfo m.config.peer.port m.store in
      let m' : Manager F = connect_new sys eps m in
      let kept = connect_new_keeps sys eps m in
      let left : Manager F = record m' {
        clients = drop_stale (map (λ ep. ep.hostname) eps) m'.clients;
      } in
      elim (Bool-cases m.enabled) [
        | inl on ↦
            let e : refresh_peers sys m ≡ left = ap (λ b. if b then left else m) on in
            rw e (
              rw kept.0 ids,
              rw kept.0 keys,
              rw e at (refresh_peers-clients sys m "" on hosts).1,
              rw kept.1 seen,
            )
        | inr off ↦
            let e : refresh_peers sys m ≡ m = ap (λ b. if b then left else m) off in
            rw e (ids, keys, hosts, seen)
      ]
