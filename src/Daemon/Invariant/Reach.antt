-- ===== src/Daemon/Invariant/Reach.antt =====
-- The states that a daemon (main.py) reaches, by its cycles, by what peers send, and by restarts.
use sonic_watchtower.Prelude.{ℕ, String, arith, Bool-cases, inl, inr}
use sonic_watchtower.Prelude.Clock.{Moment}
use sonic_watchtower.Prelude.Dict.{lookup}
use sonic_watchtower.Prelude.Exec.{
  Exec, modify, ◌>>◌, continue_preserves, for_each, for_each_preserves,
}
use sonic_watchtower.Prelude.Float.{Float}
use sonic_watchtower.Config.{WatchtowerConfig}
use sonic_watchtower.Store.{Store, empty_store, restart}
use sonic_watchtower.Store.Findings.Creating.{UniqueIds}
use sonic_watchtower.Store.Baselines.Keys.{UniqueKeys}
use sonic_watchtower.Store.Topology.{update_neighbor}
use sonic_watchtower.Governor
use sonic_watchtower.Analyzers.Correlate
use sonic_watchtower.Analyzers.Compare.{check_port_stats}
use sonic_watchtower.Peer.{System, Status, EventShare, TopologyShare, FindingShare}
use sonic_watchtower.Governor.Reading.{update_from}
use sonic_watchtower.Peer.Calls
use sonic_watchtower.Peer.Server.{serve_heartbeat, serve_event, serve_topology, serve_finding}
use sonic_watchtower.Daemon.{Daemon, safe_collect, with_manager, on_manager, init}
use sonic_watchtower.Daemon.Checks.{handle_anomaly, check_optic_health}
use sonic_watchtower.Daemon.Changes.{check_bgp_changes, check_link_changes}
use sonic_watchtower.Daemon.Cycle.{
  World, learn, check_port, report_correlation, report_topology, diff_topology, write_banner,
  prune_journal, learn_topology, detect, talk, report_correlations, report_topology_changes,
  wind_up, collect_and_report, on_governor, collect_if_allowed, poll_cycle,
}
use sonic_watchtower.Daemon.Invariant.{IsSound}
use sonic_watchtower.Daemon.Invariant.Checks.{
  check_link_changes-IsSound, check_bgp_changes-IsSound, check_optic_health-IsSound,
  handle_anomaly-IsSound, check_port_stats_keeps,
}
use sonic_watchtower.Daemon.Invariant.Cycle.{
  prune_journal-IsSound, report_correlation-IsSound, report_topology-IsSound, write_banner-IsSound,
  send_heartbeats-IsSound, share_topology-IsSound, refresh_peers-IsSound,
}
use sonic_watchtower.Daemon.Invariant.Serving.{
  serve_heartbeat-IsSound, serve_event-IsSound, serve_topology-IsSound, serve_finding-IsSound,
}

module _ {F : Type 0} where
  -- An operation that keeps the keys unique, whether it raises or not.
  abbrev Keeps : {A : Type 0} → Exec (Daemon F) A → Type 0
  Keeps m = (d : Daemon F) → IsSound d → IsSound (m d).1

  then-Keeps :
      {A B : Type 0} (m : Exec (Daemon F) A) (n : Exec (Daemon F) B)
      → Keeps m
      → Keeps n
      → Keeps (m >> n)
  then-Keeps m n k l d h =
      continue_preserves IsSound (m d).0 (λ _. n) (m d).1 (k d h) (λ _. l (m d).1 (k d h))

  learn_topology-IsSound : (w : World F) → Keeps (learn_topology w)
  unfolding learn_topology learn update_neighbor
  learn_topology-IsSound w =
      then-Keeps (for_each (safe_collect w.collected.lldp) (learn w.now))
        (modify (with_manager (Calls.refresh_peers w.system)))
        (for_each_preserves IsSound (learn w.now) (λ p d h. h) (safe_collect w.collected.lldp))
        (λ d h. refresh_peers-IsSound w.system d.manager h)

  talk-IsSound : (w : World F) → Keeps (talk w)
  unfolding talk
  talk-IsSound w =
      then-Keeps (on_manager (Calls.send_heartbeats w.now w.reply))
        (modify (with_manager (Calls.share_topology_fragment w.now)))
        (λ d h. send_heartbeats-IsSound w.now w.reply d.manager h)
        (λ d h. share_topology-IsSound w.now d.manager h)

  report_correlations-IsSound : (w : World F) → Keeps (report_correlations w)
  unfolding report_correlations
  report_correlations-IsSound w d h =
      for_each_preserves IsSound (report_correlation w.now) (report_correlation-IsSound w.now)
        (Correlate.analyze w.now.seconds 300 d.manager.store) d h

  report_topology_changes-IsSound : (w : World F) → Keeps (report_topology_changes w)
  unfolding report_topology_changes diff_topology
  report_topology_changes-IsSound w d h =
      let (r, d') = diff_topology (safe_collect w.collected.lldp) d in
      continue_preserves IsSound r (λ cs. for_each cs (report_topology w.now)) d' h
        (λ cs.
          for_each_preserves IsSound (report_topology w.now) (report_topology-IsSound w.now) cs d'
            h)

  wind_up-IsSound : (w : World F) → Keeps (wind_up w)
  unfolding wind_up
  wind_up-IsSound w =
      then-Keeps (write_banner w) (modify (prune_journal w.now)) (write_banner-IsSound w)
        (prune_journal-IsSound w.now)

  start-IsSound :
      (sys : System) (d : Daemon F) → IsSound d → IsSound (on_manager (Calls.start sys) d).1
  unfolding Calls.start
  start-IsSound sys d h = elim (Bool-cases d.manager.enabled) [
    | inl on ↦
        rw (on, Calls.start)
          (elim (Bool-cases (Calls.tls_available sys d.manager.config.peer.tls)) [
            | inl found ↦
                rw (found, Calls.start)
                  (elim (Bool-cases (Calls.tls_readable sys d.manager.config.peer.tls)) [
                    | inl can ↦ rw (can, Calls.start) h
                    | inr cannot ↦ rw (cannot, Calls.start) h
                  ])
            | inr missing ↦ rw (missing, Calls.start) h
          ])
    | inr off ↦ rw (off, Calls.start) h
  ]

  stop-IsSound : (d : Daemon F) → IsSound d → IsSound (with_manager Calls.stop d)
  unfolding Calls.stop
  stop-IsSound d (ids, keys, hosts, seen) = (ids, keys, tt, seen)

module _ {F : Type 0} (fl : Float F) where
  check_port-IsSound :
      (w : World F) (p : String × _) → Keeps (check_port fl w.now (safe_collect w.collected.lldp) p)
  unfolding check_port
  check_port-IsSound w p d (ids, keys, hosts, seen) =
      let (found, s) = check_port_stats fl d.manager.config.anomaly w.now p.0 p.1 d.manager.store in
      let kept =
        check_port_stats_keeps fl d.manager.config.anomaly w.now p.0 p.1 d.manager.store keys in
      for_each_preserves IsSound
        (λ r. handle_anomaly fl w.now r (lookup p.0 (safe_collect w.collected.lldp)))
        (λ r. handle_anomaly-IsSound fl w.now r (lookup p.0 (safe_collect w.collected.lldp))) found
        (with_manager (λ m. record m { store = s }) d) (rw kept.1 ids, kept.0, hosts, seen)

  detect-IsSound : (w : World F) → Keeps (detect fl w)
  unfolding detect
  detect-IsSound w =
      let lldp = safe_collect w.collected.lldp in
      let bgp = check_bgp_changes w.now (safe_collect w.collected.bgp) in
      let links = check_link_changes w.now (safe_collect w.collected.iface_state) lldp in
      let optics = check_optic_health fl w.now (safe_collect w.collected.optic) lldp in
      then-Keeps (for_each (safe_collect w.collected.port_stats) (check_port fl w.now lldp))
        (bgp >> (links >> optics))
        (for_each_preserves IsSound (check_port fl w.now lldp) (check_port-IsSound w)
          (safe_collect w.collected.port_stats))
        (then-Keeps bgp (links >> optics)
          (check_bgp_changes-IsSound w.now (safe_collect w.collected.bgp))
          (then-Keeps links optics
            (check_link_changes-IsSound w.now (safe_collect w.collected.iface_state) lldp)
            (check_optic_health-IsSound fl w.now (safe_collect w.collected.optic) lldp)))

  collect_and_report-IsSound : (w : World F) → Keeps (collect_and_report fl w)
  unfolding collect_and_report
  collect_and_report-IsSound w =
      let last = report_topology_changes w >> wind_up w in
      let late = report_correlations w >> last in
      then-Keeps (learn_topology w) (detect fl w >> (talk w >> late)) (learn_topology-IsSound w) (
        then-Keeps (detect fl w) (talk w >> late) (detect-IsSound w) (
          then-Keeps (talk w) late (talk-IsSound w) (
            then-Keeps (report_correlations w) last (report_correlations-IsSound w) (
              then-Keeps (report_topology_changes w) (wind_up w) (report_topology_changes-IsSound w)
                (wind_up-IsSound w)))))

  collect_if_allowed-IsSound : (w : World F) → Keeps (collect_if_allowed fl w)
  unfolding collect_if_allowed
  collect_if_allowed-IsSound w d h =
      elim (Bool-cases (Governor.should_collect d.manager.governor)) [
        | inl collects ↦ rw (collects, collect_if_allowed) (collect_and_report-IsSound w d h)
        | inr dormant ↦ rw (dormant, collect_if_allowed) h
      ]

  poll_cycle-IsSound : (w : World F) → Keeps (poll_cycle fl w)
  unfolding poll_cycle
  poll_cycle-IsSound w d h =
      then-Keeps (on_governor fl (update_from fl w.proc)) (collect_if_allowed fl w) (λ d h. h)
        (collect_if_allowed-IsSound w) d h

  -- One step: the start or the stop of the peer protocol; a cycle, whether it ends with an exception
  -- or not; a message of a peer; or a new process over the same journal, with any configuration.
  pub data Step (d : Daemon F) : Daemon F → Type 0 where
    begin : (sys : System) → Step d (on_manager (Calls.start sys) d).1
    end : Step d (with_manager Calls.stop d)
    cycle : (w : World F) → Step d (poll_cycle fl w d).1
    hear_heartbeat :
        (now : Moment) (r : Status) → Step d (with_manager (λ m. (serve_heartbeat now r m).1) d)
    hear_event :
        (now : Moment) (r : EventShare) → Step d (with_manager (λ m. (serve_event now r m).1) d)
    hear_topology :
        (now : Moment) (r : TopologyShare)
        → Step d (with_manager (λ m. (serve_topology now r m).1) d)
    hear_finding :
        (now : Moment) (r : FindingShare) → Step d (with_manager (λ m. (serve_finding now r m).1) d)
    begin_again :
        (now : ℕ) (config : WatchtowerConfig F)
        → Step d (init fl now config (restart d.manager.store))

  pub data Reach (d : Daemon F) : Daemon F → Type 0 where
    here : Reach d d
    next : {u v : Daemon F} → Reach d u → Step u v → Reach d v

  init-IsSound :
      (now : ℕ) (config : WatchtowerConfig F) (s : Store F)
      → UniqueIds s.findings
      → UniqueKeys s.baselines
      → IsSound (init fl now config s)
  unfolding init Calls.init
  init-IsSound now config s ids keys =
      (ids, keys, tt, record { distinct = tt; bounded = omega arith })

  Step-IsSound : {d d' : Daemon F} → Step d d' → IsSound d → IsSound d'
  Step-IsSound {d} (begin sys) h = start-IsSound sys d h
  Step-IsSound {d} end h = stop-IsSound d h
  Step-IsSound {d} (cycle w) h = poll_cycle-IsSound w d h
  Step-IsSound {d} (hear_heartbeat now r) h = serve_heartbeat-IsSound now d.manager h r
  Step-IsSound {d} (hear_event now r) h = serve_event-IsSound now d.manager h r
  Step-IsSound {d} (hear_topology now r) h = serve_topology-IsSound now d.manager h r
  Step-IsSound {d} (hear_finding now r) h = serve_finding-IsSound now d.manager h r
  Step-IsSound {d} (begin_again now config) h =
      init-IsSound now config (restart d.manager.store) h.0 h.1

  Reach-IsSound_from : {d d' : Daemon F} → Reach d d' → IsSound d → IsSound d'
  Reach-IsSound_from here h = h
  Reach-IsSound_from (next r step) h = Step-IsSound step (Reach-IsSound_from r h)

  -- In every state that a daemon reaches from a new journal, by starts and stops of the peer protocol,
  -- by cycles with any load, collected data and answers of peers, whether they end with an exception or
  -- not, by any messages of peers, and by restarts: no finding id, no key of a baseline, no client and no seen id occurs twice, and at most
  -- 1000 ids are kept as seen.
  pub Reach-IsSound :
      (now : ℕ) (config : WatchtowerConfig F) {d : Daemon F}
      → Reach (init fl now config (empty_store F)) d
      → IsSound d
  Reach-IsSound now config r = Reach-IsSound_from r (init-IsSound now config (empty_store F) tt tt)
