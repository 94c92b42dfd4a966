-- ===== src/Daemon/Cycle.antt =====
-- The poll cycle of main.py, and cycles one after the other.
pub mod Dormant
pub mod Failing
use sonic_watchtower.Prelude.{
  ℕ, ◌*◌, ◌+◌, String, ◌≡◌, Bool, true, false, not, ◌&&◌, Option, none, some, List, [], ◌∷◌, ◌==◌,
  if◌then◌else◌,
}
use sonic_watchtower.Prelude.Clock.{Moment}
use sonic_watchtower.Prelude.Dict
use sonic_watchtower.Prelude.Dict.{Dict}
use sonic_watchtower.Prelude.Exec.{
  Exec, Result, ok, raise, Error, os_error, zoom, pure, modify, gets, continue, throw, ◌>>=◌, ◌>>◌,
  for_each,
}
use sonic_watchtower.Prelude.Float.{Float}
use sonic_watchtower.Store.{Store, Finding, prune}
use sonic_watchtower.Store.Events
use sonic_watchtower.Store.Findings
use sonic_watchtower.Store.Topology
use sonic_watchtower.Governor.{Governor}
use sonic_watchtower.Governor.Reading.{Proc, update_from}
use sonic_watchtower.Governor
use sonic_watchtower.Analyzers.Compare.{AnomalyResult, check_port_stats}
use sonic_watchtower.Analyzers.Diff.{Info, TopologyChange}
use sonic_watchtower.Analyzers.Diff
use sonic_watchtower.Analyzers.Correlate.{CorrelationResult}
use sonic_watchtower.Analyzers.Correlate
use sonic_watchtower.Report.{
  FindingData, finding_from_peer_correlation, finding_from_topology_change,
}
use sonic_watchtower.Peer.{Manager, System, Status}
use sonic_watchtower.Peer.Calls
use sonic_watchtower.Peer.Calls.{tell_finding}
use sonic_watchtower.Output.Banner
use sonic_watchtower.Daemon.{
  Daemon, Collected, BgpSession, safe_collect, on_journal, on_manager, with_manager,
}
use sonic_watchtower.Daemon.Checks.{create_finding, emit, handle_anomaly, check_optic_health}
use sonic_watchtower.Daemon.Changes.{check_bgp_changes, check_link_changes}

-- What one cycle asks of the world: the time, the files of /proc, the collectors, the system, the answers of
-- the peers to heartbeats, and whether the banner file can be written.
pub record World (F : Type 0) : Type 0 where
  pub now : Moment
  pub proc : Proc
  pub collected : Collected F
  pub system : System
  pub reply : String → Option Status
  pub banner_writable : Bool

module _ {F : Type 0} where
  -- Step 2: one neighbour of the LLDP data.
  unfoldable pub learn : Moment → String × Info → Exec (Daemon F) (Unit {0})
  learn now (port, info) =
      on_journal (
        modify
          (Topology.update_neighbor now.seconds port info.neighbor_hostname info.neighbor_port))

  -- Step 8: one correlation.
  unfoldable pub report_correlation : Moment → CorrelationResult F → Exec (Daemon F) (Unit {0})
  report_correlation now c =
      let fd =
        finding_from_peer_correlation c.local_event c.peer_event c.peer_hostname c.local_port
          c.peer_port in
      do fid ← create_finding now fd none; modify (emit fid fd)

  -- Step 9: one change of the topology.
  unfoldable pub report_topology : Moment → TopologyChange → Exec (Daemon F) (Unit {0})
  report_topology now c =
      let fd =
        finding_from_topology_change c.change_type c.local_port c.neighbor_hostname c.neighbor_port
          c.old_neighbor_hostname c.old_neighbor_port in
      do
        fid ← create_finding now fd none
        modify (emit fid fd)
        modify (with_manager (tell_finding now fid fd.severity fd.summary c.local_port))

  -- `self.topology_diff.analyze(current_lldp=lldp_data)`
  unfoldable pub diff_topology : Dict Info → Exec (Daemon F) (List TopologyChange)
  unfolding Diff.analyze
  diff_topology lldp d =
      let (found, snapshot) = Diff.analyze (some lldp) d.manager.store d.last_snapshot in
      (ok found, record d { last_snapshot = snapshot })

  -- Step 10: `self.banner.write(active)`.
  unfoldable pub write_banner : World F → Exec (Daemon F) (Unit {0})
  unfolding Findings.get_active
  write_banner w d =
      let (r, file) =
        Banner.write d.manager.config.banner w.banner_writable w.now
          (Findings.get_active none d.manager.store) d.banner in
      (r, record d { banner = file })

  -- Step 11.
  unfoldable pub prune_journal : Moment → Daemon F → Daemon F
  unfolding prune
  prune_journal now d =
      let c = d.manager.config.journal in
      with_manager
        (λ m. record m {
          store = prune now.seconds c.retention_detail_days c.retention_summary_days m.store;
        })
        d

  -- Steps 2 and 2a: what LLDP shows, and the clients for it.
  unfoldable pub learn_topology : World F → Exec (Daemon F) (Unit {0})
  unfolding learn
  learn_topology w = do
    for_each (safe_collect w.collected.lldp) (learn w.now)
    modify (with_manager (Calls.refresh_peers w.system))

  -- Step 7: the peer protocol.
  unfoldable pub talk : World F → Exec (Daemon F) (Unit {0})
  talk w = do
    on_manager (Calls.send_heartbeats w.now w.reply)
    modify (with_manager (Calls.share_topology_fragment w.now))

  -- Step 8.
  unfoldable pub report_correlations : World F → Exec (Daemon F) (Unit {0})
  unfolding report_correlation
  report_correlations w = do
    correlations ← gets (λ d. Correlate.analyze w.now.seconds 300 d.manager.store)
    for_each correlations (report_correlation w.now)

  -- Step 9.
  unfoldable pub report_topology_changes : World F → Exec (Daemon F) (Unit {0})
  unfolding report_topology diff_topology
  report_topology_changes w = do
    changes ← diff_topology (safe_collect w.collected.lldp)
    for_each changes (report_topology w.now)

  -- Steps 10 and 11.
  unfoldable pub wind_up : World F → Exec (Daemon F) (Unit {0})
  unfolding write_banner prune_journal
  wind_up w = do write_banner w; modify (prune_journal w.now)

module _ {F : Type 0} (fl : Float F) where
  -- Step 3: the counters of one port.
  unfoldable pub check_port : Moment → Dict Info → String × Dict ℕ → Exec (Daemon F) (Unit {0})
  unfolding handle_anomaly check_port_stats
  check_port now lldp (port, stats) d =
      let (found, s) =
        check_port_stats fl d.manager.config.anomaly now port stats d.manager.store in
      for_each found (λ r. handle_anomaly fl now r (Dict.lookup port lldp))
        (with_manager (λ m. record m { store = s }) d)

  -- Steps 3 to 6: the checks of what the collectors gave.
  unfoldable pub detect : World F → Exec (Daemon F) (Unit {0})
  unfolding check_port
  detect w = do
    for_each (safe_collect w.collected.port_stats)
        (check_port w.now (safe_collect w.collected.lldp))
    check_bgp_changes w.now (safe_collect w.collected.bgp)
    check_link_changes w.now (safe_collect w.collected.iface_state) (safe_collect w.collected.lldp)
    check_optic_health fl w.now (safe_collect w.collected.optic) (safe_collect w.collected.lldp)

  -- The steps after the governor's leave, in their order.
  unfoldable pub collect_and_report : World F → Exec (Daemon F) (Unit {0})
  unfolding learn_topology detect talk report_correlations report_topology_changes wind_up
  collect_and_report w = do
    learn_topology w
    detect w
    talk w
    report_correlations w
    report_topology_changes w
    wind_up w

  abbrev pub on_governor : {A : Type 0} → Exec (Governor F) A → Exec (Daemon F) A
  on_governor =
      zoom (λ (d : Daemon F). d.manager.governor)
        (λ (d : Daemon F) g. with_manager (λ m. record m { governor = g }) d)

  -- What follows `self.governor.update()`: the governor's leave is asked for.
  unfoldable pub collect_if_allowed : World F → Exec (Daemon F) (Unit {0})
  unfolding collect_and_report
  collect_if_allowed w = do
    collect ← gets (λ d. Governor.should_collect d.manager.governor)
    if collect then collect_and_report w else pure tt

  -- `_poll_cycle`
  unfoldable pub poll_cycle : World F → Exec (Daemon F) (Unit {0})
  unfolding collect_if_allowed update_from
  poll_cycle w = do on_governor (update_from fl w.proc); collect_if_allowed w

  -- Cycles one after the other: an exception ends its cycle, and not the loop of `run`.
  unfoldable pub run_cycles : List (World F) → Daemon F → Daemon F
  unfolding poll_cycle
  run_cycles [] d = d
  run_cycles (w ∷ ws) d = run_cycles ws (poll_cycle w d).1
