-- ===== src/Daemon/Invariant/Checks.antt =====
-- The checks of main.py keep the keys unique.
use sonic_watchtower.Prelude.{
  ℕ, String, ◌≡◌, refl, ◌∙◌, Option-cases, Option, none, some, List, [], ◌∷◌, ◌==◌, Bool-cases, inl,
  inr,
}
use sonic_watchtower.Prelude.Clock.{Moment}
use sonic_watchtower.Prelude.Dict.{Dict, lookup}
use sonic_watchtower.Prelude.Exec.{modify, continue_preserves, for_each_preserves}
use sonic_watchtower.Prelude.Float.{Float}
use sonic_watchtower.Store.{Store, Value, number}
use sonic_watchtower.Store.Baselines
use sonic_watchtower.Store.Baselines.Keys.{UniqueKeys}
use sonic_watchtower.Governor
use sonic_watchtower.Analyzers.Compare.{
  AnomalyResult, to_dict, check_metrics, check_port_stats, error_metrics,
}
use sonic_watchtower.Analyzers.Compare.Ports.{sampled, sampled-UniqueKeys}
use sonic_watchtower.Analyzers.Diff.{Info}
use sonic_watchtower.Config.{AnomalyConfig}
use sonic_watchtower.Report.{FindingData, finding_from_anomaly, finding_from_optic_degradation}
use sonic_watchtower.Daemon.{Daemon, BgpSession}
use sonic_watchtower.Daemon.Checks.{
  record_local, announce, report, handle_anomaly, event_severity, rx_power, baseline_p50,
  report_optic, check_optic, check_optic_health,
}
use sonic_watchtower.Daemon.Changes.{
  report_bgp, check_bgp, check_bgp_changes, set_bgp, report_link, check_link, check_link_changes,
  set_oper,
}
use sonic_watchtower.Daemon.Invariant.{IsSound, record_local-IsSound, announce-IsSound}

module _ {F : Type 0} where
  report-IsSound :
      (now : Moment) (category : String) (at_port : Option String) (port : String)
      (raw : Dict (Value F)) (fd : FindingData) (d : Daemon F)
      → IsSound d
      → IsSound (report now category at_port port raw fd d).1
  unfolding report
  report-IsSound now category at_port port raw fd d h =
      let (r, d') = record_local now category fd.severity at_port raw d in
      let h' = record_local-IsSound now category fd.severity at_port raw d h in
      continue_preserves IsSound r (λ i. announce now category port port (some (i ∷ [])) fd) d' h'
        (λ i. announce-IsSound now category port port (some (i ∷ [])) fd d' h')

  report_link-IsSound :
      (now : Moment) (lldp : Dict Info) (port : String) (old : Option String) (oper : String)
      (d : Daemon F)
      → IsSound d
      → IsSound (report_link now lldp port old oper d).1
  unfolding report_link
  report_link-IsSound now lldp port none oper d h = h
  report_link-IsSound now lldp port (some old) oper d h = elim (Bool-cases (old == oper)) [
    | inl same ↦ rw (same, report_link) h
    | inr other ↦ rw (other, report_link) (report-IsSound now _ _ _ _ _ d h)
  ]

  report_bgp-IsSound :
      (now : Moment) (ip : String) (old : Option String) (session : BgpSession) (d : Daemon F)
      → IsSound d
      → IsSound (report_bgp now ip old session d).1
  unfolding report_bgp
  report_bgp-IsSound now ip none session d h = h
  report_bgp-IsSound now ip (some old) session d h = elim (Bool-cases (old == session.state)) [
    | inl same ↦ rw (same, report_bgp) h
    | inr other ↦ rw (other, report_bgp) (report-IsSound now _ _ _ _ _ d h)
  ]

  pub check_link_changes-IsSound :
      (now : Moment) (ifaces : Dict String) (lldp : Dict Info) (d : Daemon F)
      → IsSound d
      → IsSound (check_link_changes now ifaces lldp d).1
  unfolding check_link_changes check_link
  check_link_changes-IsSound now ifaces lldp d h =
      for_each_preserves IsSound (check_link now lldp)
        (λ p d h.
          let (r, d') = report_link now lldp p.0 (lookup p.0 d.last_oper_states) p.1 d in
          let h' = report_link-IsSound now lldp p.0 (lookup p.0 d.last_oper_states) p.1 d h in
          continue_preserves IsSound r (λ _. modify (set_oper p.0 p.1)) d' h' (λ _. h'))
        ifaces d h

  pub check_bgp_changes-IsSound :
      (now : Moment) (sessions : Dict BgpSession) (d : Daemon F)
      → IsSound d
      → IsSound (check_bgp_changes now sessions d).1
  unfolding check_bgp_changes check_bgp
  check_bgp_changes-IsSound now sessions d h =
      for_each_preserves IsSound (check_bgp now)
        (λ p d h.
          let (r, d') = report_bgp now p.0 (lookup p.0 d.last_bgp_states) p.1 d in
          let h' = report_bgp-IsSound now p.0 (lookup p.0 d.last_bgp_states) p.1 d h in
          continue_preserves IsSound r (λ _. modify (set_bgp p.0 p.1.state)) d' h' (λ _. h'))
        sessions d h

module _ {F : Type 0} (fl : Float F) where
  pub handle_anomaly-IsSound :
      (now : Moment) (r : AnomalyResult F) (neighbor : Option Info) (d : Daemon F)
      → IsSound d
      → IsSound (handle_anomaly fl now r neighbor d).1
  unfolding handle_anomaly
  handle_anomaly-IsSound now r neighbor d h =
      let (o, d') = record_local now "anomaly" (event_severity r) (some r.port) (to_dict r) d in
      let h' =
        record_local-IsSound now "anomaly" (event_severity r) (some r.port) (to_dict r) d h in
      continue_preserves IsSound o _ d' h' (λ i.
        elim (Bool-cases (Governor.can_investigate d'.manager.governor)) [
          | inl allowed ↦ rw allowed (
              announce-IsSound now "anomaly" r.port r.port (some (i ∷ []))
                (finding_from_anomaly fl r neighbor) d' h')
          | inr deferred ↦ rw deferred h'
        ])

  sampled_keeps :
      (cfg : AnomalyConfig F) (now : Moment) (port : String) (stats : Dict ℕ) (m : String)
      (s : Store F)
      → (sampled fl cfg now port stats m s).findings ≡ s.findings
  unfolding Baselines.update
  sampled_keeps cfg now port stats m s =
      elim (Option-cases (Baselines.get now port m (some (Baselines.hour_of_week now none)) s)) [
        | inl new ↦ rw (new, Baselines.update) refl
        | inr (b, old) ↦ rw (old, Baselines.update) refl
      ]

  check_metrics_keeps :
      (cfg : AnomalyConfig F) (now : Moment) (port : String) (stats : Dict ℕ) (ms : List String)
      (s : Store F)
      → UniqueKeys s.baselines
      → UniqueKeys (check_metrics fl cfg now port stats ms s).1.baselines
        × ((check_metrics fl cfg now port stats ms s).1.findings ≡ s.findings)
  unfolding check_metrics
  check_metrics_keeps cfg now port stats [] s u = (u, refl)
  check_metrics_keeps cfg now port stats (m ∷ ms) s u =
      let i =
        check_metrics_keeps cfg now port stats ms (sampled fl cfg now port stats m s)
          (sampled-UniqueKeys fl cfg now port stats m s u) in
      (i.0, i.1 ∙ sampled_keeps cfg now port stats m s)

  report_optic-IsSound :
      (now : Moment) (lldp : Dict Info) (port : String) (rx : F) (d : Daemon F)
      → IsSound d
      → IsSound (report_optic fl now lldp port rx d).1
  unfolding report_optic
  report_optic-IsSound now lldp port rx d h =
      let fd =
        finding_from_optic_degradation fl port rx (baseline_p50 fl now port d.manager.store)
          (lookup port lldp) in
      let raw = ("rx_power_avg_dbm", number rx) ∷ [] in
      let (r, d') = record_local now "optic_degradation" fd.severity (some port) raw d in
      let h' = record_local-IsSound now "optic_degradation" fd.severity (some port) raw d h in
      continue_preserves IsSound r (λ _. announce now "optic_degradation" port port none fd) d' h'
        (λ _. announce-IsSound now "optic_degradation" port port none fd d' h')

  pub check_optic_health-IsSound :
      (now : Moment) (optics : Dict (Option F)) (lldp : Dict Info) (d : Daemon F)
      → IsSound d
      → IsSound (check_optic_health fl now optics lldp d).1
  unfolding check_optic_health check_optic
  check_optic_health-IsSound now optics lldp d h =
      for_each_preserves IsSound (check_optic fl now lldp)
        (λ p d h. elim (Bool-cases (fl.flt (rx_power fl p.1) (fl.negative (fl.of_ℕ 7)))) [
          | inl low ↦
              rw (low, check_optic) (report_optic-IsSound now lldp p.0 (rx_power fl p.1) d h)
          | inr fine ↦ rw (fine, check_optic) h
        ])
        optics d h

  pub check_port_stats_keeps :
      (cfg : AnomalyConfig F) (now : Moment) (port : String) (stats : Dict ℕ) (s : Store F)
      → UniqueKeys s.baselines
      → UniqueKeys (check_port_stats fl cfg now port stats s).1.baselines
        × ((check_port_stats fl cfg now port stats s).1.findings ≡ s.findings)
  unfolding check_port_stats
  check_port_stats_keeps cfg now port stats s u =
      check_metrics_keeps cfg now port stats error_metrics s u
