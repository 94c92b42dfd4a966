-- ===== src/Daemon/Checks.antt =====
-- The checks of the poll cycle (main.py): anomalies and optics, and the calls that end every check.
pub mod Announcing
pub mod Outcome
use sonic_watchtower.Prelude.{
  ℕ, String, ◌≡◌, Bool, true, false, not, ◌&&◌, Option, none, some, List, [], ◌∷◌, ◌==◌,
  if◌then◌else◌,
}
use sonic_watchtower.Prelude.Clock.{Moment}
use sonic_watchtower.Prelude.Dict
use sonic_watchtower.Prelude.Dict.{Dict}
use sonic_watchtower.Prelude.Exec.{
  Exec, Result, ok, raise, zoom, pure, modify, gets, continue, ◌>>=◌, ◌>>◌, for_each,
}
use sonic_watchtower.Prelude.Float.{Float}
use sonic_watchtower.Store.{Store, Value, text, number}
use sonic_watchtower.Store.Events
use sonic_watchtower.Store.Findings
use sonic_watchtower.Store.Baselines
use sonic_watchtower.Governor
use sonic_watchtower.Analyzers.Compare.{AnomalyResult, to_dict}
use sonic_watchtower.Analyzers.Diff.{Info}
use sonic_watchtower.Report.{
  FindingData, finding_from_bgp_change, finding_from_link_change, finding_from_anomaly,
  finding_from_optic_degradation,
}
use sonic_watchtower.Output.Syslog
use sonic_watchtower.Peer.{Manager}
use sonic_watchtower.Peer.Calls.{tell_event, tell_finding}
use sonic_watchtower.Daemon.{Daemon, BgpSession, on_journal, with_manager}

module _ {F : Type 0} where
  -- `self.events.record(source="local", …)`
  unfoldable pub record_local :
      Moment → String → String → Option String → Dict (Value F) → Exec (Daemon F) ℕ
  record_local now category severity port raw =
      on_journal (Events.record_event now.seconds "local" category severity port (some raw))

  -- `self.findings.create(…)`
  unfoldable pub create_finding : Moment → FindingData → Option (List ℕ) → Exec (Daemon F) String
  create_finding now fd related =
      on_journal (Findings.create now fd.severity fd.summary (some fd.detail) related none)

  -- `self.syslog.emit_finding(…)`
  unfoldable pub emit : String → FindingData → Daemon F → Daemon F
  emit fid fd d = record d {
    syslog = Syslog.emit_finding fid fd.severity fd.summary false d.syslog;
  }

  -- The calls of `share_event` and `share_finding`.
  unfoldable pub share :
      Moment → String → String → String → String → FindingData → Daemon F → Daemon F
  share now event_type port scope fid fd = with_manager (λ m.
      tell_finding now fid fd.severity fd.summary scope
        (tell_event now event_type port fd.summary m))

  -- The four calls that end every check: the finding, syslog, and the two shares.
  unfoldable pub announce :
      Moment → String → String → String → Option (List ℕ) → FindingData → Exec (Daemon F) (Unit {0})
  announce now event_type port scope related fd = do
    fid ← create_finding now fd related
    modify (λ d. share now event_type port scope fid fd (emit fid fd d))

  -- The event and the finding of a change of state, as both checks of changes report it.
  unfoldable pub report :
      Moment
      → String
      → Option String
      → String
      → Dict (Value F)
      → FindingData
      → Exec (Daemon F) (Unit {0})
  unfolding record_local announce
  report now category at_port port raw fd = do
    event_id ← record_local now category fd.severity at_port raw
    announce now category port port (some (event_id ∷ [])) fd

  -- `"warning" if not anomaly.is_immediate else "critical"`
  abbrev pub event_severity : AnomalyResult F → String
  event_severity r = if not r.is_immediate then "warning" else "critical"

module _ {F : Type 0} (fl : Float F) where
  open fl use {flt, negative, of_ℕ}

  -- `_handle_anomaly`: without the governor's leave the finding is deferred, which leaves the event.
  unfoldable pub handle_anomaly :
      Moment → AnomalyResult F → Option Info → Exec (Daemon F) (Unit {0})
  unfolding record_local announce
  handle_anomaly now r neighbor = do
    event_id ← record_local now "anomaly" (event_severity r) (some r.port) (to_dict r)
    allowed ← gets (λ d. Governor.can_investigate d.manager.governor)
    if allowed
        then announce now "anomaly" r.port r.port (some (event_id ∷ []))
            (finding_from_anomaly fl r neighbor)
        else modify
            (with_manager (λ m. record m { governor = Governor.defer_investigation m.governor }))

  -- `optic.get("rx_power_avg_dbm", 0.0)`
  abbrev pub rx_power : Option F → F
  rx_power none = of_ℕ 0
  rx_power (some x) = x

  abbrev pub baseline_p50 : Moment → String → Store F → Option F
  baseline_p50 now port s = elim (Baselines.get now port "rx_power_avg_dbm" none s) [
    | none ↦ none
    | some b ↦ some b.p50
  ]

  -- The body of the `if` of `_check_optic_health`.
  unfoldable pub report_optic : Moment → Dict Info → String → F → Exec (Daemon F) (Unit {0})
  unfolding record_local announce
  report_optic now lldp port rx = do
    baseline ← gets (λ d. baseline_p50 now port d.manager.store)
    let fd = finding_from_optic_degradation fl port rx baseline (Dict.lookup port lldp) in
        do
          record_local now "optic_degradation" fd.severity (some port)
              (("rx_power_avg_dbm", number rx) ∷ [])
          announce now "optic_degradation" port port none fd

  -- One round of the loop of `_check_optic_health`: the power is under -7 dBm.
  unfoldable pub check_optic : Moment → Dict Info → String × Option F → Exec (Daemon F) (Unit {0})
  unfolding report_optic
  check_optic now lldp (port, optic) =
      if flt (rx_power optic) (negative (of_ℕ 7))
      then report_optic now lldp port (rx_power optic)
      else pure tt

  unfoldable pub check_optic_health :
      Moment → Dict (Option F) → Dict Info → Exec (Daemon F) (Unit {0})
  unfolding check_optic
  check_optic_health now optics lldp = for_each optics (check_optic now lldp)
