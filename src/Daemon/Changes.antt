-- ===== src/Daemon/Changes.antt =====
-- `_check_bgp_changes` and `_check_link_changes` of main.py: states that differ from the last ones.
pub mod Tracked
pub mod Settled
pub mod Counting
use sonic_watchtower.Prelude.{
  ℕ, String, ◌≡◌, Bool, true, false, not, ◌&&◌, Option, none, some, List, [], ◌∷◌, ◌==◌,
  if◌then◌else◌,
}
use sonic_watchtower.Prelude.Clock.{Moment}
use sonic_watchtower.Prelude.Dict
use sonic_watchtower.Prelude.Dict.{Dict}
use sonic_watchtower.Prelude.Exec.{
  Exec, Result, ok, raise, zoom, pure, modify, gets, continue, ◌>>=◌, ◌>>◌, for_each,
}
use sonic_watchtower.Prelude.Float.{Float}
use sonic_watchtower.Store.{Store, Value, text, number}
use sonic_watchtower.Store.Events
use sonic_watchtower.Store.Findings
use sonic_watchtower.Store.Baselines
use sonic_watchtower.Governor
use sonic_watchtower.Analyzers.Compare.{AnomalyResult, to_dict}
use sonic_watchtower.Analyzers.Diff.{Info}
use sonic_watchtower.Report.{
  FindingData, finding_from_bgp_change, finding_from_link_change, finding_from_anomaly,
  finding_from_optic_degradation,
}
use sonic_watchtower.Output.Syslog
use sonic_watchtower.Peer.{Manager}
use sonic_watchtower.Peer.Calls.{tell_event, tell_finding}
use sonic_watchtower.Daemon.{Daemon, BgpSession, on_journal, with_manager}
use sonic_watchtower.Daemon.Checks.{report}

module _ {F : Type 0} where
  -- `raw_data={"neighbor": …, "old_state": …, "new_state": …}`
  abbrev pub bgp_data : String → String → String → Dict (Value F)
  bgp_data ip old new =
      ("neighbor", text ip) ∷ ("old_state", text old) ∷ ("new_state", text new) ∷ []

  -- The inner `if` of `_check_bgp_changes`: a state that was known and is another now.
  unfoldable pub report_bgp :
      Moment → String → Option String → BgpSession → Exec (Daemon F) (Unit {0})
  report_bgp now ip none session = pure tt
  report_bgp now ip (some old) session =
      let fd = finding_from_bgp_change ip old session.state session.description in
      if old == session.state
      then pure tt
      else report now "bgp_change" none "" (bgp_data ip old session.state) fd

  abbrev pub set_bgp : String → String → Daemon F → Daemon F
  set_bgp ip state d = record d { last_bgp_states = Dict.insert ip state d.last_bgp_states }

  -- One round of the loop of `_check_bgp_changes`.
  unfoldable pub check_bgp : Moment → String × BgpSession → Exec (Daemon F) (Unit {0})
  unfolding report_bgp
  check_bgp now (ip, session) = do
    old ← gets (λ d. Dict.lookup ip d.last_bgp_states)
    report_bgp now ip old session
    modify (set_bgp ip session.state)

  unfoldable pub check_bgp_changes : Moment → Dict BgpSession → Exec (Daemon F) (Unit {0})
  unfolding check_bgp
  check_bgp_changes now bgp = for_each bgp (check_bgp now)

  abbrev pub link_data : String → String → Dict (Value F)
  link_data old new = ("old_state", text old) ∷ ("new_state", text new) ∷ []

  -- The inner `if` of `_check_link_changes`.
  unfoldable pub report_link :
      Moment → Dict Info → String → Option String → String → Exec (Daemon F) (Unit {0})
  report_link now lldp port none oper = pure tt
  report_link now lldp port (some old) oper =
      let fd = finding_from_link_change port oper (Dict.lookup port lldp) in
      if old == oper
      then pure tt
      else report now "link_change" (some port) port (link_data old oper) fd

  abbrev pub set_oper : String → String → Daemon F → Daemon F
  set_oper port oper d = record d { last_oper_states = Dict.insert port oper d.last_oper_states }

  -- One round of the loop of `_check_link_changes`.
  unfoldable pub check_link : Moment → Dict Info → String × String → Exec (Daemon F) (Unit {0})
  unfolding report_link
  check_link now lldp (port, oper) = do
    old ← gets (λ d. Dict.lookup port d.last_oper_states)
    report_link now lldp port old oper
    modify (set_oper port oper)

  unfoldable pub check_link_changes : Moment → Dict String → Dict Info → Exec (Daemon F) (Unit {0})
  unfolding check_link
  check_link_changes now ifaces lldp = for_each ifaces (check_link now lldp)
