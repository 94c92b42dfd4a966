-- ===== src/Report.antt =====
-- llm/fallback.py: findings from templates. Numbers are printed by the float interface.
use sonic_watchtower.Prelude.{String, ◌<>◌, Option, none, some, ◌==◌, if◌then◌else◌}
use sonic_watchtower.Prelude.Text.{capitalize, underscores_to_spaces}
use sonic_watchtower.Prelude.Dict
use sonic_watchtower.Prelude.Float.{Float}
use sonic_watchtower.Store.{Event, Value, text}
use sonic_watchtower.Analyzers.Compare.{AnomalyResult}
use sonic_watchtower.Analyzers.Diff.{Info}

pub record FindingData : Type 0 where
  pub severity : String
  pub summary : String
  pub detail : String

-- `f" (link to {hostname})"`, if there is a neighbour.
abbrev link_to : Option Info → String
link_to none = ""
link_to (some n) = " (link to " <> n.neighbor_hostname <> ")"

abbrev link_to_port : Option Info → String
link_to_port none = ""
link_to_port (some n) = " (link to " <> n.neighbor_hostname <> ":" <> n.neighbor_port <> ")"

-- A finding whose detail is its summary.
abbrev brief : String → String → FindingData
brief severity summary = record { severity = severity; summary = summary; detail = summary }

-- `finding_from_bgp_change`
unfoldable pub finding_from_bgp_change : String → String → String → String → FindingData
finding_from_bgp_change neighbor_ip old_state new_state description =
    let who =
      "BGP session to "
      <> neighbor_ip
      <> (if description == "" then "" else " (" <> description <> ")") in
    if new_state == "Established"
    then brief "info" (who <> " came up.")
    else if old_state == "Established"
    then brief "warning" (who <> " went down (now: " <> new_state <> ").")
    else brief "info" (who <> " changed: " <> old_state <> " -> " <> new_state <> ".")

-- `finding_from_link_change`
unfoldable pub finding_from_link_change : String → String → Option Info → FindingData
finding_from_link_change port new_state neighbor =
    if new_state == "down"
    then brief "warning" ("Link down on " <> port <> link_to neighbor <> ".")
    else brief "info" ("Link up on " <> port <> link_to neighbor <> ".")

-- A text of an optional field as an f-string prints it.
abbrev shown : Option String → String
shown none = "None"
shown (some s) = s

-- `finding_from_topology_change`
unfoldable pub finding_from_topology_change :
    String → String → String → String → Option String → Option String → FindingData
finding_from_topology_change change_type local_port host port old_host old_port =
    let new = host <> ":" <> port in
    if change_type == "neighbor_added"
    then brief "info" ("New neighbor on " <> local_port <> ": " <> new <> ".")
    else if change_type == "neighbor_removed"
    then brief "warning" ("Neighbor lost on " <> local_port <> ": " <> new <> ".")
    else if change_type == "neighbor_changed"
    then brief "warning" (
        "Neighbor changed on "
        <> local_port
        <> ": "
        <> shown old_host
        <> ":"
        <> shown old_port
        <> " -> "
        <> new
        <> ".")
    else brief "info" ("Topology change on " <> local_port <> ": " <> new <> ".")

-- `finding_from_peer_down`
unfoldable pub finding_from_peer_down : String → String → FindingData
finding_from_peer_down peer last_seen = record {
  severity = "warning";
  summary = "Peer " <> peer <> " unreachable (last seen: " <> last_seen <> ").";
  detail =
      "Watchtower on " <> peer <> " has not sent a heartbeat since " <> last_seen
      <> ". The peer may be down, restarting, or experiencing network issues.";
}

module _ {F : Type 0} where
  -- `peer_raw.get("summary", "event")`, where `peer_raw` is a dict.
  abbrev summary_of : Option (Value F) → String
  summary_of (some (text t)) = t
  summary_of _ = "event"

  abbrev peer_summary : Event F → String
  peer_summary e = elim e.raw_data [
    | none ↦ "event"
    | some raw ↦ summary_of (Dict.lookup "summary" raw)
  ]

  -- `finding_from_peer_correlation`
  unfoldable pub finding_from_peer_correlation :
      Event F → Event F → String → String → String → FindingData
  unfolding Dict.lookup
  finding_from_peer_correlation local_event peer_event peer local_port peer_port = record {
    severity = if local_event.severity == "info" then "warning" else local_event.severity;
    summary =
        "Correlated event on "
        <> local_port
        <> ": local "
        <> local_event.category
        <> " matches peer "
        <> peer
        <> " ("
        <> peer_summary peer_event
        <> ") on "
        <> peer_port
        <> ".";
    detail =
        "Local event (" <> local_event.category <> ") on " <> local_port
        <> " occurred around the same time as a peer event from " <> peer <> " on the same link ("
        <> peer_port <> "). This suggests the issue affects both ends of the link.";
  }

  -- `_severity_for_anomaly`
  unfoldable pub severity_for_anomaly : AnomalyResult F → String
  severity_for_anomaly r =
      if r.is_immediate then "critical" else if r.is_anomaly then "warning" else "info"

module _ {F : Type 0} (fl : Float F) where
  open fl use {flt, fixed, of_ℕ, negative}

  -- `finding_from_anomaly`
  unfoldable pub finding_from_anomaly : AnomalyResult F → Option Info → FindingData
  unfolding severity_for_anomaly
  finding_from_anomaly r neighbor =
      let label = underscores_to_spaces r.metric in
      record {
        severity = severity_for_anomaly r;
        summary =
            capitalize label
            <> " anomaly on "
            <> r.port
            <> link_to_port neighbor
            <> ". Current: "
            <> fixed 0 r.current_value
            <> ", baseline p95: "
            <> fixed 1 r.baseline_p95
            <> " ("
            <> fixed 1 r.deviation_factor
            <> "x deviation).";
        detail =
            "Port "
            <> r.port
            <> " "
            <> label
            <> " is at "
            <> fixed 0 r.current_value
            <> ", which is "
            <> fixed 1 r.deviation_factor
            <> "x the p95 baseline of "
            <> fixed 1 r.baseline_p95
            <> ". Baseline p50: "
            <> fixed 1 r.baseline_p50
            <> ", p99: "
            <> fixed 1 r.baseline_p99
            <> ". "
            <> (if r.warmed_up then "Warmed up." else "Still warming up -- confidence is lower.");
      }

  abbrev baseline_text : Option F → String
  baseline_text none = ""
  baseline_text (some b) = ", baseline: " <> fixed 1 b <> " dBm"

  -- `finding_from_optic_degradation`
  unfoldable pub finding_from_optic_degradation : String → F → Option F → Option Info → FindingData
  finding_from_optic_degradation port rx baseline neighbor =
      brief (if flt rx (negative (of_ℕ 10)) then "critical" else "warning") (
        "Optic degradation on "
        <> port
        <> link_to neighbor
        <> ". RX power: "
        <> fixed 1 rx
        <> " dBm"
        <> baseline_text baseline
        <> ".")
