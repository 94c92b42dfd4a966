-- ===== src/Examples.antt =====
-- Concrete configurations and data, which the runs of the modules below share.
mod Gossip
mod Journal
mod Polling
mod Reports
mod Settings
mod Collecting
mod Peers
mod Analysis
use sonic_watchtower.Prelude.{
  ℕ, ◌+◌, ◌≤◌, ◌<◌, String, ◌≡◌, refl, ◌↔◌, true, false, not, ◌&&◌, Option, none, some, List, [],
  ◌∷◌, ◌++◌, arith, ◌==◌, IsSorted, eqb, ltb, leb, if◌then◌else◌, one_of, count, select, any,
  sort_by, All, length,
}
use sonic_watchtower.Prelude.Clock.{Moment}
use sonic_watchtower.Prelude.Dict.{Dict, lookup, get_or, has_key}
use sonic_watchtower.Prelude.Exec.{ok, raise, integrity_error}
use sonic_watchtower.Prelude.Float.{Float, exact, exact-IsOrdered}
use sonic_watchtower.Config.{WatchtowerConfig, default_config, default_anomaly, default_resources}
use sonic_watchtower.Store.{
  Store, Finding, Baseline, empty_store, restart, prune, is_event_severity,
}
use sonic_watchtower.Store.Events.{get_recent}
use sonic_watchtower.Store.Findings.{
  create, new_finding, generated_id, has_id, get, get_active, count_active, resolve, resolve_row,
  worst_first, insert_finding,
}
use sonic_watchtower.Store.Findings.Creating.{get-create, create-restart_collides}
use sonic_watchtower.Store.Findings.Lifecycle.{
  get_active_lem, count_active_lem, resolve_lem, is_active_of, is_active_id,
}
use sonic_watchtower.Store.Pruning.{prune_keeps}
use sonic_watchtower.Store.Baselines
use sonic_watchtower.Store.Baselines.Keys.{UniqueKeys}
use sonic_watchtower.Store.Baselines.Sampling.{get-update, sum_samples-update, sampled}
use sonic_watchtower.Governor.{Governor, ResourceSnapshot, compute_state}
use sonic_watchtower.Governor
use sonic_watchtower.Governor.Pressure.{
  Calmer, rank, compute_state_mono, permissions_by_rank, updates, updates_lem, last_state,
}
use sonic_watchtower.Governor.Pressure
use sonic_watchtower.Analyzers.Compare.{analyze, check_port_stats, error_metrics, deviation}
use sonic_watchtower.Analyzers.Compare.Ports.{
  verdicts, check_port_stats_lem, get-check_port_stats, analyze_flags,
}
use sonic_watchtower.Peer.{Manager, Client, FindingShare, Rpc, share_finding}
use sonic_watchtower.Peer.Calls
use sonic_watchtower.Peer.Calls.{tell_finding}
use sonic_watchtower.Peer.Handlers.{gossip}
use sonic_watchtower.Peer.Handlers.Findings.{
  serve_finding_branches, serve_finding_again, refused_then_acknowledged, calls_to, calls_to-gossip,
  after_accept,
}
use sonic_watchtower.Peer.Network.{Packet, Network, Reach, here, next, tell, packets, with_node}
use sonic_watchtower.Peer.Network.Hops.{Reach-hops_le}
use sonic_watchtower.Peer.Seen.{has_seen, max_seen_findings}
use sonic_watchtower.Peer.Seen.Bounds.{marks, notes, marks-last_entries, marks-IsSeenSet, IsSeenSet}
use sonic_watchtower.Peer.Seen.Refines.{last_entries}
use sonic_watchtower.Peer.Server.{serve_finding}

-- 10:00 on a Tuesday.
abbrev pub now : Moment
now = record {
  seconds = 1000000;
  date = "20260303";
  clock_text = "2026-03-03 10:00:00 UTC";
  iso_text = "2026-03-03T10:00:00Z";
  weekday = 1;
  hour = 10;
}

abbrev pub later : Moment
later = record now { seconds = 1000060; clock_text = "2026-03-03 10:01:00 UTC" }

abbrev pub config : WatchtowerConfig ℕ
config = default_config exact "leaf1"

abbrev pub journal : Store ℕ
journal = empty_store ℕ

abbrev pub governor : Governor ℕ
governor = Governor.init exact (default_resources exact)

-- Two findings, of which one is resolved.
abbrev pub link_down : Finding
link_down = new_finding 1000 "warning" "Ethernet0 down" none none "f-1"

abbrev pub bgp_down : Finding
bgp_down = resolve_row 2000 "f-0" (new_finding 900 "critical" "BGP down" none none "f-0")

abbrev pub busy : Store ℕ
busy = record journal { findings = bgp_down ∷ link_down ∷ [] }

abbrev pub spine : Client
spine = record { hostname = "spine1"; address = "10.0.0.1"; port = 5950; secure = true }

abbrev pub manager : Manager ℕ
manager = record (Calls.init 0 config journal governor) { clients = ("spine1", spine) ∷ [] }

abbrev pub share : FindingShare
share = record {
  hostname = "spine1";
  origin_hostname = "leaf2";
  timestamp = "2026-03-03T09:59:00Z";
  severity = "warning";
  summary = "Ethernet4 down";
  affected_scope = "Ethernet4";
  ttl = 2;
  finding_id = "f-9";
}
