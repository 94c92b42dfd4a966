-- ===== src/Cli/Tables.antt =====
-- The commands `show topology`, `show peers`, `show baselines` and `show resources` of cli/main.py.
use sonic_watchtower.Prelude.{
  ℕ, String, ◌<>◌, Bool, true, false, not, ◌&&◌, Option, none, some, List, [], ◌∷◌, ◌++◌, ◌==◌,
  length, if◌then◌else◌,
}
use sonic_watchtower.Prelude.Float.{Float}
use sonic_watchtower.Prelude.Exec.{Result, ok, raise}
use sonic_watchtower.Prelude.Text.{decimal, pad_right, pad_left}
use sonic_watchtower.Config.{ResourceConfig}
use sonic_watchtower.Store.{Store, Neighbor, Peer, PeerLink, Baseline}
use sonic_watchtower.Store.Topology
use sonic_watchtower.Store.Peers.{get_fabric_topology, get_all_peers}
use sonic_watchtower.Store.Baselines.{get_all_for_port}
use sonic_watchtower.Governor
use sonic_watchtower.Governor.Reading.{Proc, update_from, get_status, Status}
use sonic_watchtower.Cli.{Shown, time_or, echo_each}

-- The columns of the two tables of neighbours.
abbrev pub local_columns : String → String → String → String → String
local_columns port neighbor remote seen =
    "  "
    <> pad_right 16 port
    <> " "
    <> pad_right 20 neighbor
    <> " "
    <> pad_right 16 remote
    <> " "
    <> seen

abbrev pub fabric_columns : String → String → String → String → String → String
fabric_columns switch port neighbor remote state =
    "  "
    <> pad_right 16 switch
    <> " "
    <> pad_right 16 port
    <> " "
    <> pad_right 16 neighbor
    <> " "
    <> pad_right 16 remote
    <> " "
    <> state

-- `if entries:`
unfoldable pub local_table : (ℕ → String) → List Neighbor → List String
unfolding echo_each decimal
local_table time_text [] = []
local_table time_text (e ∷ es) =
    ("Local topology (" <> decimal (length (e ∷ es)) <> " neighbors):\n")
    ∷ local_columns "Local Port" "Neighbor" "Remote Port" "Last Seen"
    ∷ local_columns "---------------" "-------------------" "---------------" "-------------------"
    ∷ echo_each
        (λ n.
          local_columns n.local_port n.neighbor_hostname n.neighbor_port (time_text n.last_seen)
          ∷ [])
        (e ∷ es)

-- `if fabric:`, with whether there are local entries.
unfoldable pub fabric_table : Bool → List PeerLink → List String
unfolding echo_each decimal
fabric_table has_entries [] = if has_entries then [] else "No topology data available." ∷ []
fabric_table has_entries (l ∷ ls) =
    ("\nPeer topology (" <> decimal (length (l ∷ ls)) <> " entries):\n")
    ∷ fabric_columns "Switch" "Port" "Neighbor" "Remote Port" "State"
    ∷ fabric_columns "---------------" "---------------" "---------------" "---------------" "-----"
    ∷ echo_each
        (λ n.
          fabric_columns n.peer_hostname n.local_port n.neighbor_hostname n.neighbor_port
            n.link_state
          ∷ [])
        (l ∷ ls)

abbrev pub is_empty : {A : Type 0} → List A → Bool
is_empty [] = true
is_empty (_ ∷ _) = false

-- `x or default`
abbrev pub text_or : String → String → String
text_or default s = if s == "" then default else s

abbrev pub peer_columns : String → String → String → String → String → String
peer_columns hostname severity findings governor heartbeat =
    "  "
    <> pad_right 20 hostname
    <> " "
    <> pad_right 10 severity
    <> " "
    <> pad_right 10 findings
    <> " "
    <> pad_right 10 governor
    <> " "
    <> heartbeat

unfoldable pub peer_row : (ℕ → String) → Peer → List String
unfolding decimal
peer_row time_text p =
    peer_columns p.peer_hostname
      (elim p.peer_severity [ none ↦ "unknown" | some s ↦ text_or "unknown" s ])
      (decimal p.active_finding_count) (text_or "unknown" p.governor_state)
      (time_or time_text "never" p.last_heartbeat)
    ∷ []

module _ {F : Type 0} where
  -- `topology`
  unfoldable pub topology : (ℕ → String) → Bool → Store F → Shown
  unfolding Topology.get_all get_fabric_topology local_table fabric_table
  topology time_text fabric s =
      let entries = Topology.get_all s in
      record {
        echoed =
            if is_empty entries && not fabric
            then "No topology data available." ∷ []
            else local_table time_text entries
              ++ (if fabric
                  then fabric_table (not (is_empty entries)) (get_fabric_topology s)
                  else []);
        closed = true;
      }

  -- `peers`
  unfoldable pub peers : (ℕ → String) → Store F → Shown
  unfolding get_all_peers echo_each peer_row decimal
  peers time_text s = elim (get_all_peers s) [
    | [] ↦ record { echoed = "No known peers." ∷ []; closed = true }
    | p ∷ ps ↦ record {
      echoed =
          ("Peer status (" <> decimal (length (p ∷ ps)) <> " peers):\n")
          ∷ peer_columns "Hostname" "Severity" "Findings" "Governor" "Last Heartbeat"
          ∷ peer_columns "-------------------" "---------" "---------" "---------"
              "-------------------"
          ∷ echo_each (peer_row time_text) (p ∷ ps);
      closed = true;
    }
  ]

module _ {F : Type 0} (fl : Float F) where
  open fl use {fixed}

  unfoldable pub baseline_row : Baseline F → String
  unfolding decimal
  baseline_row b =
      "    hour="
      <> pad_left 3 (decimal b.hour_of_week)
      <> "  p50="
      <> fixed 1 b.p50
      <> "  p95="
      <> fixed 1 b.p95
      <> "  p99="
      <> fixed 1 b.p99
      <> "  samples="
      <> decimal b.sample_count

  -- The loop of `baselines`: a metric's name stands before its first row.
  unfoldable pub baseline_rows : Option String → List (Baseline F) → List String
  unfolding baseline_row
  baseline_rows current [] = []
  baseline_rows current (b ∷ bs) =
      let rest = baseline_rows (some b.metric) bs in
      let same : Bool = elim current [ none ↦ false | some metric ↦ b.metric == metric ] in
      if same then baseline_row b ∷ rest else ("  " <> b.metric <> ":") ∷ baseline_row b ∷ rest

  -- `baselines`
  unfoldable pub baselines : String → Store F → Shown
  unfolding get_all_for_port baseline_rows
  baselines port s = elim (get_all_for_port port s) [
    | [] ↦ record { echoed = ("No baseline data for " <> port <> ".") ∷ []; closed = true }
    | b ∷ bs ↦ record {
      echoed = ("Baselines for " <> port <> ":\n") ∷ baseline_rows none (b ∷ bs);
      closed = true;
    }
  ]

  unfoldable pub status_lines : Status F → List String
  unfolding decimal
  status_lines status =
      "Resource Governor Status:\n"
      ∷ ("  State:                  " <> status.state)
      ∷ ("  Watchtower CPU:         " <> fixed 1 status.snapshot.watchtower_cpu_percent <> "%")
      ∷ ("  Watchtower Memory:      " <> fixed 1 status.snapshot.watchtower_memory_mb <> " MB")
      ∷ ("  System CPU:             " <> fixed 1 status.snapshot.system_cpu_percent <> "%")
      ∷ ("  System Memory:          " <> fixed 1 status.snapshot.system_memory_percent <> "%")
      ∷ ("  Poll Interval Mult:     " <> decimal status.poll_interval_multiplier <> "x")
      ∷ ("  Investigations Deferred: " <> decimal status.investigations_deferred)
      ∷ []

  -- `resources`, which has no journal; a division by zero in `update` ends it with nothing echoed.
  unfoldable pub resources : Proc → ResourceConfig F → Result (List String)
  unfolding update_from get_status status_lines
  resources proc config =
      let (r, governor) = update_from fl proc (Governor.init fl config) in
      elim r [ ok _ ↦ ok (status_lines (get_status governor)) | raise e ↦ raise e ]
