-- ===== src/Analyzers/Diff.antt =====
-- analyzers/topology_diff.py: the changes of neighbours between two snapshots.
pub mod Replay
pub mod Counting
use sonic_watchtower.Prelude.{
  String, Bool, not, ◌||◌, Option, none, some, List, [], ◌∷◌, ◌++◌, ◌==◌, if◌then◌else◌,
}
use sonic_watchtower.Prelude.Dict
use sonic_watchtower.Prelude.Dict.{Dict}
use sonic_watchtower.Store.{Store, Neighbor}
use sonic_watchtower.Store.Topology

-- What the collector reports of a neighbour, of which the analyzer reads two fields.
pub record Info : Type 0 where
  pub neighbor_hostname : String
  pub neighbor_port : String

pub record TopologyChange : Type 0 where
  pub change_type : String
  pub local_port : String
  pub neighbor_hostname : String
  pub neighbor_port : String
  pub old_neighbor_hostname : Option String
  pub old_neighbor_port : Option String

-- The comprehension over the collector's data: entries with no host name are left out.
unfoldable pub named : Dict Info → Dict Info
named [] = []
named ((port, info) ∷ d) =
    let rest = named d in if info.neighbor_hostname == "" then rest else (port, info) ∷ rest

-- The comprehension over the stored rows: the last row of a port wins.
from_rows : Dict Info → List Neighbor → Dict Info
from_rows d [] = d
from_rows d (n ∷ ns) =
    from_rows
      (Dict.insert n.local_port
        (record { neighbor_hostname = n.neighbor_hostname; neighbor_port = n.neighbor_port }) d)
      ns

abbrev pub added : String → Info → TopologyChange
added port new = record {
  change_type = "neighbor_added";
  local_port = port;
  neighbor_hostname = new.neighbor_hostname;
  neighbor_port = new.neighbor_port;
  old_neighbor_hostname = none;
  old_neighbor_port = none;
}

abbrev pub changed : String → Info → Info → TopologyChange
changed port new old = record {
  change_type = "neighbor_changed";
  local_port = port;
  neighbor_hostname = new.neighbor_hostname;
  neighbor_port = new.neighbor_port;
  old_neighbor_hostname = some old.neighbor_hostname;
  old_neighbor_port = some old.neighbor_port;
}

abbrev pub removed : String → Info → TopologyChange
removed port old = record {
  change_type = "neighbor_removed";
  local_port = port;
  neighbor_hostname = old.neighbor_hostname;
  neighbor_port = old.neighbor_port;
  old_neighbor_hostname = none;
  old_neighbor_port = none;
}

abbrev pub differs : Info → Info → Bool
differs old new =
    not (old.neighbor_hostname == new.neighbor_hostname)
    || not (old.neighbor_port == new.neighbor_port)

-- One round of the loop over the current neighbours.
abbrev pub compare_port : Dict Info → String → Info → List TopologyChange
compare_port old port new = elim (Dict.lookup port old) [
  | none ↦ added port new ∷ []
  | some o ↦ if differs o new then changed port new o ∷ [] else []
]

unfoldable pub new_and_changed : Dict Info → Dict Info → List TopologyChange
unfolding Dict.lookup
new_and_changed old [] = []
new_and_changed old ((port, new) ∷ current) =
    compare_port old port new ++ new_and_changed old current

unfoldable pub gone : Dict Info → Dict Info → List TopologyChange
unfolding Dict.has_key
gone current [] = []
gone current ((port, o) ∷ old) =
    let rest = gone current old in if Dict.has_key port current then rest else removed port o ∷ rest

-- The two loops.
unfoldable pub changes : Dict Info → Dict Info → List TopologyChange
unfolding new_and_changed gone
changes old current = new_and_changed old current ++ gone current old

-- The snapshot of this run.
unfoldable pub current_of : {F : Type 0} → Option (Dict Info) → Store F → Dict Info
unfolding named from_rows Dict.insert Topology.get_all
current_of (some lldp) s = named lldp
current_of none s = from_rows [] (Topology.get_all s)

-- `TopologyDiffAnalyzer.analyze`, on the last snapshot: the changes, and the new snapshot.
unfoldable pub analyze :
    {F : Type 0}
    → Option (Dict Info)
    → Store F
    → Option (Dict Info)
    → List TopologyChange × Option (Dict Info)
unfolding changes current_of
analyze lldp s none = ([], some (current_of lldp s))
analyze lldp s (some old) = (changes old (current_of lldp s), some (current_of lldp s))
