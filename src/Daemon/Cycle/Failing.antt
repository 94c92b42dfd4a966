-- ===== src/Daemon/Cycle/Failing.antt =====
-- What the topology diff of a cycle (main.py, analyzers/topology_diff.py) makes of a collector that
-- raises.
use sonic_watchtower.Prelude.{List, map}
use sonic_watchtower.Prelude.Dict.{Dict}
use sonic_watchtower.Prelude.Exec.{Exec}
use sonic_watchtower.Prelude.Float.{Float}
use sonic_watchtower.Governor
use sonic_watchtower.Analyzers.Diff.{Info, TopologyChange, removed}
use sonic_watchtower.Daemon.{Daemon}

abbrev pub all_removed : Dict Info → List TopologyChange
all_removed old = map (λ p. removed p.0 p.1) old
