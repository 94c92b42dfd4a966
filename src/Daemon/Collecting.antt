-- ===== src/Daemon/Collecting.antt =====
-- Step 1 of the poll cycle (main.py): the five collectors over the readers of Redis.
pub mod Links
use sonic_watchtower.Prelude.{Option, none, some, [], ◌∷◌}
use sonic_watchtower.Prelude.Dict.{Dict}
use sonic_watchtower.Prelude.Exec.{Result, ok, raise}
use sonic_watchtower.Prelude.Float.{Float}
use sonic_watchtower.Collectors.{Readers}
use sonic_watchtower.Collectors.PortStats
use sonic_watchtower.Collectors.BgpState
use sonic_watchtower.Collectors.LldpTopology
use sonic_watchtower.Collectors.InterfaceState
use sonic_watchtower.Collectors.OpticHealth
use sonic_watchtower.Analyzers.Diff.{Info}
use sonic_watchtower.Daemon.{Collected, BgpSession}

-- The fields that the daemon reads of each entry.
unfoldable pub map_values : {A B : Type 0} → (A → B) → Dict A → Dict B
map_values f [] = []
map_values f ((k, a) ∷ d) = (k, f a) ∷ map_values f d

-- What a collector gave, or that it raised.
abbrev pub outcome : {A B : Type 0} → (A → B) → Result (Dict A) → Option (Dict B)
outcome f (ok d) = some (map_values f d)
outcome f (raise e) = none

abbrev pub info_of : LldpTopology.Entry → Info
info_of e = record { neighbor_hostname = e.neighbor_hostname; neighbor_port = e.neighbor_port }

abbrev pub bgp_of : BgpState.Session → BgpSession
bgp_of s = record { state = s.state; description = s.description }

-- The calls of the five collectors, for all ports and neighbours.
unfoldable pub collect_all : {F : Type 0} → Float F → Readers → Collected F
unfolding map_values
collect_all fl readers = record {
  port_stats = outcome (λ stats. stats) (PortStats.collect readers none);
  iface_state = outcome (λ i. i.oper_status) (InterfaceState.collect readers none);
  lldp = outcome info_of (LldpTopology.collect readers none);
  bgp = outcome bgp_of (BgpState.collect readers none);
  optic = outcome (λ o. some o.rx_power_avg_dbm) (OpticHealth.collect fl readers none);
}
