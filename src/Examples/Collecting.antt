-- ===== src/Examples/Collecting.antt =====
-- The collectors over a small database.
use sonic_watchtower.Prelude.{
  ℕ, String, ◌<>◌, ◌≡◌, refl, none, some, List, [], ◌∷◌, ◌==◌, if◌then◌else◌, All,
}
use sonic_watchtower.Prelude.Dict.{Dict, lookup}
use sonic_watchtower.Prelude.Exec.{ok, raise, runtime_error}
use sonic_watchtower.Prelude.Float.{exact}
use sonic_watchtower.Collectors.{RedisReader, Readers, reader, appl_db, state_db}
use sonic_watchtower.Collectors.PortStats.{collect}
use sonic_watchtower.Collectors.InterfaceState
use sonic_watchtower.Collectors.Single.{only, collect-single}
use sonic_watchtower.Daemon.{Daemon, safe_collect}
use sonic_watchtower.Daemon.Changes.{check_link_changes}
use sonic_watchtower.Daemon.Collecting.{collect_all}
use sonic_watchtower.Daemon.Collecting.Links.{IsStatus, check_link_changes-collected}
use sonic_watchtower.Examples.{now}
use sonic_watchtower.Examples.Polling.{daemon, neighbors}

abbrev port_map : Dict String
port_map = ("Ethernet0", "oid:0x1") ∷ ("Ethernet4", "oid:0x2") ∷ []

abbrev hash_of : String → Dict String
hash_of key =
    if key == "COUNTERS_PORT_NAME_MAP"
    then port_map
    else if key == "COUNTERS:oid:0x1"
    then ("SAI_PORT_STAT_IF_IN_ERRORS", "12") ∷ []
    else if key == "PORT_TABLE:Ethernet0"
    then ("admin_status", "up") ∷ []
    else if key == "PORT_TABLE|Ethernet0"
    then ("netdev_oper_status", "down") ∷ []
    else []

abbrev database : RedisReader
database = record {
  hgetall = λ key. ok (hash_of key);
  keys = λ pattern. ok ((if pattern == "PORT_TABLE:*" then "PORT_TABLE:Ethernet0" ∷ [] else []));
}

abbrev readers : Readers
readers = (0, database) ∷ (2, database) ∷ (6, database) ∷ []

abbrev counters_of_first : Dict ℕ
counters_of_first =
    ("rx_bytes", 0)
    ∷ ("tx_bytes", 0)
    ∷ ("rx_errors", 12)
    ∷ ("tx_errors", 0)
    ∷ ("rx_drops", 0)
    ∷ ("tx_drops", 0)
    ∷ ("rx_packets", 0)
    ∷ ("tx_packets", 0)
    ∷ ("rx_crc_errors", 0)
    ∷ []

all_ports : collect readers none ≡ ok (("Ethernet0", counters_of_first) ∷ [])
unfolding collect reader sonic_watchtower.Prelude.Text.int_of
all_ports = refl

no_reader : collect [] none ≡ raise runtime_error
unfolding collect reader
no_reader = refl

oper_status_of_first : (collect_all exact readers).iface_state ≡ some (("Ethernet0", "down") ∷ [])
unfolding collect_all InterfaceState.collect reader sonic_watchtower.Prelude.Text.after_first
oper_status_of_first = refl

collect-single_example :
    collect readers (some "Ethernet0")
    ≡ ok (only "Ethernet0" (lookup "Ethernet0" (("Ethernet0", counters_of_first) ∷ [])))
unfolding reader sonic_watchtower.Prelude.Dict.has_key
collect-single_example =
    collect-single readers database "Ethernet0" port_map (("Ethernet0", counters_of_first) ∷ [])
      refl refl refl (refl, (refl, tt)) all_ports

abbrev interface_of_first : InterfaceState.Interface
interface_of_first = record {
  admin_status = "up";
  oper_status = "down";
  speed = "0";
  mtu = "0";
  alias = "";
  description = "";
}

collected_interfaces :
    InterfaceState.collect readers none ≡ ok (("Ethernet0", interface_of_first) ∷ [])
unfolding InterfaceState.collect reader sonic_watchtower.Prelude.Text.after_first
collected_interfaces = refl

check_link_changes-collected_example :
    (appl : RedisReader) × (state : RedisReader) × (status : String) × (reader appl_db readers
      ≡ ok appl)
    × (reader state_db readers ≡ ok state)
    × IsStatus appl state "Ethernet0" status
    × (lookup "Ethernet0"
          (check_link_changes now
            (safe_collect (collect_all exact readers).iface_state)
            neighbors
            daemon).1.last_oper_states
        ≡ some status)
unfolding collect_all check_link_changes sonic_watchtower.Prelude.Exec.for_each lookup
    InterfaceState.collect reader sonic_watchtower.Prelude.Text.after_first
    sonic_watchtower.Daemon.Checks.report sonic_watchtower.Store.Events.record_event
    sonic_watchtower.Report.finding_from_link_change sonic_watchtower.Daemon.Checks.create_finding
    sonic_watchtower.Store.Findings.create sonic_watchtower.Prelude.any
    sonic_watchtower.Peer.Calls.init
check_link_changes-collected_example =
    check_link_changes-collected exact readers now neighbors "Ethernet0"
      (("Ethernet0", interface_of_first) ∷ []) interface_of_first daemon collected_interfaces refl
      refl
