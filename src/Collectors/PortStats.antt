-- ===== src/Collectors/PortStats.antt =====
-- collectors/port_stats.py.
use sonic_watchtower.Prelude.{ℕ, String, ◌<>◌, Option, none, some, [], ◌∷◌, ◌==◌, if◌then◌else◌}
use sonic_watchtower.Prelude.Dict
use sonic_watchtower.Prelude.Dict.{Dict}
use sonic_watchtower.Prelude.Exec.{Result, ok}
use sonic_watchtower.Prelude.Fallible.{◌>>=◌}
use sonic_watchtower.Collectors.{
  RedisReader, Readers, reader, counters_db, int_field, unless_empty, gather,
}

-- `_COUNTER_MAP`
abbrev pub counter_map : Dict String
counter_map =
    ("SAI_PORT_STAT_IF_IN_OCTETS", "rx_bytes")
    ∷ ("SAI_PORT_STAT_IF_OUT_OCTETS", "tx_bytes")
    ∷ ("SAI_PORT_STAT_IF_IN_ERRORS", "rx_errors")
    ∷ ("SAI_PORT_STAT_IF_OUT_ERRORS", "tx_errors")
    ∷ ("SAI_PORT_STAT_IF_IN_DISCARDS", "rx_drops")
    ∷ ("SAI_PORT_STAT_IF_OUT_DISCARDS", "tx_drops")
    ∷ ("SAI_PORT_STAT_IF_IN_UCAST_PKTS", "rx_packets")
    ∷ ("SAI_PORT_STAT_IF_OUT_UCAST_PKTS", "tx_packets")
    ∷ ("SAI_PORT_STAT_ETHER_STATS_CRC_ALIGN_ERRORS", "rx_crc_errors")
    ∷ []

-- The inner loop, over the counters of one port.
unfoldable pub read_counters : Dict String → Dict String → Dict ℕ → Result (Dict ℕ)
unfolding Dict.insert
read_counters counters [] stats = ok stats
read_counters counters ((sai_name, friendly_name) ∷ table) stats = do
  value ← int_field sai_name counters
  read_counters counters table (Dict.insert friendly_name value stats)

-- The body of the outer loop: nothing for a port without counters.
unfoldable pub port_counters : RedisReader → String × String → Result (Option (Dict ℕ))
unfolding read_counters
port_counters r (port_name, oid) = do
  counters ← r.hgetall ("COUNTERS:" <> oid)
  unless_empty counters (read_counters counters counter_map [])

-- `port_map`, or the one entry of it that is asked for.
unfoldable pub wanted : Option String → Dict String → Dict String
unfolding Dict.lookup
wanted none port_map = port_map
wanted (some port) port_map =
    if port == ""
    then port_map
    else elim (Dict.lookup port port_map) [ none ↦ [] | some oid ↦ (port, oid) ∷ [] ]

-- `PortStatsCollector.collect`
unfoldable pub collect : Readers → Option String → Result (Dict (Dict ℕ))
unfolding port_counters wanted gather
collect readers port = do
  r ← reader counters_db readers
  port_map ← r.hgetall "COUNTERS_PORT_NAME_MAP"
  gather (λ entry. entry.0) (port_counters r) (wanted port port_map) []
