-- ===== src/Collectors/LldpTopology.antt =====
-- collectors/lldp_topology.py.
use sonic_watchtower.Prelude.{String, Option, []}
use sonic_watchtower.Prelude.Dict
use sonic_watchtower.Prelude.Dict.{Dict, get_or}
use sonic_watchtower.Prelude.Exec.{Result, ok}
use sonic_watchtower.Prelude.Fallible.{◌>>=◌}
use sonic_watchtower.Prelude.Text.{after_first}
use sonic_watchtower.Collectors.{
  RedisReader, Readers, reader, appl_db, unless_empty, gather, keys_for,
}

pub record Entry : Type 0 where
  pub neighbor_hostname : String
  pub neighbor_port : String
  pub neighbor_description : String
  pub chassis_id : String
  pub system_description : String

unfoldable pub entry_of : Dict String → Entry
unfolding Dict.lookup
entry_of hash = record {
  neighbor_hostname = get_or "lldp_rem_sys_name" "" hash;
  neighbor_port = get_or "lldp_rem_port_id" "" hash;
  neighbor_description = get_or "lldp_rem_port_desc" "" hash;
  chassis_id = get_or "lldp_rem_chassis_id" "" hash;
  system_description = get_or "lldp_rem_sys_desc" "" hash;
}

-- The body of the loop.
unfoldable pub read_entry : RedisReader → String → Result (Option Entry)
unfolding entry_of
read_entry r key = do hash ← r.hgetall key; unless_empty hash (ok (entry_of hash))

-- `LLDPTopologyCollector.collect`
unfoldable pub collect : Readers → Option String → Result (Dict Entry)
unfolding read_entry gather keys_for
collect readers port = do
  r ← reader appl_db readers
  keys ← keys_for r "LLDP_ENTRY_TABLE:" port
  gather (after_first ":") (read_entry r) keys []
