-- ===== src/Collectors/InterfaceState.antt =====
-- collectors/interface_state.py.
use sonic_watchtower.Prelude.{String, ◌<>◌, Option, []}
use sonic_watchtower.Prelude.Dict
use sonic_watchtower.Prelude.Dict.{Dict, get_or}
use sonic_watchtower.Prelude.Exec.{Result, ok}
use sonic_watchtower.Prelude.Fallible.{◌>>=◌}
use sonic_watchtower.Prelude.Text.{after_first}
use sonic_watchtower.Collectors.{
  RedisReader, Readers, reader, appl_db, state_db, unless_empty, gather, keys_for,
}

pub record Interface : Type 0 where
  pub admin_status : String
  pub oper_status : String
  pub speed : String
  pub mtu : String
  pub alias : String
  pub description : String

unfoldable pub interface_of : Dict String → Dict String → Interface
unfolding Dict.lookup
interface_of appl_data state_data = record {
  admin_status = get_or "admin_status" "unknown" appl_data;
  oper_status = get_or "oper_status" (get_or "netdev_oper_status" "unknown" state_data) appl_data;
  speed = get_or "speed" "0" appl_data;
  mtu = get_or "mtu" "0" appl_data;
  alias = get_or "alias" "" appl_data;
  description = get_or "description" "" appl_data;
}

-- The body of the loop.
unfoldable pub read_interface : (appl state : RedisReader) → String → Result (Option Interface)
unfolding interface_of
read_interface appl state key = do
  appl_data ← appl.hgetall key
  unless_empty appl_data (do
    state_data ← state.hgetall ("PORT_TABLE|" <> after_first ":" key)
    ok (interface_of appl_data state_data))

-- `InterfaceStateCollector.collect`
unfoldable pub collect : Readers → Option String → Result (Dict Interface)
unfolding read_interface gather keys_for
collect readers port = do
  appl ← reader appl_db readers
  state ← reader state_db readers
  keys ← keys_for appl "PORT_TABLE:" port
  gather (after_first ":") (read_interface appl state) keys []
