-- ===== src/Collectors/BgpState.antt =====
-- collectors/bgp_state.py.
use sonic_watchtower.Prelude.{ℕ, String, Option, []}
use sonic_watchtower.Prelude.Dict
use sonic_watchtower.Prelude.Dict.{Dict, get_or}
use sonic_watchtower.Prelude.Exec.{Result, ok}
use sonic_watchtower.Prelude.Fallible.{◌>>=◌}
use sonic_watchtower.Prelude.Text.{after_first}
use sonic_watchtower.Collectors.{
  RedisReader, Readers, reader, appl_db, int_field, unless_empty, gather, keys_for,
}

pub record Session : Type 0 where
  pub state : String
  pub peer_as : String
  pub local_as : String
  pub description : String
  pub hold_time : ℕ
  pub keepalive : ℕ
  pub prefixes_received : ℕ
  pub uptime_seconds : ℕ

unfoldable pub session_of : Dict String → Result Session
unfolding Dict.lookup
session_of hash = do
  hold_time ← int_field "holdTime" hash
  keepalive ← int_field "keepAlive" hash
  prefixes ← int_field "pfxRcvd" hash
  uptime ← int_field "upTime" hash
  ok (record {
    state = get_or "state" "Unknown" hash;
    peer_as = get_or "peerAs" "" hash;
    local_as = get_or "localAs" "" hash;
    description = get_or "peerDesc" "" hash;
    hold_time = hold_time;
    keepalive = keepalive;
    prefixes_received = prefixes;
    uptime_seconds = uptime;
  })

-- The body of the loop.
unfoldable pub read_session : RedisReader → String → Result (Option Session)
unfolding session_of
read_session r key = do hash ← r.hgetall key; unless_empty hash (session_of hash)

-- `BGPStateCollector.collect`
unfoldable pub collect : Readers → Option String → Result (Dict Session)
unfolding read_session gather keys_for
collect readers neighbor = do
  r ← reader appl_db readers
  keys ← keys_for r "BGP_NEIGHBOR_TABLE:" neighbor
  gather (after_first ":") (read_session r) keys []
