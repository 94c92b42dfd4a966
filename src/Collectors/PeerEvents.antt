-- ===== src/Collectors/PeerEvents.antt =====
-- collectors/peer_events.py.
use sonic_watchtower.Prelude.{String, Option, none, some, List, [], ◌∷◌, ◌==◌, if◌then◌else◌}
use sonic_watchtower.Prelude.Dict
use sonic_watchtower.Prelude.Dict.{Dict}
use sonic_watchtower.Store.{Store, Peer}
use sonic_watchtower.Store.Peers.{get_peer, get_all_peers}

-- `{p["peer_hostname"]: p for p in peers}`
unfoldable pub by_hostname : List Peer → Dict Peer → Dict Peer
unfolding Dict.insert
by_hostname [] result = result
by_hostname (p ∷ ps) result = by_hostname ps (Dict.insert p.peer_hostname p result)

abbrev all_peers : {F : Type 0} → Store F → Dict Peer
all_peers s = by_hostname (get_all_peers s) []

-- `PeerEventsCollector.collect`
unfoldable pub collect : {F : Type 0} → Option String → Store F → Dict Peer
unfolding by_hostname get_peer get_all_peers
collect none s = all_peers s
collect (some hostname) s =
    if hostname == ""
    then all_peers s
    else elim (get_peer hostname s) [ none ↦ [] | some peer ↦ (hostname, peer) ∷ [] ]
