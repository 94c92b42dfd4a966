-- ===== src/Examples/Peers.antt =====
-- Heartbeats, topology fragments, clients and correlations, at concrete peers.
use sonic_watchtower.Prelude.{
  ℕ, String, ◌≡◌, refl, true, false, not, ◌==◌, Option, none, some, List, [], ◌∷◌, ◌++◌, map,
  select,
}
use sonic_watchtower.Prelude.Dict.{has_key, NodupKeys}
use sonic_watchtower.Prelude.Exec.{ok}
use sonic_watchtower.Store.{Store, Event, Neighbor, Peer, PeerLink, Value, text, is_peer_severity}
use sonic_watchtower.Store.Peers.{Link, link_of, get_peer, update_peer_topology}
use sonic_watchtower.Store.Peers.Fragments.{with_links, update_peer_topology-replaces}
use sonic_watchtower.Peer.{Manager, Status, System}
use sonic_watchtower.Peer.Calls.{refresh_peers}
use sonic_watchtower.Peer.Calls.Clients.{refresh_peers-clients}
use sonic_watchtower.Peer.Handlers.Heartbeats.{heard, serve_heartbeat_lem}
use sonic_watchtower.Peer.Server.{serve_heartbeat}
use sonic_watchtower.Examples.{now, journal, manager}

abbrev beat : Status
beat = record {
  hostname = "spine1";
  role = "spine";
  uptime_seconds = 500;
  current_severity = "ok";
  active_finding_count = 0;
  governor_state = "full";
}

serve_heartbeat_lem_example :
    ((serve_heartbeat now beat manager).0.0 ≡ true)
    × (get_peer "spine1" (serve_heartbeat now beat manager).1.store
        ≡ some (heard 1000000 beat none))
unfolding get_peer sonic_watchtower.Peer.Calls.init
serve_heartbeat_lem_example = serve_heartbeat_lem now beat manager "spine1"

abbrev fragment : List Link
fragment =
    record {
      local_port = "Ethernet0";
      remote_host = "leaf1";
      remote_port = "Ethernet4";
      link_state = none;
    }
    ∷ record {
      local_port = "Ethernet8";
      remote_host = "leaf2";
      remote_port = "Ethernet4";
      link_state = some "up";
    }
    ∷ []

update_peer_topology-replaces_example :
    update_peer_topology 1000000 "spine1" fragment journal
    ≡ (ok tt, with_links (map (link_of 1000000 "spine1") fragment) journal)
unfolding select
update_peer_topology-replaces_example =
    update_peer_topology-replaces 1000000 "spine1" fragment journal ((refl, tt), (tt, tt))

abbrev system : System
system = record {
  exists = λ p. true;
  readable = λ p. true;
  getaddrinfo = λ h port. some ("10.0.0.2" ∷ []);
}

abbrev spine_row : Neighbor
spine_row = record {
  local_port = "Ethernet0";
  neighbor_hostname = "spine2";
  neighbor_port = "Ethernet4";
  last_seen = 1000000;
  first_seen = 900000;
}

abbrev cabled : Manager ℕ
cabled = record manager { store = record journal { topology = spine_row ∷ [] } }

refresh_peers-clients_example :
    (has_key "spine2" (refresh_peers system cabled).clients ≡ true)
    × NodupKeys (refresh_peers system cabled).clients
unfolding sonic_watchtower.Peer.Calls.init has_key sonic_watchtower.Peer.Discovery.discover_peers
    sonic_watchtower.Prelude.sort_by sonic_watchtower.Prelude.insert_by
refresh_peers-clients_example = refresh_peers-clients system cabled "spine2" refl (refl, tt)

abbrev local_event : Event ℕ
local_event = record {
  id = 1;
  timestamp = 999990;
  source = "local";
  category = "link_change";
  severity = "warning";
  port = some "Ethernet0";
  raw_data = none;
  created_at = 999990;
}

abbrev peer_event : Event ℕ
peer_event = record local_event {
  id = 2;
  source = "peer";
  port = none;
  raw_data = some (("peer_hostname", text "spine2") ∷ []);
}

abbrev eventful : Store ℕ
eventful = record journal { topology = spine_row ∷ []; events = local_event ∷ peer_event ∷ [] }
