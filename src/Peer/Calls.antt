-- ===== src/Peer/Calls.antt =====
-- `PeerManager` of peer/__init__.py: its life cycle, its connections, and what it sends.
pub mod Clients
pub mod Severity
use sonic_watchtower.Prelude.{
  ℕ, ◌+◌, ◌-◌, String, Bool, true, false, not, ◌&&◌, ◌||◌, Option, none, some, List, [], ◌∷◌, ◌++◌,
  map, ltb, if◌then◌else◌, select, one_of,
}
use sonic_watchtower.Prelude.Clock.{Moment}
use sonic_watchtower.Prelude.Dict
use sonic_watchtower.Prelude.Dict.{Dict, get_or}
use sonic_watchtower.Prelude.Exec.{Exec, ok, raise, os_error, for_each, zoom}
use sonic_watchtower.Config.{WatchtowerConfig, TlsConfig}
use sonic_watchtower.Governor
use sonic_watchtower.Governor.{Governor, dormant, same_state}
use sonic_watchtower.Store.{Store, Neighbor}
use sonic_watchtower.Store.Findings
use sonic_watchtower.Store.Peers
use sonic_watchtower.Store.Peers.{Link}
use sonic_watchtower.Store.Topology
use sonic_watchtower.Peer.{
  Manager, Client, System, Status, Rpc, heartbeat, share_event, share_topology, share_finding,
}
use sonic_watchtower.Peer.Discovery.{PeerEndpoint, discover_peers}
use sonic_watchtower.Peer.Seen.{mark_seen}

abbrev pub with_store : {F : Type 0} → Manager F → Store F → Manager F
with_store m s = record m { store = s }

-- An operation of the journal, as one of the manager.
abbrev pub on_store : {F : Type 0} {A : Type 0} → Exec (Store F) A → Exec (Manager F) A
on_store = zoom (λ m. m.store) with_store

-- `all(Path(p).exists() for p in [tls.cert, tls.key, tls.ca])`
abbrev pub tls_available : System → TlsConfig → Bool
tls_available sys tls = sys.exists tls.cert && sys.exists tls.key && sys.exists tls.ca

-- The three `read_bytes` go through.
abbrev pub tls_readable : System → TlsConfig → Bool
tls_readable sys tls = sys.readable tls.ca && sys.readable tls.cert && sys.readable tls.key

-- Calls that go to every client, in the order of the dict.
abbrev pub to_all : Rpc → Dict Client → List (String × Rpc)
to_all rpc clients = map (λ c. (c.0, rpc)) clients

-- The loop of `refresh_peers` over the stale peers: only discovered ones stay.
unfoldable pub drop_stale : List String → Dict Client → Dict Client
drop_stale discovered clients = select (λ c. one_of c.0 discovered) clients

abbrev pub fragment_entry : Neighbor → Link
fragment_entry n = record {
  local_port = n.local_port;
  remote_host = n.neighbor_hostname;
  remote_port = n.neighbor_port;
  link_state = some "up";
}

module _ {F : Type 0} where
  -- `PeerManager.__init__`
  unfoldable pub init : ℕ → WatchtowerConfig F → Store F → Governor F → Manager F
  init now config store governor = record {
    config = config;
    store = store;
    governor = governor;
    clients = [];
    serving = false;
    enabled = config.peer.enabled;
    start_time = now;
    seen_finding_ids = [];
    last_heartbeat_time = 0;
    last_topology_share_time = 0;
    outbox = [];
  }

  -- `_start_server` and `start`: without certificates the protocol is switched off.
  unfoldable pub start : System → Exec (Manager F) (Unit {0})
  start sys m =
      if not m.enabled
      then (ok tt, m)
      else if not (tls_available sys m.config.peer.tls)
      then (ok tt, record m { enabled = false })
      else if tls_readable sys m.config.peer.tls
      then (ok tt, record m { serving = true })
      else (raise os_error, m)

  -- `start_insecure`, which tests use.
  unfoldable pub start_insecure : Manager F → Manager F
  start_insecure m = if m.enabled then record m { serving = true } else m

  unfoldable pub stop : Manager F → Manager F
  stop m = record m { serving = false; clients = [] }

  -- `_connect_peer`: an exception of the client's constructor is logged and swallowed.
  unfoldable pub connect_peer : System → PeerEndpoint → Manager F → Manager F
  connect_peer sys ep m =
      let secure = tls_available sys m.config.peer.tls in
      if secure && not (tls_readable sys m.config.peer.tls) then m else record m {
        clients =
            Dict.insert ep.hostname
              (record {
                hostname = ep.hostname;
                address = ep.address;
                port = ep.port;
                secure = secure;
              })
              m.clients;
      }

  -- The loop of `refresh_peers` over the endpoints.
  unfoldable pub connect_new : System → List PeerEndpoint → Manager F → Manager F
  unfolding connect_peer Dict.has_key
  connect_new sys [] m = m
  connect_new sys (ep ∷ eps) m =
      connect_new sys eps (if Dict.has_key ep.hostname m.clients then m else connect_peer sys ep m)

  -- `refresh_peers`
  unfoldable pub refresh_peers : System → Manager F → Manager F
  unfolding connect_new drop_stale discover_peers
  refresh_peers sys m =
      let eps = discover_peers sys.getaddrinfo m.config.peer.port m.store in
      let m' = connect_new sys eps m in
      if m.enabled
      then record m' { clients = drop_stale (map (λ ep. ep.hostname) eps) m'.clients }
      else m

  -- `_get_current_severity`
  unfoldable pub current_severity : Store F → String
  unfolding Findings.count_active Dict.lookup
  current_severity s =
      let counts = Findings.count_active s in
      if ltb 0 (get_or "critical" 0 counts)
      then "critical"
      else if ltb 0 (get_or "warning" 0 counts)
      then "warning"
      else if ltb 0 (get_or "info" 0 counts)
      then "info"
      else "ok"

  -- What this switch says of itself in heartbeats and in the answers to them.
  unfoldable pub own_status : Moment → Manager F → Status
  unfolding current_severity Findings.count_active Dict.lookup
  own_status now m = record {
    hostname = m.config.hostname;
    role = m.config.hierarchy.role;
    uptime_seconds = now.seconds - m.start_time;
    current_severity = current_severity m.store;
    active_finding_count = get_or "total" 0 (Findings.count_active m.store);
    governor_state = Governor.value m.governor.state;
  }

  -- One round of the loop of `send_heartbeats`; `reply` is the peer's answer, `none` where the RPC
  -- fails.
  unfoldable pub beat :
      Moment → (String → Option Status) → String × Client → Exec (Manager F) (Unit {0})
  unfolding own_status Peers.update_heartbeat
  beat now reply (host, client) m =
      let m' = record m { outbox = m.outbox ++ (host, heartbeat (own_status now m)) ∷ [] } in
      elim (reply host) [
        | none ↦ (ok tt, m')
        | some r ↦
            on_store
              (Peers.update_heartbeat now.seconds host r.current_severity r.active_finding_count
                r.governor_state r.role)
              m'
      ]

  -- `send_heartbeats`: `now - last < interval` as `now < last + interval`.
  unfoldable pub send_heartbeats : Moment → (String → Option Status) → Exec (Manager F) (Unit {0})
  unfolding beat for_each
  send_heartbeats now reply m =
      if not m.enabled || ltb now.seconds (m.last_heartbeat_time + m.config.peer.heartbeat_interval)
      then (ok tt, m)
      else for_each m.clients (beat now reply) (record m { last_heartbeat_time = now.seconds })

  -- `share_topology_fragment`
  unfoldable pub share_topology_fragment : Moment → Manager F → Manager F
  unfolding Topology.get_all
  share_topology_fragment now m =
      let rpc = share_topology (record {
        hostname = m.config.hostname;
        neighbors = map fragment_entry (Topology.get_all m.store);
      }) in
      if not m.enabled
        || ltb now.seconds (m.last_topology_share_time + m.config.peer.topology_share_interval)
      then m
      else record m {
        last_topology_share_time = now.seconds;
        outbox = m.outbox ++ to_all rpc m.clients;
      }

  -- The guard of `share_event` and `share_finding`.
  abbrev pub may_share : Manager F → Bool
  may_share m = m.enabled && not (same_state m.governor.state dormant)

  -- `PeerManager.share_event`
  unfoldable pub tell_event : Moment → String → String → String → Manager F → Manager F
  tell_event now event_type port summary m =
      let rpc = share_event (record {
        hostname = m.config.hostname;
        timestamp = now.iso_text;
        event_type = event_type;
        affected_port = port;
        summary = summary;
        metrics = [];
      }) in
      if may_share m then record m { outbox = m.outbox ++ to_all rpc m.clients } else m

  -- `PeerManager.share_finding`: only warnings and worse, with the full time to live.
  unfoldable pub tell_finding : Moment → String → String → String → String → Manager F → Manager F
  unfolding mark_seen
  tell_finding now finding_id severity summary scope m =
      let rpc = share_finding (record {
        hostname = m.config.hostname;
        origin_hostname = m.config.hostname;
        timestamp = now.iso_text;
        severity = severity;
        summary = summary;
        affected_scope = scope;
        ttl = m.config.peer.finding_ttl;
        finding_id = finding_id;
      }) in
      if may_share m && one_of severity ("warning" ∷ "critical" ∷ [])
      then record m {
        seen_finding_ids = mark_seen finding_id m.seen_finding_ids;
        outbox = m.outbox ++ to_all rpc m.clients;
      }
      else m
