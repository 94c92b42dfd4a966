-- ===== src/Peer.antt =====
-- watchtower/peer: the state of `PeerManager` (peer/__init__.py) with what it shares with the
-- daemon (the journal and the governor), the messages of the peer protocol, and what is asked of
-- the system. The calls made to peers are kept in `outbox`, in order.
pub mod Seen
pub mod Discovery
pub mod Calls
pub mod Handlers
pub mod Server
pub mod ClientCalls
pub mod Network
use sonic_watchtower.Prelude.{ℕ, String, Bool, Option, List}
use sonic_watchtower.Prelude.Dict.{Dict}
use sonic_watchtower.Config.{WatchtowerConfig, TlsConfig}
use sonic_watchtower.Store.{Store}
use sonic_watchtower.Store.Peers.{Link}
use sonic_watchtower.Governor.{Governor}

-- The fields of a heartbeat and of the answer to it.
pub record Status : Type 0 where
  pub hostname : String
  pub role : String
  pub uptime_seconds : ℕ
  pub current_severity : String
  pub active_finding_count : ℕ
  pub governor_state : String

pub record EventShare : Type 0 where
  pub hostname : String
  pub timestamp : String
  pub event_type : String
  pub affected_port : String
  pub summary : String
  pub metrics : Dict String

pub record TopologyShare : Type 0 where
  pub hostname : String
  pub neighbors : List Link

pub record FindingShare : Type 0 where
  pub hostname : String
  pub origin_hostname : String
  pub timestamp : String
  pub severity : String
  pub summary : String
  pub affected_scope : String
  pub ttl : ℕ
  pub finding_id : String

pub data Rpc : Type 0 where
  heartbeat : Status → Rpc
  share_event : EventShare → Rpc
  share_topology : TopologyShare → Rpc
  share_finding : FindingShare → Rpc

-- `PeerClient`: where its channel leads, and whether it has credentials.
pub record Client : Type 0 where
  pub hostname : String
  pub address : String
  pub port : ℕ
  pub secure : Bool

-- What the program asks of the system: whether a file exists, whether it can be read, and the
-- addresses of a host name.
pub record System : Type 0 where
  pub exists : String → Bool
  pub readable : String → Bool
  -- the addresses of a host at a port; `none` is `gaierror`
  pub getaddrinfo : String → ℕ → Option (List String)

pub record Manager (F : Type 0) : Type 0 where
  pub config : WatchtowerConfig F
  pub store : Store F
  pub governor : Governor F
  pub clients : Dict Client
  pub serving : Bool
  pub enabled : Bool
  pub start_time : ℕ
  -- the oldest first
  pub seen_finding_ids : List String
  pub last_heartbeat_time : ℕ
  pub last_topology_share_time : ℕ
  pub outbox : List (String × Rpc)
