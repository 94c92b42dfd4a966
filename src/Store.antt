-- ===== src/Store.antt =====
-- store/journal.py and store/schema.sql: the tables of the journal, each a list of rows in the
-- order of insertion, and the process's counter of finding ids (store/findings.py). The methods of
-- the stores are in the modules below, each an operation on this state that may raise.
pub mod Counts
pub mod Pruning
pub mod Events
pub mod Findings
pub mod Baselines
pub mod Topology
pub mod Peers
pub mod Migrations
use sonic_watchtower.Prelude.{
  ℕ, ◌-◌, ◌*◌, String, Bool, true, false, not, ◌&&◌, ◌||◌, Option, none, some, List, [], ◌∷◌, ltb,
  select, one_of,
}
use sonic_watchtower.Prelude.Dict.{Dict}

-- A value of `raw_data`, as JSON keeps it.
pub data Value (F : Type 0) : Type 0 where
  text : String → Value F
  int : ℕ → Value F
  number : F → Value F
  flag : Bool → Value F
  table : Dict String → Value F

pub record Event (F : Type 0) : Type 0 where
  pub id : ℕ
  pub timestamp : ℕ
  pub source : String
  pub category : String
  pub severity : String
  pub port : Option String
  pub raw_data : Option (Dict (Value F))
  pub created_at : ℕ

pub record Finding : Type 0 where
  pub finding_id : String
  pub timestamp : ℕ
  pub severity : String
  pub summary : String
  pub detail : Option String
  pub related_events : Option (List ℕ)
  pub active : Bool
  pub resolved_at : Option ℕ
  pub created_at : ℕ

pub record Baseline (F : Type 0) : Type 0 where
  pub port : String
  pub metric : String
  pub hour_of_week : ℕ
  pub p50 : F
  pub p95 : F
  pub p99 : F
  pub sample_count : ℕ
  pub updated_at : ℕ

pub record Neighbor : Type 0 where
  pub local_port : String
  pub neighbor_hostname : String
  pub neighbor_port : String
  pub last_seen : ℕ
  pub first_seen : ℕ

pub record Peer : Type 0 where
  pub peer_hostname : String
  pub last_heartbeat : Option ℕ
  pub last_event_summary : Option String
  pub peer_severity : Option String
  pub role : String
  pub active_finding_count : ℕ
  pub governor_state : String
  pub updated_at : ℕ

pub record PeerLink : Type 0 where
  pub peer_hostname : String
  pub local_port : String
  pub neighbor_hostname : String
  pub neighbor_port : String
  pub link_state : String
  pub updated_at : ℕ

pub record Store (F : Type 0) : Type 0 where
  pub baselines : List (Baseline F)
  pub events : List (Event F)
  -- the last id that AUTOINCREMENT gave to an event
  pub events_seq : ℕ
  pub topology : List Neighbor
  pub findings : List Finding
  pub peer_state : List Peer
  pub peer_topology : List PeerLink
  -- what `next(_counter)` returns; a new process starts it at 1
  pub next_finding : ℕ

-- A new database in a new process.
abbrev pub empty_store : (F : Type 0) → Store F
empty_store F = record {
  baselines = [];
  events = [];
  events_seq = 0;
  topology = [];
  findings = [];
  peer_state = [];
  peer_topology = [];
  next_finding = 1;
}

-- A new process over the same database.
abbrev pub restart : {F : Type 0} → Store F → Store F
restart s = record s { next_finding = 1 }

-- CHECK constraints of the schema.
abbrev pub is_event_severity : String → Bool
is_event_severity s = one_of s ("info" ∷ "warning" ∷ "critical" ∷ [])

abbrev pub is_peer_severity : String → Bool
is_peer_severity s = one_of s ("ok" ∷ "info" ∷ "warning" ∷ "critical" ∷ [])

abbrev pub is_event_source : String → Bool
is_event_source s = one_of s ("local" ∷ "peer" ∷ "syslog" ∷ [])

-- `resolved_at < cutoff`; SQL's comparison with NULL does not hold.
abbrev pub resolved_before : ℕ → Finding → Bool
resolved_before cutoff f = elim f.resolved_at [ none ↦ false | some t ↦ ltb t cutoff ]

-- `Journal.prune`
unfoldable pub prune : {F : Type 0} → (now detail_days summary_days : ℕ) → Store F → Store F
prune now detail_days summary_days s =
    let detail_cutoff = now - detail_days * 86400 in
    let summary_cutoff = now - summary_days * 86400 in
    record s {
      events = select (λ e. not (ltb e.timestamp detail_cutoff)) s.events;
      findings = select (λ f. not (not f.active && resolved_before summary_cutoff f)) s.findings;
    }
