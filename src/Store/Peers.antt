-- ===== src/Store/Peers.antt =====
-- peer/state.py: the table of known peers and of the topology fragments that they sent.
pub mod Fragments
use sonic_watchtower.Prelude.{
  ℕ, ◌-◌, String, Bool, false, not, ◌&&◌, Option, none, some, List, [], ◌∷◌, ◌++◌, map, ◌==◌, ltb,
  if◌then◌else◌, select, sort_by, any,
}
use sonic_watchtower.Prelude.Text.{text_le}
use sonic_watchtower.Prelude.Exec.{Exec, ok, raise, integrity_error, for_each}
use sonic_watchtower.Store.{Store, Peer, PeerLink, is_peer_severity}

-- An entry of a topology fragment.
pub record Link : Type 0 where
  pub local_port : String
  pub remote_host : String
  pub remote_port : String
  pub link_state : Option String

-- `INSERT … ON CONFLICT(peer_hostname) DO UPDATE`: the last event summary of a known peer stays.
unfoldable pub upsert : ℕ → String → String → ℕ → String → String → List Peer → List Peer
upsert now host severity findings governor role [] =
    record {
      peer_hostname = host;
      last_heartbeat = some now;
      last_event_summary = none;
      peer_severity = some severity;
      role = role;
      active_finding_count = findings;
      governor_state = governor;
      updated_at = now;
    }
    ∷ []
upsert now host severity findings governor role (p ∷ ps) =
    if p.peer_hostname == host
    then record p {
      last_heartbeat = some now;
      peer_severity = some severity;
      role = role;
      active_finding_count = findings;
      governor_state = governor;
      updated_at = now;
    }
      ∷ ps
    else p ∷ upsert now host severity findings governor role ps

unfoldable pub find_peer : String → List Peer → Option Peer
find_peer host [] = none
find_peer host (p ∷ ps) = if p.peer_hostname == host then some p else find_peer host ps

-- The UPDATE of `update_event_summary`, on one row.
abbrev pub summary_row : ℕ → String → String → Peer → Peer
summary_row now host summary p =
    if p.peer_hostname == host
    then record p { last_event_summary = some summary; updated_at = now }
    else p

abbrev by_host : Peer → Peer → Bool
by_host a b = text_le a.peer_hostname b.peer_hostname

abbrev by_local_port : PeerLink → PeerLink → Bool
by_local_port a b = text_le a.local_port b.local_port

abbrev by_host_and_port : PeerLink → PeerLink → Bool
by_host_and_port a b =
    if a.peer_hostname == b.peer_hostname
    then by_local_port a b
    else text_le a.peer_hostname b.peer_hostname

-- `n.get("link_state", "up")`
abbrev pub link_of : ℕ → String → Link → PeerLink
link_of now host n = record {
  peer_hostname = host;
  local_port = n.local_port;
  neighbor_hostname = n.remote_host;
  neighbor_port = n.remote_port;
  link_state = elim n.link_state [ none ↦ "up" | some l ↦ l ];
  updated_at = now;
}

-- The primary key of `peer_topology`.
abbrev pub same_link : PeerLink → PeerLink → Bool
same_link a b =
    a.peer_hostname == b.peer_hostname
    && a.local_port == b.local_port
    && a.neighbor_hostname == b.neighbor_hostname
    && a.neighbor_port == b.neighbor_port

module _ {F : Type 0} where
  -- `PeerStateStore.update_heartbeat`
  unfoldable pub update_heartbeat :
      ℕ → String → String → ℕ → String → String → Exec (Store F) (Unit {0})
  update_heartbeat now host severity findings governor role s =
      if is_peer_severity severity
      then (
        ok tt,
        record s { peer_state = upsert now host severity findings governor role s.peer_state },
      )
      else (raise integrity_error, s)

  -- `PeerStateStore.update_event_summary`: nothing happens for a peer that is not known.
  unfoldable pub update_event_summary : ℕ → String → String → Store F → Store F
  update_event_summary now host summary s = record s {
    peer_state = map (summary_row now host summary) s.peer_state;
  }

  unfoldable pub get_peer : String → Store F → Option Peer
  unfolding find_peer
  get_peer host s = find_peer host s.peer_state

  unfoldable pub get_all_peers : Store F → List Peer
  get_all_peers s = sort_by by_host s.peer_state

  -- `WHERE last_heartbeat < ?`
  unfoldable pub get_stale_peers : ℕ → ℕ → Store F → List Peer
  get_stale_peers now max_age s =
      select (λ p. elim p.last_heartbeat [ none ↦ false | some t ↦ ltb t (now - max_age) ])
        s.peer_state

  unfoldable pub remove_peer : String → Store F → Store F
  remove_peer host s = record s {
    peer_state = select (λ p. not (p.peer_hostname == host)) s.peer_state;
  }

  -- One INSERT of the loop of `update_peer_topology`.
  unfoldable pub insert_link : ℕ → String → Link → Exec (Store F) (Unit {0})
  insert_link now host n s =
      let row = link_of now host n in
      if any (same_link row) s.peer_topology
      then (raise integrity_error, s)
      else (ok tt, record s { peer_topology = s.peer_topology ++ row ∷ [] })

  abbrev pub forget_links : String → Store F → Store F
  forget_links host s = record s {
    peer_topology = select (λ l. not (l.peer_hostname == host)) s.peer_topology;
  }

  -- `PeerStateStore.update_peer_topology`. A refused INSERT leaves the DELETE and the earlier rows
  -- in the open transaction of the connection.
  unfoldable pub update_peer_topology : ℕ → String → List Link → Exec (Store F) (Unit {0})
  unfolding for_each insert_link
  update_peer_topology now host neighbors s =
      for_each neighbors (insert_link now host) (forget_links host s)

  unfoldable pub get_peer_topology : String → Store F → List PeerLink
  get_peer_topology host s =
      sort_by by_local_port (select (λ l. l.peer_hostname == host) s.peer_topology)

  unfoldable pub get_fabric_topology : Store F → List PeerLink
  get_fabric_topology s = sort_by by_host_and_port s.peer_topology
