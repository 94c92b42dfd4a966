-- ===== src/Store/Topology.antt =====
-- store/topology.py: the LLDP neighbours of this switch.
use sonic_watchtower.Prelude.{
  ℕ, ◌-◌, String, Bool, not, ◌&&◌, Option, none, some, List, [], ◌∷◌, ◌==◌, ltb, if◌then◌else◌,
  select, sort_by,
}
use sonic_watchtower.Prelude.Text.{text_le}
use sonic_watchtower.Store.{Store, Neighbor}

-- The row of the primary key (local_port, neighbor_hostname, neighbor_port).
abbrev pub is_link : String → String → String → Neighbor → Bool
is_link port host remote n =
    n.local_port == port && n.neighbor_hostname == host && n.neighbor_port == remote

-- `INSERT … ON CONFLICT … DO UPDATE SET last_seen = ?`
unfoldable pub upsert : ℕ → String → String → String → List Neighbor → List Neighbor
upsert now port host remote [] =
    record {
      local_port = port;
      neighbor_hostname = host;
      neighbor_port = remote;
      last_seen = now;
      first_seen = now;
    }
    ∷ []
upsert now port host remote (n ∷ ns) =
    if is_link port host remote n
    then record n { last_seen = now } ∷ ns
    else n ∷ upsert now port host remote ns

-- The index of the primary key holds the rows of a port by neighbor_hostname, then neighbor_port.
abbrev by_key : Neighbor → Neighbor → Bool
by_key a b =
    if a.neighbor_hostname == b.neighbor_hostname
    then text_le a.neighbor_port b.neighbor_port
    else text_le a.neighbor_hostname b.neighbor_hostname

abbrev by_port : Neighbor → Neighbor → Bool
by_port a b = if a.local_port == b.local_port then by_key a b else text_le a.local_port b.local_port

abbrev first_of : List Neighbor → Option Neighbor
first_of [] = none
first_of (n ∷ ns) = some n

module _ {F : Type 0} where
  -- `TopologyStore.update_neighbor`
  unfoldable pub update_neighbor : ℕ → String → String → String → Store F → Store F
  update_neighbor now port host remote s = record s {
    topology = upsert now port host remote s.topology;
  }

  -- `TopologyStore.get_neighbor`: SQL leaves open which row of several it returns, and SQLite
  -- takes the first by its index.
  unfoldable pub get_neighbor : String → Store F → Option Neighbor
  get_neighbor port s = first_of (sort_by by_key (select (λ n. n.local_port == port) s.topology))

  unfoldable pub get_all : Store F → List Neighbor
  get_all s = sort_by by_port s.topology

  unfoldable pub get_ports_to_host : String → Store F → List Neighbor
  get_ports_to_host host s = select (λ n. n.neighbor_hostname == host) s.topology

  unfoldable pub remove_stale : ℕ → ℕ → Store F → Store F
  remove_stale now max_age s = record s {
    topology = select (λ n. not (ltb n.last_seen (now - max_age))) s.topology;
  }
