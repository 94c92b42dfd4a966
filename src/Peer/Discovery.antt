-- ===== src/Peer/Discovery.antt =====
-- peer/discovery.py: the endpoints of the peers that the topology names.
use sonic_watchtower.Prelude.{
  ℕ, String, ◌||◌, Option, none, some, List, [], ◌∷◌, ◌==◌, if◌then◌else◌, one_of,
}
use sonic_watchtower.Store.{Store, Neighbor}
use sonic_watchtower.Store.Topology

pub record PeerEndpoint : Type 0 where
  pub hostname : String
  pub address : String
  pub port : ℕ

-- `_resolve_address`: the first address that `getaddrinfo` finds.
abbrev pub resolve_address : (String → ℕ → Option (List String)) → ℕ → String → Option String
resolve_address getaddrinfo port hostname = elim (getaddrinfo hostname port) [
  | none ↦ none
  | some [] ↦ none
  | some (address ∷ _) ↦ some address
]

-- The loop of `discover_peers`, with the host names seen so far. `resolve` is `_resolve_address`.
unfoldable pub endpoints_of :
    (String → Option String) → ℕ → List Neighbor → List String → List PeerEndpoint
endpoints_of resolve port [] seen = []
endpoints_of resolve port (n ∷ ns) seen =
    let skip = n.neighbor_hostname == "" || one_of n.neighbor_hostname seen in
    let rest = endpoints_of resolve port ns (if skip then seen else n.neighbor_hostname ∷ seen) in
    if skip then rest else elim (resolve n.neighbor_hostname) [
      | none ↦ rest
      | some address ↦
          record { hostname = n.neighbor_hostname; address = address; port = port } ∷ rest
    ]

-- `PeerDiscovery.discover_peers`
unfoldable pub discover_peers :
    {F : Type 0} → (String → ℕ → Option (List String)) → ℕ → Store F → List PeerEndpoint
unfolding endpoints_of Topology.get_all
discover_peers getaddrinfo port s =
    endpoints_of (resolve_address getaddrinfo port) port (Topology.get_all s) []
