-- ===== src/Analyzers/Correlate.antt =====
-- analyzers/peer_correlate.py: local events and the events of the peer at the other end of a link.
pub mod Sender
pub mod Pairs
use sonic_watchtower.Prelude.{
  ℕ, String, Bool, false, ◌&&◌, ◌||◌, Option, none, some, List, [], ◌∷◌, ◌++◌, ◌==◌, eqb,
  if◌then◌else◌, select,
}
use sonic_watchtower.Prelude.Dict
use sonic_watchtower.Prelude.Dict.{Dict}
use sonic_watchtower.Store.{Store, Event, Value, text, Neighbor}
use sonic_watchtower.Store.Events
use sonic_watchtower.Store.Topology

pub record CorrelationResult (F : Type 0) : Type 0 where
  pub local_event : Event F
  pub peer_event : Event F
  pub local_port : String
  pub peer_hostname : String
  pub peer_port : String
  pub correlation_type : String

-- `pair in seen`
unfoldable pub seen_pair : ℕ → ℕ → List (ℕ × ℕ) → Bool
seen_pair a b [] = false
seen_pair a b ((c, d) ∷ seen) = (eqb c a && eqb d b) || seen_pair a b seen

module _ {F : Type 0} where
  abbrev pub from_text : Option (Value F) → String
  from_text (some (text h)) = h
  from_text _ = ""

  -- `raw.get("peer_hostname", "")`, where `raw` is a dict.
  unfoldable pub peer_of : Event F → String
  unfolding Dict.lookup
  peer_of e = elim e.raw_data [ none ↦ "" | some raw ↦ from_text (Dict.lookup "peer_hostname" raw) ]

  -- `peer_by_host.get(host, [])`: the events of the peer in the order in which they were read. The
  -- loop that builds the dict keeps no event without a host name.
  unfoldable pub events_of : String → List (Event F) → List (Event F)
  unfolding peer_of
  events_of host [] = []
  events_of host (e ∷ es) =
      let rest = events_of host es in
      if (if peer_of e == "" then false else peer_of e == host) then e ∷ rest else rest

  abbrev pub same_link : Event F → String → String → String → Event F → CorrelationResult F
  same_link e port host remote pe = record {
    local_event = e;
    peer_event = pe;
    local_port = port;
    peer_hostname = host;
    peer_port = remote;
    correlation_type = "same_link";
  }

  -- The inner loop, over the peer's events: the results, and the pairs seen so far.
  unfoldable pub pair_up :
      Event F
      → String
      → String
      → String
      → List (Event F)
      → List (ℕ × ℕ)
      → List (CorrelationResult F) × List (ℕ × ℕ)
  unfolding seen_pair
  pair_up e port host remote [] seen = ([], seen)
  pair_up e port host remote (pe ∷ pes) seen =
      let old = seen_pair e.id pe.id seen in
      let (rest, seen') =
        pair_up e port host remote pes (if old then seen else (e.id, pe.id) ∷ seen) in
      (if old then rest else same_link e port host remote pe ∷ rest, seen')

  -- The neighbour on the port of the event, if the event has a port and the port a neighbour.
  abbrev pub link_of : Event F → Store F → Option (String × Neighbor)
  link_of e s = elim e.port [
    | none ↦ none
    | some port ↦
        if port == ""
        then none
        else elim (Topology.get_neighbor port s) [ none ↦ none | some n ↦ some (port, n) ]
  ]

  -- The outer loop, over the local events.
  unfoldable pub correlate :
      List (Event F) → List (Event F) → Store F → List (ℕ × ℕ) → List (CorrelationResult F)
  unfolding pair_up events_of Topology.get_neighbor
  correlate [] peers s seen = []
  correlate (e ∷ es) peers s seen = elim (link_of e s) [
    | none ↦ correlate es peers s seen
    | some (port, n) ↦
        let (found, seen') =
          pair_up e port n.neighbor_hostname n.neighbor_port (events_of n.neighbor_hostname peers)
            seen in
        found ++ correlate es peers s seen'
  ]

  abbrev pub from_source : String → List (Event F) → List (Event F)
  from_source source = select (λ e. e.source == source)

  -- `PeerCorrelateAnalyzer.analyze`. The early return for an empty list changes nothing, and is
  -- here as it is there.
  unfoldable pub analyze : ℕ → ℕ → Store F → List (CorrelationResult F)
  unfolding correlate Events.get_recent
  analyze now window s =
      let recent = Events.get_recent now window none s in
      let peers = from_source "peer" recent in
      elim (from_source "local" recent) [
        | [] ↦ []
        | e ∷ es ↦ elim peers [ [] ↦ [] | p ∷ ps ↦ correlate (e ∷ es) (p ∷ ps) s [] ]
      ]
