-- ===== src/Analyzers/Correlate/Pairs.antt =====
-- Which pairs of events analyzers/peer_correlate.py reports, and how often.
use sonic_watchtower.Prelude.{
  ℕ, ◌-◌, String, ◌==◌, leb, Bool, false, ◌&&◌, none, some, List, eqb, any,
}
use sonic_watchtower.Store.{Store, Event}
use sonic_watchtower.Store.Topology
use sonic_watchtower.Store.Events
use sonic_watchtower.Analyzers.Correlate.{CorrelationResult, events_of, link_of}
use sonic_watchtower.Analyzers.Correlate.Sender.{on_one_link}

module _ {F : Type 0} (a b : ℕ) where
  -- A result for the events with these ids.
  abbrev pub is_pair : CorrelationResult F → Bool
  is_pair r = eqb r.local_event.id a && eqb r.peer_event.id b

  -- The event with the second id is among these.
  abbrev pub has_event : List (Event F) → Bool
  has_event pes = any (λ pe. eqb pe.id b) pes

  -- The local event has the first id, and a neighbour on its port to which an event of a peer with
  -- the second id belongs.
  abbrev pub matches : List (Event F) → Store F → Event F → Bool
  matches peers s e = eqb e.id a && elim (link_of e s) [
    | none ↦ false
    | some (_, n) ↦ has_event (events_of n.neighbor_hostname peers)
  ]

  -- Both events are there, on one link.
  abbrev pub linked : List (Event F) → List (Event F) → Store F → Bool
  linked es peers s = any (matches peers s) es

  -- An event of this source from the window.
  abbrev pub is_recent : ℕ → ℕ → String → Event F → Bool
  is_recent now window source e = leb (now - window) e.timestamp && e.source == source

  -- The journal has a local event with the first id and a peer event with the second one, both of the
  -- window and on one link.
  abbrev pub has_pair : ℕ → ℕ → Store F → Bool
  has_pair now window s =
      any
        (λ e.
          is_recent now window "local" e
          && (eqb e.id a
              && any (λ pe. is_recent now window "peer" pe && (eqb pe.id b && on_one_link s e pe))
                  s.events))
        s.events
