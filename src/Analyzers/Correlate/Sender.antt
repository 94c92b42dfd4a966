-- ===== src/Analyzers/Correlate/Sender.antt =====
-- From which host a peer event of analyzers/peer_correlate.py is, and whether on a link.
use sonic_watchtower.Prelude.{
  String, ◌==◌, ◌≡◌, Bool, false, not, ◌&&◌, Option, none, some, arith, eq_iff, if◌then◌else◌,
}
use sonic_watchtower.Prelude.Dict.{Dict, lookup}
use sonic_watchtower.Store.{Store, Event, Value, text, int, number, flag, table}
use sonic_watchtower.Store.Topology
use sonic_watchtower.Analyzers.Correlate.{from_text, peer_of}

module _ {F : Type 0} where
  -- The host name that the raw data of an event says.
  abbrev pub says : String → Option (Value F) → Bool
  says host (some (text h)) = h == host
  says host _ = false

  abbrev pub is_sender : String → Event F → Bool
  is_sender host pe =
      not (host == "")
      && elim pe.raw_data [ none ↦ false | some raw ↦ says host (lookup "peer_hostname" raw) ]

  -- The port of the event has a name, and the topology a neighbour on it that sent the other event.
  abbrev pub on_one_link : Store F → Event F → Event F → Bool
  on_one_link s e pe = elim e.port [
    | none ↦ false
    | some port ↦ not (port == "") && elim (Topology.get_neighbor port s) [
      | none ↦ false
      | some n ↦ is_sender n.neighbor_hostname pe
    ]
  ]

  says_lem :
      (host : String) (o : Option (Value F))
      → (if from_text o == "" then false else from_text o == host)
        ≡ (not (host == "") && says host o)
  says_lem host none = ground arith
  says_lem host (some (text h)) = ground (arith, eq_iff h host, eq_iff h "", eq_iff host "")
  says_lem host (some (int n)) = ground arith
  says_lem host (some (number x)) = ground arith
  says_lem host (some (flag c)) = ground arith
  says_lem host (some (table d)) = ground arith

  pub is_sender_lem :
      (host : String) (pe : Event F)
      → (if peer_of pe == "" then false else peer_of pe == host) ≡ is_sender host pe
  unfolding peer_of
  is_sender_lem host pe = of_raw pe.raw_data
    where
      of_raw :
          (raw : Option (Dict (Value F)))
          → let said : String = elim raw [
            | none ↦ ""
            | some d ↦ from_text (lookup "peer_hostname" d)
          ] in
            (if said == "" then false else said == host) ≡ (
              not (host == "")
              && elim raw [ none ↦ false | some d ↦ says host (lookup "peer_hostname" d) ])
      of_raw none = ground arith
      of_raw (some d) = says_lem host (lookup "peer_hostname" d)
