-- ===== src/Collectors/Single.antt =====
-- `PortStatsCollector.collect` for one port and for all ports.
use sonic_watchtower.Prelude.{
  ℕ, String, ◌≡◌, refl, ap, ◌∙◌, false, Option, none, some, [], ◌∷◌, ◌==◌, Option-cases, inl, inr,
}
use sonic_watchtower.Prelude.Dict
use sonic_watchtower.Prelude.Dict.{Dict, lookup, NodupKeys}
use sonic_watchtower.Prelude.Exec.{ok}
use sonic_watchtower.Collectors.{RedisReader, Readers, reader, counters_db, gather}
use sonic_watchtower.Collectors.PortStats.{port_counters, collect}
use sonic_watchtower.Collectors.Gathering.{gather_lem, entry_after_own, gather-reads, given}

-- The entry of a port in what was collected, alone in a dictionary.
abbrev pub only : {A : Type 0} → String → Option A → Dict A
only port none = []
only port (some a) = (port, a) ∷ []

-- What the counters of a port give, by its place in the hash of names.
abbrev entry_in : RedisReader → String → Option String → Option (Dict ℕ)
entry_in r port none = none
entry_in r port (some oid) = given (port_counters r (port, oid))

-- The loop over the one port that is asked for.
gather-only :
    (r : RedisReader) (port oid : String) (found : Option (Dict ℕ))
    → port_counters r (port, oid) ≡ ok found
    → gather (λ entry. entry.0) (port_counters r) ((port, oid) ∷ []) [] ≡ ok (only port found)
unfolding gather Dict.insert
gather-only r port oid none e = rw e refl
gather-only r port oid (some stats) e = rw e refl

-- Where the statistics of all ports are collected without an exception, asking for one port by its
-- name gives just its entry among them, and none if it has none there. The databases answer the same
-- in both, and the hash of the ports' names has no name twice.
pub collect-single :
    (readers : Readers) (r : RedisReader) (port : String) (port_map : Dict String)
    (all : Dict (Dict ℕ))
    → (port == "") ≡ false
    → reader counters_db readers ≡ ok r
    → r.hgetall "COUNTERS_PORT_NAME_MAP" ≡ ok port_map
    → NodupKeys port_map
    → collect readers none ≡ ok all
    → collect readers (some port) ≡ ok (only port (lookup port all))
unfolding collect
collect-single readers r port port_map all named has_reader has_map u e =
    let loop : gather (λ entry. entry.0) (port_counters r) port_map [] ≡ ok all =
      rw (has_reader, has_map) at e in
    let (_, entry) = gather_lem (λ j. j.0) (port_counters r) port port_map [] all tt loop in
    let own : lookup port all ≡ entry_in r port (lookup port port_map) =
      entry ∙ entry_after_own (port_counters r) port port_map u in
    elim (Option-cases (lookup port port_map)) [
      | inl absent ↦
          let none_there : lookup port all ≡ none = own ∙ ap (entry_in r port) absent in
          rw (has_reader, has_map, named, absent, none_there) refl
      | inr (oid, present) ↦
          let (found, got) = gather-reads (port_counters r) port oid port_map [] all present loop in
          let there : lookup port all ≡ found = own ∙ ap (entry_in r port) present ∙ ap given got in
          rw (has_reader, has_map, named, present, there) (gather-only r port oid found got)
    ]
