-- ===== src/Store/Events.antt =====
-- store/events.py: recording and querying raw events.
pub mod Recording
use sonic_watchtower.Prelude.{
  ℕ, suc, ◌+◌, ◌-◌, String, Bool, true, false, not, ◌&&◌, ◌||◌, Option, none, some, List, [], ◌∷◌,
  ◌++◌, map, ◌==◌, ltb, leb, eqb, if◌then◌else◌, select, sort_by,
}
use sonic_watchtower.Prelude.Dict
use sonic_watchtower.Prelude.Dict.{Dict}
use sonic_watchtower.Prelude.Exec.{Exec, Result, ok, raise, integrity_error}
use sonic_watchtower.Store.{Store, Event, Value, is_event_severity, is_event_source}
use sonic_watchtower.Store.Counts.{tally, with_counts}

-- `json.dumps(raw_data) if raw_data else None`, read back: an empty dict is not kept.
abbrev stored : {F : Type 0} → Option (Dict (Value F)) → Option (Dict (Value F))
stored none = none
stored (some []) = none
stored (some (kv ∷ d)) = some (kv ∷ d)

-- `if severity:` holds neither of `None` nor of the empty text.
abbrev pub matches : Option String → String → Bool
matches none s = true
matches (some w) s = w == "" || s == w

abbrev pub at_port : String → Option String → Bool
at_port p none = false
at_port p (some q) = q == p

module _ {F : Type 0} where
  -- The row of the next event.
  abbrev pub new_event :
      ℕ → String → String → String → Option String → Option (Dict (Value F)) → Store F → Event F
  new_event now source category severity port raw s = record {
    id = s.events_seq + 1;
    timestamp = now;
    source = source;
    category = category;
    severity = severity;
    port = port;
    raw_data = stored raw;
    created_at = now;
  }

  abbrev pub add_event : Event F → Store F → Store F
  add_event e s = record s { events = s.events ++ e ∷ []; events_seq = e.id }

  -- `EventStore.record`: the schema's CHECK constraints refuse other sources and severities.
  unfoldable pub record_event :
      ℕ → String → String → String → Option String → Option (Dict (Value F)) → Exec (Store F) ℕ
  record_event now source category severity port raw s =
      let e = new_event now source category severity port raw s in
      if is_event_source source && is_event_severity severity
      then (ok e.id, add_event e s)
      else (raise integrity_error, s)

  -- `ORDER BY timestamp DESC`, which leaves the order of equal timestamps open. SQLite sorts the
  -- rows that it finds by the severity, which keeps their order.
  abbrev pub newest_first : Event F → Event F → Bool
  newest_first a b = leb b.timestamp a.timestamp

  -- The same, where SQLite reads the index of the timestamps backwards: the last id comes first.
  abbrev pub last_first : Event F → Event F → Bool
  last_first a b = ltb b.timestamp a.timestamp || (eqb b.timestamp a.timestamp && leb b.id a.id)

  abbrev pub order_for : Option String → Event F → Event F → Bool
  order_for none = last_first
  order_for (some w) = if w == "" then last_first else newest_first

  unfoldable pub get_recent : ℕ → ℕ → Option String → Store F → List (Event F)
  get_recent now seconds severity s =
      sort_by (order_for severity)
        (select (λ e. leb (now - seconds) e.timestamp && matches severity e.severity) s.events)

  unfoldable pub get_by_port : ℕ → String → ℕ → Store F → List (Event F)
  get_by_port now port seconds s =
      sort_by last_first
        (select (λ e. at_port port e.port && leb (now - seconds) e.timestamp) s.events)

  unfoldable pub count_recent : ℕ → ℕ → Store F → Dict ℕ
  count_recent now seconds s =
      with_counts (("info", 0) ∷ ("warning", 0) ∷ ("critical", 0) ∷ [])
        (tally (map (λ e. e.severity) (select (λ e. leb (now - seconds) e.timestamp) s.events)))
