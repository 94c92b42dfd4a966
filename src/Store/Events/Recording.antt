-- ===== src/Store/Events/Recording.antt =====
-- What `EventStore.record` of store/events.py does, on each branch.
use sonic_watchtower.Prelude.{ℕ, ◌+◌, String, ◌≡◌, true, false, Option}
use sonic_watchtower.Prelude.Dict.{Dict}
use sonic_watchtower.Prelude.Exec.{ok, raise, integrity_error}
use sonic_watchtower.Store.{Store, Value, is_event_severity, is_event_source}
use sonic_watchtower.Store.Events.{record_event, new_event, add_event}

module _ {F : Type 0} (now : ℕ) (source category severity : String) (port : Option String)
    (raw : Option (Dict (Value F))) (s : Store F) (known : is_event_source source ≡ true) where
  pub record_event_valid :
      is_event_severity severity ≡ true
      → record_event now source category severity port raw s
        ≡ (ok (s.events_seq + 1), add_event (new_event now source category severity port raw s) s)
  unfolding record_event
  record_event_valid valid = rw (known, valid)

  pub record_event_refused :
      is_event_severity severity ≡ false
      → record_event now source category severity port raw s ≡ (raise integrity_error, s)
  unfolding record_event
  record_event_refused other = rw (known, other)
