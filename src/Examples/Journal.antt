-- ===== src/Examples/Journal.antt =====
-- The stores at concrete journals.
use sonic_watchtower.Prelude.{
  ℕ, List, String, if◌then◌else◌, ◌≡◌, refl, true, false, none, some, [], ◌∷◌, arith, ◌==◌,
  IsSorted, count, any, All,
}
use sonic_watchtower.Prelude.Dict.{has_key}
use sonic_watchtower.Prelude.Exec.{ok, raise, integrity_error}
use sonic_watchtower.Store.{Store, restart, prune}
use sonic_watchtower.Store.Events.{get_recent}
use sonic_watchtower.Store.Findings.{
  create, new_finding, generated_id, has_id, get, get_active, count_active,
}
use sonic_watchtower.Store.Findings.Creating.{get-create, create-restart_collides}
use sonic_watchtower.Store.Findings.Lifecycle.{get_active_lem, precedes}
use sonic_watchtower.Store.Findings.Numbering.{Request, create_all, create_all_lem, rows_from}
use sonic_watchtower.Store.Migrations.{
  Table, text, null, schema, migrations, has_column, open_journal,
}
use sonic_watchtower.Store.Migrations.Opening.{values, filled, default_of, open_journal_lem}
use sonic_watchtower.Store.Pruning.{prune_keeps}
use sonic_watchtower.Peer.Calls.{current_severity}
use sonic_watchtower.Peer.Calls.Severity.{current_severity_lem}
use sonic_watchtower.Examples.{now, later, journal, busy}

abbrev one_row : Store ℕ
one_row = record journal {
  findings = new_finding 1000000 "critical" "BGP down" none none "f-7" ∷ [];
}

creates : create now "critical" "BGP down" none none (some "f-7") journal ≡ (ok "f-7", one_row)
unfolding create any
creates = refl

get-create_example :
    (has_id "f-7" journal ≡ false)
    × (get "f-7" one_row ≡ some (new_finding 1000000 "critical" "BGP down" none none "f-7"))
get-create_example =
    get-create now "critical" "BGP down" none none (some "f-7") journal "f-7" creates

abbrev generated : Store ℕ
generated = record journal {
  findings = new_finding 1000000 "critical" "BGP down" none none (generated_id now 1) ∷ [];
  next_finding = 2;
}

generates :
    create now "critical" "BGP down" none none none journal ≡ (ok (generated_id now 1), generated)
unfolding create any
generates = refl

create-restart_collides_example :
    create later "warning" "Ethernet0 down" none none none (restart generated)
    ≡ (raise integrity_error, record generated { next_finding = 2 })
create-restart_collides_example =
    create-restart_collides now later "critical" "warning" "BGP down" "Ethernet0 down" none none
      none none journal generates refl

abbrev requests : List Request
requests =
    record { now = now; severity = "critical"; summary = "BGP down"; detail = none; related = none }
    ∷ record {
      now = later;
      severity = "warning";
      summary = "Ethernet0 down";
      detail = some "since 10:00";
      related = some (4 ∷ []);
    }
    ∷ []

create_all_lem_example :
    create_all requests journal
    ≡ (ok tt, record journal { findings = rows_from 1 requests; next_finding = 3 })
unfolding any
create_all_lem_example =
    create_all_lem "20260303" requests journal ((refl, refl), ((refl, refl), tt)) λ now k e h. refl

get_active_lem_example :
    All (λ f. f.active ≡ true) (get_active none busy)
    × (count (λ f. f.severity == "warning") (get_active none busy) ≡ 1)
    × IsSorted precedes (get_active none busy)
unfolding count
get_active_lem_example = get_active_lem (λ f. f.severity == "warning") busy

prune_keeps_example :
    (get_active none (prune 1000000 7 90 busy) ≡ get_active none busy)
    × (count_active (prune 1000000 7 90 busy) ≡ count_active busy)
    × (get_recent 1000000 300 none (prune 1000000 7 90 busy) ≡ get_recent 1000000 300 none busy)
prune_keeps_example = prune_keeps 1000000 7 90 busy none 300 (omega arith)

current_severity_lem_example : current_severity busy ≡ "warning"
unfolding any
current_severity_lem_example = current_severity_lem busy

-- A table of an older version.
abbrev first_version : Table
first_version = record {
  columns =
      record { name = "peer_hostname"; default = null }
      ∷ record { name = "peer_severity"; default = null }
      ∷ record { name = "updated_at"; default = null }
      ∷ [];
  rows =
      (("peer_hostname", text "spine1")
        ∷ ("peer_severity", text "ok")
        ∷ ("updated_at", text "2026-03-03T10:00:00Z")
        ∷ [])
      ∷ [];
}

open_journal_new : open_journal none ≡ (ok tt, record { columns = schema; rows = [] })
unfolding open_journal any
open_journal_new = refl

open_journal_lem_example :
    (t : Table) × (open_journal (some first_version) ≡ (ok tt, t))
    × ((x : String)
        → values x t ≡ (
            if has_column x first_version
            then values x first_version
            else filled (default_of x migrations) first_version.rows))
    × All (λ c. has_column c.name t ≡ true) migrations
    × (open_journal (some t) ≡ (ok tt, t))
unfolding any has_key
open_journal_lem_example = open_journal_lem first_version ((λ x. refl), tt)
