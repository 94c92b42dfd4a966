-- ===== src/Store/Migrations.antt =====
-- The opening of a journal (store/journal.py): `_init_schema` and `_run_migrations` on the one table
-- that the migrations change, `peer_state`. A row is a dict with a value for each column.
pub mod Columns
pub mod Opening
use sonic_watchtower.Prelude.{
  ℕ, String, Bool, Option, none, some, List, [], ◌∷◌, ◌++◌, map, ◌==◌, any, if◌then◌else◌,
}
use sonic_watchtower.Prelude.Dict.{Dict}
use sonic_watchtower.Prelude.Exec.{Exec, Error, Result, ok, raise, for_each, operational_error}

pub data Cell : Type 0 where
  null : Cell
  text : String → Cell
  int : ℕ → Cell

pub record Column : Type 0 where
  pub name : String
  pub default : Cell

pub record Table : Type 0 where
  pub columns : List Column
  pub rows : List (Dict Cell)

-- The columns that the schema gives a new table. `updated_at` has an expression as its default,
-- which no migration uses.
abbrev pub schema : List Column
schema =
    record { name = "peer_hostname"; default = null }
    ∷ record { name = "last_heartbeat"; default = null }
    ∷ record { name = "last_event_summary"; default = null }
    ∷ record { name = "peer_severity"; default = null }
    ∷ record { name = "role"; default = text "leaf" }
    ∷ record { name = "active_finding_count"; default = int 0 }
    ∷ record { name = "governor_state"; default = text "unknown" }
    ∷ record { name = "updated_at"; default = null }
    ∷ []

-- `CREATE TABLE IF NOT EXISTS peer_state`
abbrev pub init_schema : Option Table → Table
init_schema none = record { columns = schema; rows = [] }
init_schema (some t) = t

abbrev pub has_column : String → Table → Bool
has_column name t = any (λ c. c.name == name) t.columns

-- `ALTER TABLE peer_state ADD COLUMN`: the old rows get the default.
unfoldable pub add_column : Column → Exec Table (Unit {0})
add_column c t = if has_column c.name t then (raise operational_error, t) else (
  ok tt,
  record {
    columns = t.columns ++ c ∷ [];
    rows = map (λ row. row ++ (c.name, c.default) ∷ []) t.rows;
  },
)

-- `contextlib.suppress(sqlite3.OperationalError)`
abbrev pub suppress : Result (Unit {0}) → Result (Unit {0})
suppress (ok a) = ok a
suppress (raise operational_error) = ok tt
suppress (raise e) = raise e

abbrev pub migrations : List Column
migrations =
    record { name = "role"; default = text "leaf" }
    ∷ record { name = "active_finding_count"; default = int 0 }
    ∷ record { name = "governor_state"; default = text "unknown" }
    ∷ []

unfoldable pub migrate : Column → Exec Table (Unit {0})
unfolding add_column
migrate c t = let (r, t') = add_column c t in (suppress r, t')

-- `_run_migrations`
unfoldable pub run_migrations : Exec Table (Unit {0})
unfolding migrate for_each
run_migrations = for_each migrations migrate

-- `Journal.__init__`, on the table that the file has, if it has one.
unfoldable pub open_journal : Option Table → Result (Unit {0}) × Table
unfolding run_migrations
open_journal old = run_migrations (init_schema old)
