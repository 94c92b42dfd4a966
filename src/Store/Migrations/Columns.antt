-- ===== src/Store/Migrations/Columns.antt =====
-- The columns that the migrations of store/journal.py leave.
use sonic_watchtower.Prelude.{
  String, true, ◌||◌, ◌≡◌, refl, ◌∙◌, List, [], ◌∷◌, ◌++◌, map, arith, ◌==◌, eq_refl, if◌then◌else◌,
  any, All, Bool-cases, inl, inr,
}
use sonic_watchtower.Prelude.Exec.{ok, for_each, for_each_step}
use sonic_watchtower.Store.Migrations.{Column, Table, has_column, add_column, migrate}

-- The table with a column, added at the end if it was not there.
abbrev pub added : Column → Table → Table
added c t = record {
  columns = t.columns ++ c ∷ [];
  rows = map (λ row. row ++ (c.name, c.default) ∷ []) t.rows;
}

abbrev pub upgrade : Column → Table → Table
upgrade c t = if has_column c.name t then t else added c t

abbrev pub upgrades : List Column → Table → Table
upgrades [] t = t
upgrades (c ∷ cs) t = upgrades cs (upgrade c t)

migrate_lem : (c : Column) (t : Table) → migrate c t ≡ (ok tt, upgrade c t)
unfolding migrate add_column
migrate_lem c t = elim (Bool-cases (has_column c.name t)) [
  | inl old ↦ rw old refl
  | inr new ↦ rw new refl
]

pub migrate_each : (cs : List Column) (t : Table) → for_each cs migrate t ≡ (ok tt, upgrades cs t)
unfolding for_each
migrate_each [] t = refl
migrate_each (c ∷ cs) t =
    for_each_step c cs migrate t (upgrade c t) (migrate_lem c t) ∙ migrate_each cs (upgrade c t)

pub has_column-append :
    (x : String) (cs : List Column) (c : Column)
    → any (λ d. d.name == x) (cs ++ c ∷ []) ≡ (any (λ d. d.name == x) cs || c.name == x)
unfolding any
has_column-append x [] c = ground arith
has_column-append x (d ∷ cs) c = ground (arith, has_column-append x cs c)

has_column-upgrade :
    (x : String) (c : Column) (t : Table)
    → has_column x t ≡ true
    → has_column x (upgrade c t) ≡ true
has_column-upgrade x c t h = elim (Bool-cases (has_column c.name t)) [
  | inl old ↦ rw old h
  | inr new ↦ rw new (has_column-append x t.columns c ∙ rw h refl)
]

has_column_upgraded : (c : Column) (t : Table) → has_column c.name (upgrade c t) ≡ true
has_column_upgraded c t = elim (Bool-cases (has_column c.name t)) [
  | inl old ↦ rw old old
  | inr new ↦ rw new (has_column-append c.name t.columns c ∙ ground (arith, eq_refl c.name))
]

has_column-upgrades :
    (x : String) (cs : List Column) (t : Table)
    → has_column x t ≡ true
    → has_column x (upgrades cs t) ≡ true
has_column-upgrades x [] t h = h
has_column-upgrades x (c ∷ cs) t h =
    has_column-upgrades x cs (upgrade c t) (has_column-upgrade x c t h)

pub upgrades-All :
    (cs : List Column) (t : Table) → All (λ c. has_column c.name (upgrades cs t) ≡ true) cs
upgrades-All [] t = tt
upgrades-All (c ∷ cs) t = (
  has_column-upgrades c.name cs (upgrade c t) (has_column_upgraded c t),
  upgrades-All cs (upgrade c t),
)

pub upgrades_again :
    (cs : List Column) (t : Table) → All (λ c. has_column c.name t ≡ true) cs → upgrades cs t ≡ t
upgrades_again [] t p = refl
upgrades_again (c ∷ cs) t p = rw p.0 (upgrades_again cs t p.1)
