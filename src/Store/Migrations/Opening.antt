-- ===== src/Store/Migrations/Opening.antt =====
-- What opening a journal of an older version leaves (store/journal.py).
use sonic_watchtower.Prelude.{
  String, Bool, true, false, ◌||◌, ◌≡◌, refl, ap, sym, ◌∙◌, Option, none, some, List, [], ◌∷◌, ◌++◌,
  map, arith, ◌==◌, eq_iff, if◌then◌else◌, All, Bool-cases, inl, inr,
}
use sonic_watchtower.Prelude.Dict.{Dict, lookup, has_key, lookup-has_key}
use sonic_watchtower.Prelude.Exec.{ok}
use sonic_watchtower.Store.Migrations.{
  Cell, Column, Table, has_column, migrations, run_migrations, open_journal,
}
use sonic_watchtower.Store.Migrations.Columns.{
  added, upgrades, migrate_each, has_column-append, upgrades-All, upgrades_again,
}

-- Every row has a value for each column, and for nothing else.
abbrev HasCells : (String → Bool) → List (Dict Cell) → Type 0
HasCells has rows = All (λ row. (x : String) → has_key x row ≡ has x) rows

abbrev pub IsTable : Table → Type 0
IsTable t = HasCells (λ x. has_column x t) t.rows

-- What the rows hold in a column.
abbrev pub values : String → Table → List (Option Cell)
values x t = map (lookup x) t.rows

-- The same value in every row.
abbrev pub filled : {A : Type 0} → Option Cell → List A → List (Option Cell)
filled v rows = map (λ _. v) rows

abbrev pub default_of : String → List Column → Option Cell
default_of x [] = none
default_of x (c ∷ cs) = if c.name == x then some c.default else default_of x cs

has_key-append :
    (x n : String) (v : Cell) (row : Dict Cell)
    → has_key x (row ++ (n, v) ∷ []) ≡ (has_key x row || n == x)
unfolding has_key
has_key-append x n v [] = ground arith
has_key-append x n v (entry ∷ row) = ground (arith, has_key-append x n v row)

lookup-append :
    (x n : String) (v : Cell) (row : Dict Cell)
    → lookup x (row ++ (n, v) ∷ [])
      ≡ (if has_key x row then lookup x row else if n == x then some v else none)
unfolding lookup has_key
lookup-append x n v [] = refl
lookup-append x n v (entry ∷ row) = ground (arith, lookup-append x n v row)

HasCells-append :
    (has has' : String → Bool) (n : String) (v : Cell) (rows : List (Dict Cell))
    → ((x : String) → has' x ≡ (has x || n == x))
    → HasCells has rows
    → HasCells has' (map (λ row. row ++ (n, v) ∷ []) rows)
HasCells-append has has' n v [] e p = tt
HasCells-append has has' n v (row ∷ rows) e p = (
  λ x. has_key-append x n v row ∙ rw (p.0 x) (sym (e x)),
  HasCells-append has has' n v rows e p.1,
)

lookup-rows :
    (has : String → Bool) (x n : String) (v : Cell) (rows : List (Dict Cell))
    → HasCells has rows
    → map (lookup x) (map (λ row. row ++ (n, v) ∷ []) rows)
      ≡ (if has x then map (lookup x) rows else filled (if n == x then some v else none) rows)
lookup-rows has x n v [] p = elim (Bool-cases (has x)) [
  | inl old ↦ rw old refl
  | inr new ↦ rw new refl
]
lookup-rows has x n v (row ∷ rows) p =
    let head = rw (p.0 x) at (lookup-append x n v row) in
    let tail = lookup-rows has x n v rows p.1 in
    elim (Bool-cases (has x)) [
      | inl old ↦ rw old (cc (rw old at head, rw old at tail))
      | inr new ↦ rw new (cc (rw new at head, rw new at tail))
    ]

filled-map :
    {A B : Type 0} (w : Option Cell) (f : A → B) (rows : List A)
    → filled w (map f rows) ≡ filled w rows
filled-map w f [] = refl
filled-map w f (row ∷ rows) = ap (λ vs. w ∷ vs) (filled-map w f rows)

lookup_absent :
    (has : String → Bool) (x : String) (rows : List (Dict Cell))
    → HasCells has rows
    → has x ≡ false
    → map (lookup x) rows ≡ filled none rows
lookup_absent has x [] p h = refl
lookup_absent has x (row ∷ rows) p h =
    rw (lookup-has_key x row (p.0 x ∙ h)) (ap (λ vs. none ∷ vs) (lookup_absent has x rows p.1 h))

added-IsTable : (c : Column) (t : Table) → IsTable t → IsTable (added c t)
added-IsTable c t p =
    HasCells-append (λ x. has_column x t) (λ x. has_column x (added c t)) c.name c.default t.rows
      (λ x. has_column-append x t.columns c) p

other_name :
    (x : String) (c : Column) (t : Table)
    → has_column c.name t ≡ true
    → has_column x t ≡ false
    → (c.name == x) ≡ false
other_name x c t there new = elim (Bool-cases (c.name == x)) [
  | inl same ↦ let e : c.name ≡ x = (eq_iff c.name x).0 same in cc (there, new)
  | inr other ↦ other
]

present :
    (x : String) (c : Column) (cs : List Column) (t : Table)
    → has_column c.name t ≡ true
    → (if has_column x t then values x t else filled (default_of x cs) t.rows)
      ≡ (if has_column x t then values x t else filled (default_of x (c ∷ cs)) t.rows)
present x c cs t there = elim (Bool-cases (has_column x t)) [
  | inl old ↦ rw old refl
  | inr new ↦ rw (new, other_name x c t there new) refl
]

absent :
    (x : String) (c : Column) (cs : List Column) (t : Table)
    → IsTable t
    → (if has_column x (added c t)
        then values x (added c t)
        else filled (default_of x cs) (added c t).rows)
      ≡ (if has_column x t then values x t else filled (default_of x (c ∷ cs)) t.rows)
absent x c cs t p =
    let column = lookup-rows (λ y. has_column y t) x c.name c.default t.rows p in
    let others = filled-map (default_of x cs) (λ row. row ++ (c.name, c.default) ∷ []) t.rows in
    rw (has_column-append x t.columns c) (ground (arith, column, others))

values-upgrades :
    (x : String) (cs : List Column) (t : Table)
    → IsTable t
    → values x (upgrades cs t)
      ≡ (if has_column x t then values x t else filled (default_of x cs) t.rows)
values-upgrades x [] t p = elim (Bool-cases (has_column x t)) [
  | inl old ↦ rw old refl
  | inr new ↦ rw new (lookup_absent (λ y. has_column y t) x t.rows p new)
]
values-upgrades x (c ∷ cs) t p = elim (Bool-cases (has_column c.name t)) [
  | inl there ↦ rw (there, upgrades) (values-upgrades x cs t p ∙ present x c cs t there)
  | inr free ↦
      rw (free, upgrades)
        (values-upgrades x cs (added c t) (added-IsTable c t p) ∙ absent x c cs t p)
]

-- Opening a journal that has the table of the peers, with any columns and with a value for each of
-- them in every row, succeeds. Every column that the table had keeps its values, in every row; a
-- column of the migrations that it lacked is there and has its default in every row; a name that
-- neither has is in no row. Opening the journal again changes nothing.
pub open_journal_lem :
    (old : Table)
    → IsTable old
    → (t : Table) × (open_journal (some old) ≡ (ok tt, t))
      × ((x : String)
          → values x t ≡ (
              if has_column x old then values x old else filled (default_of x migrations) old.rows))
      × All (λ c. has_column c.name t ≡ true) migrations
      × (open_journal (some t) ≡ (ok tt, t))
unfolding open_journal run_migrations
open_journal_lem old p =
    let t = upgrades migrations old in
    let full = upgrades-All migrations old in
    (
      t,
      migrate_each migrations old,
      (λ x. values-upgrades x migrations old p),
      full,
      migrate_each migrations t ∙ ap (λ u. (ok tt, u)) (upgrades_again migrations t full),
    )
