-- ===== src/Store/Findings/Lifecycle.antt =====
-- Resolving, listing and counting findings (store/findings.py).
use sonic_watchtower.Prelude.{
  ℕ, String, ◌≡◌, refl, ◌∙◌, ◌≢◌, Bool, true, false, not, ◌&&◌, ◌||◌, none, some, List, [], ◌∷◌,
  arith, ◌==◌, eq_iff, if◌then◌else◌, leb, ltb, eqb, map, select, count, length, All, IsSorted,
  Bool-cases, inl, inr, count-sort_by, count-select, sort_by-IsSorted, IsSorted-weaken, All-sort_by,
  select-All,
}
use sonic_watchtower.Prelude.Dict.{Dict, get_or, lookup}
use sonic_watchtower.Store.{Store, Finding}
use sonic_watchtower.Store.Counts.{sum_values}
use sonic_watchtower.Store.Counts.Totals.{total-with_counts, get_or-with_counts}
use sonic_watchtower.Store.Findings.{
  find_id, get, resolve, resolve_row, get_active, count_active, worst_first, severity_rank,
}

-- Active, with that severity.
abbrev pub is_active_of : String → Finding → Bool
is_active_of severity f = f.active && f.severity == severity

-- Active, with that id.
abbrev pub is_active_id : String → Finding → Bool
is_active_id fid f = f.active && f.finding_id == fid

count-map_severity :
    (j : String) (fs : List Finding)
    → count (λ s. s == j) (map (λ f. f.severity) (select (λ f. f.active) fs))
      ≡ count (is_active_of j) fs
unfolding count select
count-map_severity j [] = refl
count-map_severity j (f ∷ fs) = ground (arith, count-map_severity j fs)

length-active :
    (fs : List Finding)
    → length (map (λ f. f.severity) (select (λ f. f.active) fs)) ≡ count (λ f. f.active) fs
unfolding count select
length-active [] = refl
length-active (f ∷ fs) = ground (arith, length-active fs)

abbrev zeros : Dict ℕ
zeros = ("critical", 0) ∷ ("warning", 0) ∷ ("info", 0) ∷ []

zeros_lookup : (j : String) → get_or j 0 zeros ≡ 0
unfolding lookup
zeros_lookup j = ground arith

rank_total :
    (a b t u : ℕ)
    → (ltb a b || (eqb a b && leb u t)) ≡ false
    → (ltb b a || (eqb b a && leb t u)) ≡ true
rank_total a b t u h = ground arith

rank_trans :
    (a b c t u v : ℕ)
    → (ltb a b || (eqb a b && leb u t)) ≡ true
    → (ltb b c || (eqb b c && leb v u)) ≡ true
    → (ltb a c || (eqb a c && leb v t)) ≡ true
rank_trans a b c t u v h k = ground arith

worst_first_total : (x y : Finding) → worst_first x y ≡ false → worst_first y x ≡ true
worst_first_total x y =
    rank_total (severity_rank x.severity) (severity_rank y.severity) x.timestamp y.timestamp

worst_first_trans :
    (x y z : Finding) → worst_first x y ≡ true → worst_first y z ≡ true → worst_first x z ≡ true
worst_first_trans x y z =
    rank_trans (severity_rank x.severity) (severity_rank y.severity) (severity_rank z.severity)
      x.timestamp y.timestamp z.timestamp

count-resolve_row :
    (now : ℕ) (fid j : String) (fs : List Finding)
    → count (is_active_id j) (map (resolve_row now fid) fs)
      ≡ (if j == fid then 0 else count (is_active_id j) fs)
unfolding count
count-resolve_row now fid j [] = ground arith
count-resolve_row now fid j (f ∷ fs) = ground (
  arith,
  eq_iff f.finding_id fid,
  eq_iff f.finding_id j,
  eq_iff j fid,
  count-resolve_row now fid j fs,
)

find_id-resolve_row :
    (now : ℕ) (fid j : String) (fs : List Finding)
    → find_id j (map (resolve_row now fid) fs)
      ≡ elim (find_id j fs) [ none ↦ none | some f ↦ some (resolve_row now fid f) ]
unfolding find_id
find_id-resolve_row now fid j [] = refl
find_id-resolve_row now fid j (f ∷ fs) =
    ground (arith, eq_iff f.finding_id fid, eq_iff f.finding_id j, find_id-resolve_row now fid j fs)

-- Of two severities of the schema the first one is the worse.
abbrev pub is_worse : String → String → Bool
is_worse a b =
    (a == "critical" && (b == "warning" || b == "info")) || (a == "warning" && b == "info")

-- The first may stand before the second: the second is not worse, and not newer if their severities
-- are the same.
abbrev pub precedes : Finding → Finding → Bool
precedes f g =
    not (is_worse g.severity f.severity)
    && (if f.severity == g.severity then leb g.timestamp f.timestamp else true)

only_one : (s a b : String) → (a == b) ≡ false → (s == a && s == b) ≡ false
only_one s a b other = ground (arith, eq_iff s a, eq_iff s b, eq_iff a b)

one_name :
    (s : String)
    → ((s == "critical" && s == "warning") ≡ false)
      × ((s == "critical" && s == "info") ≡ false)
      × ((s == "warning" && s == "info") ≡ false)
one_name s = (
  only_one s "critical" "warning" refl,
  only_one s "critical" "info" refl,
  only_one s "warning" "info" refl,
)

same_order :
    (x : String) (t u : ℕ)
    → (ltb (severity_rank x) (severity_rank x)
        || (eqb (severity_rank x) (severity_rank x) && leb u t))
      ≡ true
    → (not (is_worse x x) && leb u t) ≡ true
same_order x t u h = ground (arith, one_name x, h)

worst_first-precedes : (f g : Finding) → worst_first f g ≡ true → precedes f g ≡ true
worst_first-precedes f g h = elim (Bool-cases (f.severity == g.severity)) [
  | inl same ↦
      let e : f.severity ≡ g.severity = (eq_iff f.severity g.severity).0 same in
      rw (same, e) (same_order g.severity f.timestamp g.timestamp (rw e at h))
  | inr other ↦ ground (arith, h, other, one_name f.severity, one_name g.severity)
]

module _ {F : Type 0} where
  -- `get_active` with no severity returns active findings only, each active finding as often as the
  -- table holds it (counted by any test `q`), none before one of a worse severity, and none
  -- before a newer one of the same severity.
  pub get_active_lem :
      (q : Finding → Bool) (s : Store F)
      → All (λ f. f.active ≡ true) (get_active none s)
        × (count q (get_active none s) ≡ count (λ f. f.active && q f) s.findings)
        × IsSorted precedes (get_active none s)
  unfolding get_active
  get_active_lem q s = (
    All-sort_by _ worst_first _ (select-All (λ f. f.active) s.findings),
    count-sort_by q worst_first _ ∙ count-select q (λ f. f.active) s.findings,
    IsSorted-weaken worst_first precedes worst_first-precedes _
        (sort_by-IsSorted worst_first worst_first_total worst_first_trans _),
  )

  -- `count_active` counts the active findings: in total, and of each severity.
  pub count_active_lem :
      (s : Store F) (j : String)
      → j ≢ "total"
      → (get_or "total" 0 (count_active s) ≡ count (λ f. f.active) s.findings)
        × (get_or j 0 (count_active s) ≡ count (is_active_of j) s.findings)
  unfolding count_active sum_values
  count_active_lem s j other =
      let rows =
        map (λ (f : Finding). f.severity) (select (λ (f : Finding). f.active) s.findings) in
      (
        total-with_counts zeros zeros_lookup refl rows ∙ length-active s.findings,
        get_or-with_counts zeros zeros_lookup refl rows j other ∙ count-map_severity j s.findings,
      )

  -- After `resolve`, no active finding has the id, and of every other id as many are active as
  -- before; `get` of the id finds the same finding resolved now, and `get` of another id what it
  -- found before.
  pub resolve_lem :
      (now : ℕ) (fid j : String) (s : Store F)
      → (count (is_active_id j) (resolve now fid s).findings
          ≡ (if j == fid then 0 else count (is_active_id j) s.findings))
        × (get j (resolve now fid s)
            ≡ elim (get j s) [ none ↦ none | some f ↦ some (resolve_row now fid f) ])
  unfolding resolve get
  resolve_lem now fid j s =
      (count-resolve_row now fid j s.findings, find_id-resolve_row now fid j s.findings)
