-- ===== src/Analyzers/Diff/Counting.antt =====
-- How many changes analyzers/topology_diff.py reports of a port.
use sonic_watchtower.Prelude.{
  ℕ, String, ◌≡◌, refl, ◌∙◌, Bool, not, ◌&&◌, Option, none, some, [], ◌∷◌, arith, ◌==◌, eq_iff,
  if◌then◌else◌, count, count-append, Bool-cases, Option-cases, inl, inr,
}
use sonic_watchtower.Prelude.Dict.{Dict, lookup, has_key, NodupKeys, has_key-lookup, lookup-has_key}
use sonic_watchtower.Analyzers.Diff.{
  Info, TopologyChange, differs, compare_port, new_and_changed, gone, changes,
}

abbrev pub is_at : String → TopologyChange → Bool
is_at port c = c.local_port == port

-- The changes that a port deserves, by its neighbour before and after.
abbrev pub deserved : Option Info → Option Info → ℕ
deserved none none = 0
deserved none (some new) = 1
deserved (some old) none = 1
deserved (some old) (some new) = if differs old new then 1 else 0

count-compare_port :
    (old : Dict Info) (port : String) (new : Info) (j : String)
    → count (is_at j) (compare_port old port new)
      ≡ (if port == j then deserved (lookup port old) (some new) else 0)
unfolding count
count-compare_port old port new j = elim (Option-cases (lookup port old)) [
  | inl absent ↦ rw (absent, compare_port) (ground arith)
  | inr (o, found) ↦
      rw (found, compare_port)
        (elim (Bool-cases (differs o new)) [
          | inl moved ↦ rw moved (ground arith)
          | inr equal ↦ rw equal (ground arith)
        ])
]

count-new_and_changed :
    (old current : Dict Info) (j : String)
    → NodupKeys current
    → count (is_at j) (new_and_changed old current)
      ≡ elim (lookup j current) [ none ↦ 0 | some new ↦ deserved (lookup j old) (some new) ]
unfolding new_and_changed lookup count has_key
count-new_and_changed old [] j u = refl
count-new_and_changed old ((port, new) ∷ current) j (fresh, u) =
    count-append (is_at j) (compare_port old port new) (new_and_changed old current)
    ∙ ground (
      arith,
      count-compare_port old port new j,
      count-new_and_changed old current j u,
      lookup-has_key j current,
      fresh,
      eq_iff port j,
    )

count-gone :
    (current old : Dict Info) (j : String)
    → NodupKeys old
    → count (is_at j) (gone current old)
      ≡ (if has_key j old && not (has_key j current) then 1 else 0)
unfolding gone has_key count
count-gone current [] j u = refl
count-gone current ((port, o) ∷ old) j (fresh, u) =
    ground (arith, count-gone current old j u, fresh, eq_iff port j)

-- Of every port exactly as many changes are reported as its neighbours before and after deserve:
-- one if it is new, gone or another, and none if there is none or it is the same.
pub count-changes :
    (old current : Dict Info) (j : String)
    → NodupKeys old
    → NodupKeys current
    → count (is_at j) (changes old current) ≡ deserved (lookup j old) (lookup j current)
unfolding changes
count-changes old current j u v =
    count-append (is_at j) (new_and_changed old current) (gone current old)
    ∙ ground (
      arith,
      count-new_and_changed old current j v,
      count-gone current old j u,
      has_key-lookup j current,
      lookup-has_key j old,
      lookup-has_key j current,
      has_key-lookup j old,
    )
