-- ===== src/Store/Counts.antt =====
-- What `count_recent` and `count_active` share: `SELECT severity, COUNT(*) … GROUP BY severity`,
-- the loop that writes the counts over zeros, and the total.
pub mod Totals
use sonic_watchtower.Prelude.{
  ℕ, suc, ◌+◌, String, ◌≡◌, refl, Bool, true, false, none, some, List, [], ◌∷◌, arith, ◌==◌, eq_iff,
  if◌then◌else◌, length, count, Bool-cases, inl, inr,
}
use sonic_watchtower.Prelude.Dict
use sonic_watchtower.Prelude.Dict.{Dict, get_or, NodupKeys}

-- One more row in the group of `k`.
unfoldable pub bump : String → Dict ℕ → Dict ℕ
bump k [] = (k, 1) ∷ []
bump k ((j, n) ∷ d) = if j == k then (j, n + 1) ∷ d else (j, n) ∷ bump k d

-- The groups with their sizes.
unfoldable pub tally : List String → Dict ℕ
unfolding bump
tally [] = []
tally (s ∷ ss) = bump s (tally ss)

-- `for row in rows: counts[row["severity"]] = row["count"]`
unfoldable pub overwrite : Dict ℕ → Dict ℕ → Dict ℕ
unfolding Dict.insert
overwrite counts [] = counts
overwrite counts ((k, n) ∷ rows) = overwrite (Dict.insert k n counts) rows

-- `sum(counts.values())`
unfoldable pub sum_values : Dict ℕ → ℕ
sum_values [] = 0
sum_values ((_, n) ∷ d) = n + sum_values d

unfoldable pub with_counts : Dict ℕ → Dict ℕ → Dict ℕ
unfolding overwrite sum_values Dict.insert
with_counts counts rows =
    let merged = overwrite counts rows in Dict.insert "total" (sum_values merged) merged
