-- ===== src/Store/Counts/Totals.antt =====
-- The counts of `count_recent` and `count_active` (store/events.py, store/findings.py): each
-- severity's count and the total, against counting the rows directly.
use sonic_watchtower.Prelude.{
  ℕ, suc, ◌+◌, String, ◌≡◌, refl, ap, ◌∙◌, ◌≢◌, true, ◌||◌, List, [], ◌∷◌, arith, ◌==◌, eq_iff,
  eq_refl, if◌then◌else◌, length, count, Bool-cases, inl, inr,
}
use sonic_watchtower.Prelude.Dict.{
  Dict, lookup, insert, has_key, get_or, NodupKeys, lookup-insert, lookup-has_key,
}
use sonic_watchtower.Store.Counts.{bump, tally, overwrite, sum_values, with_counts}

has_key-bump : (k j : String) (d : Dict ℕ) → has_key j (bump k d) ≡ (k == j || has_key j d)
unfolding has_key bump
has_key-bump k j [] = refl
has_key-bump k j ((i, n) ∷ d) =
    ground (arith, eq_iff i k, eq_iff i j, eq_iff k j, has_key-bump k j d)

bump-NodupKeys : (k : String) (d : Dict ℕ) → NodupKeys d → NodupKeys (bump k d)
unfolding bump has_key
bump-NodupKeys k [] u = (refl, tt)
bump-NodupKeys k ((i, n) ∷ d) (fresh, u) = elim (Bool-cases (i == k)) [
  | inl same ↦ rw same (fresh, u)
  | inr other ↦
      rw other (ground (arith, has_key-bump k i d, eq_iff k i, eq_iff i k), bump-NodupKeys k d u)
]

tally-NodupKeys : (ss : List String) → NodupKeys (tally ss)
unfolding tally
tally-NodupKeys [] = tt
tally-NodupKeys (s ∷ ss) = bump-NodupKeys s (tally ss) (tally-NodupKeys ss)

-- The size of a group is its number of rows.
pub lookup-bump :
    (k j : String) (d : Dict ℕ) → get_or j 0 (bump k d) ≡ (if k == j then 1 else 0) + get_or j 0 d
unfolding lookup bump
lookup-bump k j [] = ground arith
lookup-bump k j ((i, n) ∷ d) = ground (arith, eq_iff i k, eq_iff i j, eq_iff k j, lookup-bump k j d)

get_or-tally : (j : String) (ss : List String) → get_or j 0 (tally ss) ≡ count (λ s. s == j) ss
unfolding tally lookup count
get_or-tally j [] = refl
get_or-tally j (s ∷ ss) =
    lookup-bump s j (tally ss) ∙ ap (λ n. (if s == j then 1 else 0) + n) (get_or-tally j ss)

pub sum_values-bump : (k : String) (d : Dict ℕ) → sum_values (bump k d) ≡ suc (sum_values d)
unfolding sum_values bump
sum_values-bump k [] = omega arith
sum_values-bump k ((i, n) ∷ d) = ground (arith, sum_values-bump k d)

sum_values-tally : (ss : List String) → sum_values (tally ss) ≡ length ss
unfolding tally sum_values
sum_values-tally [] = refl
sum_values-tally (s ∷ ss) = sum_values-bump s (tally ss) ∙ ap suc (sum_values-tally ss)

sum_values-insert :
    (k : String) (n : ℕ) (d : Dict ℕ) → sum_values (insert k n d) + get_or k 0 d ≡ sum_values d + n
unfolding sum_values insert lookup
sum_values-insert k n [] = omega arith
sum_values-insert k n ((i, m) ∷ d) = ground (arith, sum_values-insert k n d)

-- The rows' counts come in over zeros.
abbrev ZeroOn : Dict ℕ → Dict ℕ → Type 0
ZeroOn rows counts = (j : String) → has_key j rows ≡ true → get_or j 0 counts ≡ 0

sum_values-overwrite :
    (counts rows : Dict ℕ)
    → NodupKeys rows
    → ZeroOn rows counts
    → sum_values (overwrite counts rows) ≡ sum_values counts + sum_values rows
unfolding overwrite sum_values has_key
sum_values-overwrite counts [] u z = omega arith
sum_values-overwrite counts ((k, n) ∷ rows) (fresh, u) z =
    let rest : sum_values (overwrite (insert k n counts) rows)
        ≡ sum_values (insert k n counts) + sum_values rows =
      sum_values-overwrite (insert k n counts) rows u
        (λ j p. ground (arith, lookup-insert k j n counts, eq_iff k j, fresh, p, z j)) in
    omega (arith, rest, sum_values-insert k n counts, z k (ground (arith, eq_refl k)))

get_or-overwrite :
    (j : String) (counts rows : Dict ℕ)
    → NodupKeys rows
    → ZeroOn rows counts
    → get_or j 0 (overwrite counts rows) ≡ get_or j 0 counts + get_or j 0 rows
unfolding overwrite lookup has_key
get_or-overwrite j counts [] u z = omega arith
get_or-overwrite j counts ((k, n) ∷ rows) (fresh, u) z =
    let rest : get_or j 0 (overwrite (insert k n counts) rows)
        ≡ get_or j 0 (insert k n counts) + get_or j 0 rows =
      get_or-overwrite j (insert k n counts) rows u
        (λ i p. ground (arith, lookup-insert k i n counts, eq_iff k i, fresh, p, z i)) in
    ground (
      arith,
      rest,
      lookup-insert k j n counts,
      eq_iff k j,
      eq_refl k,
      z k,
      lookup-has_key k rows fresh,
    )

module _ (zeros : Dict ℕ) (all_zero : (j : String) → get_or j 0 zeros ≡ 0)
    (none_yet : sum_values zeros ≡ 0) (ss : List String) where
  -- The total is the number of rows.
  pub total-with_counts : get_or "total" 0 (with_counts zeros (tally ss)) ≡ length ss
  unfolding with_counts
  total-with_counts =
      let sums = sum_values-overwrite zeros (tally ss) (tally-NodupKeys ss) (λ j p. all_zero j) in
      ground (
        arith,
        lookup-insert "total" "total" (sum_values (overwrite zeros (tally ss)))
            (overwrite zeros (tally ss)),
        eq_refl "total",
        sums,
        sum_values-tally ss,
      )

  -- Each other key has the number of rows of that severity.
  pub get_or-with_counts :
      (j : String)
      → j ≢ "total"
      → get_or j 0 (with_counts zeros (tally ss)) ≡ count (λ s. s == j) ss
  unfolding with_counts
  get_or-with_counts j other = ground (
    arith,
    lookup-insert "total" j (sum_values (overwrite zeros (tally ss))) (overwrite zeros (tally ss)),
    eq_iff "total" j,
    get_or-overwrite j zeros (tally ss) (tally-NodupKeys ss) (λ i p. all_zero i),
    all_zero j,
    get_or-tally j ss,
  )
