-- ===== src/Output/Banner/Fitting.antt =====
-- `_format` of output/banner.py: which findings the banner shows, and how long it is.
use sonic_watchtower.Prelude.{
  ℕ, suc, ◌+◌, ◌-◌, ◌≤◌, ◌<◌, String, ◌≡◌, refl, ap, sym, ◌∙◌, ◌⊎◌, inl, inr, List, [], ◌∷◌, ◌++◌,
  arith, leb, ltb, ◌==◌, Bool-cases, length, take, concat, map, count, length-append,
}
use mathlib.Core.List.{append_assoc}
use sonic_watchtower.Prelude.Dict.{Dict, get_or, lookup}
use sonic_watchtower.Config.{BannerConfig}
use sonic_watchtower.Store.{Finding}
use sonic_watchtower.Store.Counts.{bump, sum_values}
use sonic_watchtower.Store.Counts.Totals.{lookup-bump, sum_values-bump}
use sonic_watchtower.Output.Banner.{
  block, overflow, fit, count_severities, no_counts, header, double_rule, banner_lines,
}

abbrev pub blocks : List Finding → List String
blocks fs = concat (map block fs)

-- How many lines the first `k` findings take.
abbrev pub height : ℕ → List Finding → ℕ
height k fs = length (blocks (take k fs))

-- The first `k` findings stay within the bound, and no more of them do.
abbrev pub IsFit : ℕ → List Finding → ℕ → Type 0
IsFit max fs k =
    (k ≤ length fs) × (height k fs ≤ max) × ((k ≡ length fs) ⊎ (max < height (suc k) fs))

height-block :
    (f : Finding) (k : ℕ) (fs : List Finding)
    → height (suc k) (f ∷ fs) ≡ length (block f) + height k fs
height-block f k fs = length-append (block f) (blocks (take k fs))

block-pos : (f : Finding) → 0 < length (block f)
unfolding block
block-pos f = omega arith

-- The loop stops where the next finding would go past the bound.
stop :
    (max total used shown : ℕ) (f : Finding) (fs : List Finding)
    → total ≡ shown + suc (length fs)
    → max < used + length (block f)
    → used ≤ max
    → IsFit (max - used) (f ∷ fs) 0 × (overflow (total - shown) ≡ overflow (suc (length fs) - 0))
stop max total used shown f fs e over h = (
  (omega arith, omega arith, inr (omega (arith, height-block f 0 fs, over, h))),
  ap overflow (omega (arith, e)),
)

step-IsFit :
    (max used k : ℕ) (f : Finding) (fs : List Finding)
    → used + length (block f) ≤ max
    → IsFit (max - (used + length (block f))) fs k
    → IsFit (max - used) (f ∷ fs) (suc k)
step-IsFit max used k f fs h (most, within, inl all) =
    (omega (arith, most), omega (arith, within, h, height-block f k fs), inl (omega (arith, all)))
step-IsFit max used k f fs h (most, within, inr past) = (
  omega (arith, most),
  omega (arith, within, h, height-block f k fs),
  inr (omega (arith, past, h, height-block f (suc k) fs)),
)

fit_lem :
    (max total used shown : ℕ) (fs : List Finding)
    → used ≤ max
    → total ≡ shown + length fs
    → (k : ℕ) × IsFit (max - used) fs k
      × (fit max total fs used shown ≡ blocks (take k fs) ++ overflow (length fs - k))
unfolding fit overflow
fit_lem max total used shown [] h e = (0, (omega arith, omega arith, inl refl), refl)
fit_lem max total used shown (f ∷ fs) h e = elim (Bool-cases (leb max used)) [
  | inl full ↦
      let (fits, same) = stop max total used shown f fs e (ground (arith, full, block-pos f)) h in
      (0, fits, rw full same)
  | inr room_left ↦ elim (Bool-cases (ltb max (used + length (block f)))) [
    | inl over ↦
        let (fits, same) = stop max total used shown f fs e (ground (arith, over)) h in
        (0, fits, rw (room_left, over) same)
    | inr within ↦
        let h' : used + length (block f) ≤ max = ground (arith, within) in
        let (k, fits, same) =
          fit_lem max total (used + length (block f)) (suc shown) fs h' (omega (arith, e)) in
        (
          suc k,
          step-IsFit max used k f fs h' fits,
          rw (room_left, within)
              (let left : suc (length fs) - suc k ≡ length fs - k = omega arith in
                rw left (
                  ap (λ t. block f ++ t) same
                  ∙ sym (append_assoc (block f) (blocks (take k fs)) _))),
        )
  ]
]

sum_values-count_severities :
    (fs : List Finding) (counts : Dict ℕ)
    → sum_values (count_severities fs counts) ≡ sum_values counts + length fs
unfolding count_severities
sum_values-count_severities [] counts = omega arith
sum_values-count_severities (f ∷ fs) counts = omega (
  arith,
  sum_values-count_severities fs (bump f.severity counts),
  sum_values-bump f.severity counts,
)

get_or-count_severities :
    (j : String) (fs : List Finding) (counts : Dict ℕ)
    → get_or j 0 (count_severities fs counts) ≡ get_or j 0 counts + count (λ f. f.severity == j) fs
unfolding count_severities count
get_or-count_severities j [] counts = omega arith
get_or-count_severities j (f ∷ fs) counts =
    omega (
      arith,
      get_or-count_severities j fs (bump f.severity counts),
      lookup-bump f.severity j counts,
    )

no_count : (s : String) → get_or s 0 no_counts ≡ 0
unfolding lookup
no_count s = ground arith

-- The banner has the header with the number of findings, then the first findings in the order
-- given, as many as their lines leave within the bound less 7, then a line with the number of the
-- others if there are others, then the rule; and the counts of the header are those of the findings.
pub banner_lines_lem :
    (config : BannerConfig) (now : String) (fs : List Finding)
    → let counts = count_severities fs no_counts in
      (k : ℕ) × IsFit (config.max_lines - 7) fs k
      × (banner_lines config now fs
          ≡ header now (length fs) counts
            ++ (blocks (take k fs) ++ overflow (length fs - k))
            ++ double_rule ∷ [])
      × ((s : String) → get_or s 0 counts ≡ count (λ f. f.severity == s) fs)
unfolding banner_lines sum_values
banner_lines_lem config now fs =
    let counts = count_severities fs no_counts in
    let max = config.max_lines - 7 in
    let total : sum_values counts ≡ length fs =
      omega (arith, sum_values-count_severities fs no_counts) in
    let (k, fits, same) = fit_lem max (length fs) 0 0 fs (omega arith) (omega arith) in
    (
      k,
      (let no_less : max - 0 ≡ max = omega arith in rw no_less at fits),
      ap (λ n. header now n counts ++ fit max n fs 0 0 ++ double_rule ∷ []) total
          ∙ ap (λ shown. header now (length fs) counts ++ shown ++ double_rule ∷ []) same,
      λ s. omega (arith, get_or-count_severities s fs no_counts, no_count s),
    )

length-overflow : (n : ℕ) → length (overflow n) ≤ 1
unfolding overflow
length-overflow n = ground arith

-- The banner's lines are within the setting, if that leaves room for the header.
pub length-banner_lines :
    (config : BannerConfig) (now : String) (fs : List Finding)
    → 7 ≤ config.max_lines
    → length (banner_lines config now fs) ≤ config.max_lines
length-banner_lines config now fs h =
    let (k, (most, within, _), same, _) = banner_lines_lem config now fs in
    let shown = blocks (take k fs) in
    let left = overflow (length fs - k) in
    rw same (
      omega (
        arith,
        h,
        within,
        length-overflow (length fs - k),
        length-append shown left,
        length-append (shown ++ left) (double_rule ∷ []),
      ))
