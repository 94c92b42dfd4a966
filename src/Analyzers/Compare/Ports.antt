-- ===== src/Analyzers/Compare/Ports.antt =====
-- What `check_port_stats` of analyzers/baseline_compare.py reports, and what it leaves in the
-- baselines.
use sonic_watchtower.Prelude.{
  ℕ, ◌+◌, ◌≤◌, String, ◌≡◌, refl, ap, sym, ◌∙◌, ◌↔◌, true, false, not, ◌&&◌, Option, none, some,
  List, [], ◌∷◌, ◌++◌, arith, ◌==◌, eq_iff, ltb, leb, if◌then◌else◌, one_of, Option-cases, inl, inr,
}
use mathlib.Core.Path.{ap₂}
use mathlib.Core.Option.{some-injective, some-ne-none}
use sonic_watchtower.Prelude.Clock.{Moment}
use sonic_watchtower.Prelude.Dict.{Dict, get_or}
use sonic_watchtower.Prelude.Float.{Float, IsOrdered}
use sonic_watchtower.Config.{AnomalyConfig}
use sonic_watchtower.Store.{Store, Baseline}
use sonic_watchtower.Store.Baselines.{update, is_warmed_up, sum_samples, find_key, hour_of_week}
use sonic_watchtower.Store.Baselines
use sonic_watchtower.Store.Baselines.Keys.{UniqueKeys}
use sonic_watchtower.Store.Baselines.Sampling.{get-update, sum_samples-update}
use sonic_watchtower.Analyzers.Compare.{
  AnomalyResult, analyze, check_metrics, check_port_stats, error_metrics, judge, deviation,
}

-- No metric twice.
abbrev DistinctMetrics : List String → Type 0
DistinctMetrics [] = Unit
DistinctMetrics (m ∷ ms) = (one_of m ms ≡ false) × DistinctMetrics ms

module _ {F : Type 0} (fl : Float F) (cfg : AnomalyConfig F) (now : Moment) (port : String)
    (stats : Dict ℕ) where
  open fl use {of_ℕ, fle}

  abbrev pub value_of : String → ℕ
  value_of m = get_or m 0 stats

  -- The verdict on a metric by the baselines of a store.
  abbrev pub verdict : Store F → String → List (AnomalyResult F)
  verdict s m =
      let result = analyze fl cfg now port m (of_ℕ (value_of m)) s in
      if ltb 0 (value_of m) && result.is_anomaly then result ∷ [] else []

  abbrev pub verdicts : Store F → List String → List (AnomalyResult F)
  verdicts s [] = []
  verdicts s (m ∷ ms) = verdict s m ++ verdicts s ms

  abbrev pub sampled : String → Store F → Store F
  sampled m s = update fl now port m (of_ℕ (value_of m)) none s

  get-sampled_at :
      (m k : String) (p : String) (h : ℕ) (s : Store F)
      → (m == k) ≡ false
      → Baselines.get now p k (some h) (sampled m s) ≡ Baselines.get now p k (some h) s
  get-sampled_at m k p h s other =
      get-update fl now port m (of_ℕ (value_of m)) none s p k h ∙ rw other (ground arith)

  -- The sample of another metric changes no baseline.
  get-sampled :
      (m k : String) (p : String) (h : Option ℕ) (s : Store F)
      → (m == k) ≡ false
      → Baselines.get now p k h (sampled m s) ≡ Baselines.get now p k h s
  unfolding Baselines.get
  get-sampled m k p none s other = get-sampled_at m k p (hour_of_week now none) s other
  get-sampled m k p (some h) s other = get-sampled_at m k p h s other

  warm-sampled :
      (m k : String) (s : Store F)
      → (m == k) ≡ false
      → UniqueKeys s.baselines
      → is_warmed_up port k cfg.baseline_warmup_hours (sampled m s)
        ≡ is_warmed_up port k cfg.baseline_warmup_hours s
  unfolding is_warmed_up
  warm-sampled m k s other u = ap (leb cfg.baseline_warmup_hours) (
      (sum_samples-update fl now port m (of_ℕ (value_of m)) none s port k u).0
      ∙ rw other (ground arith))

  analyze-sampled :
      (m k : String) (v : F) (s : Store F)
      → (m == k) ≡ false
      → UniqueKeys s.baselines
      → analyze fl cfg now port k v (sampled m s) ≡ analyze fl cfg now port k v s
  unfolding analyze
  analyze-sampled m k v s other u =
      ap₂ (judge fl cfg port k v) (warm-sampled m k s other u) (get-sampled m k port none s other)

  verdicts-sampled :
      (m : String) (ms : List String) (s : Store F)
      → one_of m ms ≡ false
      → UniqueKeys s.baselines
      → verdicts (sampled m s) ms ≡ verdicts s ms
  verdicts-sampled m [] s fresh u = refl
  verdicts-sampled m (k ∷ ms) s fresh u =
      rw (analyze-sampled m k (of_ℕ (value_of k)) s (ground arith) u)
        (rw (verdicts-sampled m ms s (ground arith) u) refl)

  pub sampled-UniqueKeys :
      (m : String) (s : Store F) → UniqueKeys s.baselines → UniqueKeys (sampled m s).baselines
  sampled-UniqueKeys m s u =
      (sum_samples-update fl now port m (of_ℕ (value_of m)) none s port m u).1

  check_metrics-verdicts :
      (ms : List String) (s : Store F)
      → DistinctMetrics ms
      → UniqueKeys s.baselines
      → (check_metrics fl cfg now port stats ms s).0 ≡ verdicts s ms
  unfolding check_metrics
  check_metrics-verdicts [] s d u = refl
  check_metrics-verdicts (m ∷ ms) s d u =
      ap (λ rest. verdict s m ++ rest)
        (check_metrics-verdicts ms (sampled m s) d.1 (sampled-UniqueKeys m s u)
          ∙ verdicts-sampled m ms s d.0 u)

  sum_samples-check_metrics :
      (ms : List String) (s : Store F) (p k : String)
      → DistinctMetrics ms
      → UniqueKeys s.baselines
      → sum_samples p k (check_metrics fl cfg now port stats ms s).1.baselines
        ≡ (if port == p && one_of k ms then 1 else 0) + sum_samples p k s.baselines
  unfolding check_metrics
  sum_samples-check_metrics [] s p k d u = ground arith
  sum_samples-check_metrics (m ∷ ms) s p k d u = ground (
    arith,
    sum_samples-check_metrics ms (sampled m s) p k d.1 (sampled-UniqueKeys m s u),
    (sum_samples-update fl now port m (of_ℕ (value_of m)) none s p k u).0,
    d.0,
    eq_iff m k,
    eq_iff k m,
  )

  -- `check_port_stats` returns, in the order of the five error metrics, the result of `analyze` for
  -- each metric whose counter is positive and whose result is an anomaly, all by the baselines from
  -- before the call. It adds exactly one sample to each of the five metrics of the port and none to
  -- anything else.
  pub check_port_stats_lem :
      (s : Store F) (p k : String)
      → UniqueKeys s.baselines
      → ((check_port_stats fl cfg now port stats s).0 ≡ verdicts s error_metrics)
        × (sum_samples p k (check_port_stats fl cfg now port stats s).1.baselines
            ≡ (if port == p && one_of k error_metrics then 1 else 0) + sum_samples p k s.baselines)
  unfolding check_port_stats
  check_port_stats_lem s p k u = (
    check_metrics-verdicts error_metrics s distinct u,
    sum_samples-check_metrics error_metrics s p k distinct u,
  )
    where
      distinct : DistinctMetrics error_metrics
      distinct = (refl, (refl, (refl, (refl, (refl, tt)))))

  get-check_metrics :
      (ms : List String) (s : Store F) (k p : String) (h : Option ℕ)
      → one_of k ms ≡ false
      → Baselines.get now p k h (check_metrics fl cfg now port stats ms s).1
        ≡ Baselines.get now p k h s
  unfolding check_metrics
  get-check_metrics [] s k p h out = refl
  get-check_metrics (m ∷ ms) s k p h out =
      get-check_metrics ms (sampled m s) k p h (ground arith)
      ∙ get-sampled m k p h s (ground (arith, eq_iff m k, eq_iff k m))

  -- `check_port_stats` changes no baseline of a metric that is not one of the five error metrics:
  -- in particular it never stores the baseline of "rx_power_avg_dbm" that the optic check reads.
  pub get-check_port_stats :
      (s : Store F) (k p : String) (h : Option ℕ)
      → one_of k error_metrics ≡ false
      → Baselines.get now p k h (check_port_stats fl cfg now port stats s).1
        ≡ Baselines.get now p k h s
  unfolding check_port_stats
  get-check_port_stats s k p h out = get-check_metrics error_metrics s k p h out

module _ {F : Type 0} (fl : Float F) (o : IsOrdered fl) (cfg : AnomalyConfig F)
    (ordered : fl.fle cfg.deviation_threshold cfg.immediate_threshold ≡ true) where
  -- With thresholds in order, an immediate anomaly is an anomaly; and a result is an anomaly exactly
  -- if there is a baseline, the port and metric have the samples of a warm-up, and the deviation
  -- from it reaches the threshold.
  pub analyze_flags :
      (now : Moment) (port metric : String) (value : F) (s : Store F)
      → (((analyze fl cfg now port metric value s).is_immediate
            && not (analyze fl cfg now port metric value s).is_anomaly)
          ≡ false)
        × (((analyze fl cfg now port metric value s).is_anomaly ≡ true) ↔ (
            (b : Baseline F) × (Baselines.get now port metric none s ≡ some b)
            × (cfg.baseline_warmup_hours ≤ sum_samples port metric s.baselines)
            × (fl.fle cfg.deviation_threshold (deviation fl value b.p95) ≡ true)))
  unfolding analyze is_warmed_up
  analyze_flags now port metric value s =
      elim (Option-cases (Baselines.get now port metric none s)) [
        | inl nothing ↦ rw nothing (refl, (λ h. cc, λ w. absurd (some-ne-none w.0 (sym w.1))))
        | inr (b, found) ↦ rw found (
          ground (
            arith,
            o.fle_trans cfg.deviation_threshold cfg.immediate_threshold (deviation fl value b.p95),
            ordered,
          ),
          (
            λ h. (b, refl, ground arith, ground arith),
            λ w.
                let same : b ≡ w.0 = some-injective b w.0 w.1 in rw same (ground (arith, w.2, w.3)),
          ),
        )
      ]
