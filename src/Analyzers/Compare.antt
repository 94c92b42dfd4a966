-- ===== src/Analyzers/Compare.antt =====
-- analyzers/baseline_compare.py: a metric against its baseline.
pub mod Ports
use sonic_watchtower.Prelude.{
  ℕ, String, Bool, true, false, ◌&&◌, Option, none, some, List, [], ◌∷◌, ◌++◌, if◌then◌else◌, ltb,
}
use sonic_watchtower.Prelude.Clock.{Moment}
use sonic_watchtower.Prelude.Dict.{Dict, get_or}
use sonic_watchtower.Prelude.Float.{Float}
use sonic_watchtower.Config.{AnomalyConfig}
use sonic_watchtower.Store.{Store, Baseline, Value, text, number, flag}
use sonic_watchtower.Store.Baselines

pub record AnomalyResult (F : Type 0) : Type 0 where
  pub port : String
  pub metric : String
  pub current_value : F
  pub baseline_p50 : F
  pub baseline_p95 : F
  pub baseline_p99 : F
  pub deviation_factor : F
  pub is_anomaly : Bool
  pub is_immediate : Bool
  pub warmed_up : Bool

-- `AnomalyResult.to_dict`
unfoldable pub to_dict : {F : Type 0} → AnomalyResult F → Dict (Value F)
to_dict r =
    ("port", text r.port)
    ∷ ("metric", text r.metric)
    ∷ ("current_value", number r.current_value)
    ∷ ("baseline_p50", number r.baseline_p50)
    ∷ ("baseline_p95", number r.baseline_p95)
    ∷ ("baseline_p99", number r.baseline_p99)
    ∷ ("deviation_factor", number r.deviation_factor)
    ∷ ("is_anomaly", flag r.is_anomaly)
    ∷ ("is_immediate", flag r.is_immediate)
    ∷ ("warmed_up", flag r.warmed_up)
    ∷ []

abbrev pub error_metrics : List String
error_metrics = "rx_errors" ∷ "tx_errors" ∷ "rx_drops" ∷ "tx_drops" ∷ "rx_crc_errors" ∷ []

module _ {F : Type 0} (fl : Float F) where
  open fl use {flt, fle, fdiv, of_ℕ, infinity}

  -- The factor relative to p95.
  abbrev pub deviation : F → F → F
  deviation value p95 =
      if flt (of_ℕ 0) p95 then fdiv value p95 else if flt (of_ℕ 0) value then infinity else of_ℕ 0

  -- The result where no baseline is known.
  abbrev pub unknown : String → String → F → AnomalyResult F
  unknown port metric value = record {
    port = port;
    metric = metric;
    current_value = value;
    baseline_p50 = of_ℕ 0;
    baseline_p95 = of_ℕ 0;
    baseline_p99 = of_ℕ 0;
    deviation_factor = of_ℕ 0;
    is_anomaly = false;
    is_immediate = false;
    warmed_up = false;
  }

  -- The result from a baseline row; `a >= b` is `fle b a`.
  abbrev pub compared : AnomalyConfig F → String → String → F → Bool → Baseline F → AnomalyResult F
  compared cfg port metric value warm b = record {
    port = port;
    metric = metric;
    current_value = value;
    baseline_p50 = b.p50;
    baseline_p95 = b.p95;
    baseline_p99 = b.p99;
    deviation_factor = deviation value b.p95;
    is_anomaly = warm && fle cfg.deviation_threshold (deviation value b.p95);
    is_immediate = warm && fle cfg.immediate_threshold (deviation value b.p95);
    warmed_up = warm;
  }

  -- The result from what the store has.
  abbrev pub judge :
      AnomalyConfig F → String → String → F → Bool → Option (Baseline F) → AnomalyResult F
  judge cfg port metric value warm none = unknown port metric value
  judge cfg port metric value warm (some b) = compared cfg port metric value warm b

  -- `BaselineCompareAnalyzer.analyze`
  unfoldable pub analyze :
      AnomalyConfig F → Moment → String → String → F → Store F → AnomalyResult F
  analyze cfg now port metric value s =
      let warm = Baselines.is_warmed_up port metric cfg.baseline_warmup_hours s in
      judge cfg port metric value warm (Baselines.get now port metric none s)

  -- One round of the loop of `check_port_stats`: the anomaly, if there is one, and the update.
  unfoldable pub check_metric :
      AnomalyConfig F
      → Moment
      → String
      → Dict ℕ
      → String
      → Store F
      → List (AnomalyResult F) × Store F
  check_metric cfg now port stats metric s =
      let value = get_or metric 0 stats in
      let result = analyze cfg now port metric (of_ℕ value) s in
      (
        if ltb 0 value && result.is_anomaly then result ∷ [] else [],
        Baselines.update fl now port metric (of_ℕ value) none s,
      )

  unfoldable pub check_metrics :
      AnomalyConfig F
      → Moment
      → String
      → Dict ℕ
      → List String
      → Store F
      → List (AnomalyResult F) × Store F
  unfolding check_metric
  check_metrics cfg now port stats [] s = ([], s)
  check_metrics cfg now port stats (m ∷ ms) s =
      let (found, s') = check_metric cfg now port stats m s in
      let (rest, s'') = check_metrics cfg now port stats ms s' in (found ++ rest, s'')

  -- `BaselineCompareAnalyzer.check_port_stats`
  unfoldable pub check_port_stats :
      AnomalyConfig F → Moment → String → Dict ℕ → Store F → List (AnomalyResult F) × Store F
  check_port_stats cfg now port stats s = check_metrics cfg now port stats error_metrics s
