-- ===== src/Store/Baselines.antt =====
-- store/baselines.py: baseline statistics by hour of the week.
pub mod Keys
pub mod Sampling
use sonic_watchtower.Prelude.{
  ℕ, ◌+◌, ◌*◌, String, ◌≡◌, Bool, true, false, ◌&&◌, ◌||◌, Option, none, some, List, [], ◌∷◌, ◌++◌,
  map, ◌==◌, leb, ltb, eqb, if◌then◌else◌, select, sort_by,
}
use sonic_watchtower.Prelude.Clock.{Moment}
use sonic_watchtower.Prelude.Text.{text_le}
use sonic_watchtower.Prelude.Float.{Float}
use sonic_watchtower.Store.{Store, Baseline}

-- `_hour_of_week`, of the given time or of now.
unfoldable pub hour_of_week : Moment → Option Moment → ℕ
hour_of_week now none = now.weekday * 24 + now.hour
hour_of_week now (some dt) = dt.weekday * 24 + dt.hour

module _ {F : Type 0} where
  -- The row of the primary key (port, metric, hour_of_week).
  abbrev pub is_key : String → String → ℕ → Baseline F → Bool
  is_key port metric hour b = b.port == port && b.metric == metric && eqb b.hour_of_week hour

  unfoldable pub find_key : String → String → ℕ → List (Baseline F) → Option (Baseline F)
  find_key port metric hour [] = none
  find_key port metric hour (b ∷ bs) =
      if is_key port metric hour b then some b else find_key port metric hour bs

  -- `BaselineStore.get`, at a given hour or at the hour of now.
  unfoldable pub get : Moment → String → String → Option ℕ → Store F → Option (Baseline F)
  unfolding find_key hour_of_week
  get now port metric none s = find_key port metric (hour_of_week now none) s.baselines
  get now port metric (some hour) s = find_key port metric hour s.baselines

  -- `SELECT COALESCE(SUM(sample_count), 0)`
  unfoldable pub sum_samples : String → String → List (Baseline F) → ℕ
  sum_samples port metric [] = 0
  sum_samples port metric (b ∷ bs) =
      (if b.port == port && b.metric == metric then b.sample_count else 0)
      + sum_samples port metric bs

  unfoldable pub is_warmed_up : String → String → ℕ → Store F → Bool
  is_warmed_up port metric min_samples s = leb min_samples (sum_samples port metric s.baselines)

  abbrev pub by_metric_and_hour : Baseline F → Baseline F → Bool
  by_metric_and_hour a b =
      if a.metric == b.metric then leb a.hour_of_week b.hour_of_week else text_le a.metric b.metric

  unfoldable pub get_all_for_port : String → Store F → List (Baseline F)
  get_all_for_port port s = sort_by by_metric_and_hour (select (λ b. b.port == port) s.baselines)

  -- `UPDATE … WHERE port = ? AND metric = ? AND hour_of_week = ?`
  unfoldable pub set_key : String → String → ℕ → Baseline F → List (Baseline F) → List (Baseline F)
  set_key port metric hour new [] = []
  set_key port metric hour new (b ∷ bs) =
      (if is_key port metric hour b then new else b) ∷ set_key port metric hour new bs

  module _ (fl : Float F) where
    open fl use {flt, fadd, fsub, fmul, of_ℕ, scaled}

    -- `BaselineStore._ema_quantile`
    unfoldable pub ema_quantile : F → F → F → F → F
    ema_quantile current sample alpha quantile =
        if flt current sample
        then fadd current (fmul alpha (fsub (of_ℕ 1) quantile))
        else if flt sample current
        then fsub current (fmul alpha quantile)
        else current

    -- `ALPHA`
    abbrev pub alpha : F
    alpha = scaled 5 2

    -- The first row of a key: all three estimates are the sample.
    abbrev pub first_row : ℕ → String → String → ℕ → F → Baseline F
    first_row now port metric hour value = record {
      port = port;
      metric = metric;
      hour_of_week = hour;
      p50 = value;
      p95 = value;
      p99 = value;
      sample_count = 1;
      updated_at = now;
    }

    -- The UPDATE's new values, from the row that was read.
    abbrev pub next_row : ℕ → F → Baseline F → Baseline F
    next_row now value b = record b {
      p50 = ema_quantile b.p50 value alpha (scaled 50 2);
      p95 = ema_quantile b.p95 value alpha (scaled 95 2);
      p99 = ema_quantile b.p99 value alpha (scaled 99 2);
      sample_count = b.sample_count + 1;
      updated_at = now;
    }

    -- `BaselineStore.update`
    unfoldable pub update : Moment → String → String → F → Option Moment → Store F → Store F
    unfolding get set_key
    update now port metric value dt s =
        let hour = hour_of_week now dt in
        elim (get now port metric (some hour) s) [
          | none ↦ record s {
            baselines = s.baselines ++ first_row now.seconds port metric hour value ∷ [];
          }
          | some b ↦ record s {
            baselines = set_key port metric hour (next_row now.seconds value b) s.baselines;
          }
        ]
