-- ===== src/Store/Baselines/Sampling.antt =====
-- What `BaselineStore.update` of store/baselines.py leaves: one row for each key, and one more
-- sample.
use sonic_watchtower.Prelude.{
  ℕ, ◌+◌, ◌<◌, String, ◌≡◌, refl, ◌∙◌, true, false, ◌&&◌, Option, none, some, List, [], ◌∷◌, ◌++◌,
  arith, ◌==◌, eq_iff, eqb, if◌then◌else◌, Bool-cases, Option-cases, inl, inr,
}
use sonic_watchtower.Prelude.Clock.{Moment}
use sonic_watchtower.Prelude.Float.{Float}
use sonic_watchtower.Store.{Store, Baseline}
use sonic_watchtower.Store.Baselines.{
  hour_of_week, is_key, find_key, get, sum_samples, first_row, next_row, update,
}
use sonic_watchtower.Store.Baselines.Keys.{
  UniqueKeys, find_key-none, find_key-append, find_key-set_key_ne, find_key-set_key_self,
  find_key-is_key, sum_samples-set_key, set_key-UniqueKeys, append-UniqueKeys,
}

-- The bucket is one of the 168 hours of a week, for any time whose parts are in range.
pub hour_of_week-lt :
    (now : Moment) (dt : Moment)
    → now.weekday < 7
    → now.hour < 24
    → dt.weekday < 7
    → dt.hour < 24
    → (hour_of_week now none < 168) × (hour_of_week now (some dt) < 168)
unfolding hour_of_week
hour_of_week-lt now dt a b c d = omega arith

sum_samples-append :
    {F : Type 0} (p m : String) (b : Baseline F) (bs : List (Baseline F))
    → sum_samples p m (bs ++ b ∷ [])
      ≡ (if b.port == p && b.metric == m then b.sample_count else 0) + sum_samples p m bs
unfolding sum_samples
sum_samples-append p m b [] = refl
sum_samples-append p m b (c ∷ bs) = omega (arith, sum_samples-append p m b bs)

self_key :
    {F : Type 0} (port metric : String) (hour : ℕ) (b : Baseline F)
    → b.port ≡ port
    → b.metric ≡ metric
    → b.hour_of_week ≡ hour
    → is_key port metric hour b ≡ true
self_key port metric hour b e f g = ground (arith, eq_iff b.port port, eq_iff b.metric metric)

equal_keys :
    {port metric : String} {hour : ℕ} (p m : String) (h : ℕ)
    → (port == p && metric == m && eqb hour h) ≡ true
    → (port ≡ p) × (metric ≡ m) × (hour ≡ h)
equal_keys {port} {metric} p m h same = ground (arith, eq_iff port p, eq_iff metric m)

-- A row of one key does not have another key.
other_key :
    {F : Type 0} (port metric : String) (hour : ℕ) (p m : String) (h : ℕ) (b : Baseline F)
    → (port == p && metric == m && eqb hour h) ≡ false
    → is_key port metric hour b ≡ true
    → is_key p m h b ≡ false
other_key port metric hour p m h b other self = ground (
  arith,
  eq_iff b.port port,
  eq_iff b.metric metric,
  eq_iff b.port p,
  eq_iff b.metric m,
  eq_iff port p,
  eq_iff metric m,
)

-- A quantile's estimate after a sample: up by 0.05 times what the quantile leaves if the sample is
-- over it, down by 0.05 times the quantile if it is under it, and else where it was.
abbrev pub IsMoved : {F : Type 0} → Float F → (quantile old value new : F) → Type 0
IsMoved fl quantile old value new =
    let step = fl.scaled 5 2 in
    new ≡ (
      if fl.flt old value
      then fl.fadd old (fl.fmul step (fl.fsub (fl.of_ℕ 1) quantile))
      else if fl.flt value old
      then fl.fsub old (fl.fmul step quantile)
      else old)

-- The row of a key after a sample, from the row before it, if there was one.
abbrev pub IsSampled :
    {F : Type 0} → Float F → (now : ℕ) → F → Option (Baseline F) → Baseline F → Type 0
IsSampled fl now value none new =
    (new.p50 ≡ value)
    × (new.p95 ≡ value)
    × (new.p99 ≡ value)
    × (new.sample_count ≡ 1)
    × (new.updated_at ≡ now)
IsSampled fl now value (some old) new =
    IsMoved fl (fl.scaled 50 2) old.p50 value new.p50
    × IsMoved fl (fl.scaled 95 2) old.p95 value new.p95
    × IsMoved fl (fl.scaled 99 2) old.p99 value new.p99
    × (new.sample_count ≡ old.sample_count + 1)
    × (new.updated_at ≡ now)

module _ {F : Type 0} (fl : Float F) (now : Moment) (port metric : String) (value : F)
    (dt : Option Moment) (s : Store F) where
  abbrev hour : ℕ
  hour = hour_of_week now dt

  abbrev updated : Store F
  updated = update fl now port metric value dt s

  -- The key's row after the update, from the row before it.
  abbrev pub sampled : Option (Baseline F) → Baseline F
  sampled none = first_row fl now.seconds port metric hour value
  sampled (some b) = next_row fl now.seconds value b

  own_first : is_key port metric hour (sampled none) ≡ true
  own_first = self_key port metric hour (sampled none) refl refl refl

  own_next :
      (b : Baseline F)
      → find_key port metric hour s.baselines ≡ some b
      → is_key port metric hour (sampled (some b)) ≡ true
  own_next b old = find_key-is_key port metric hour b s.baselines old

  own :
      find_key port metric hour updated.baselines
      ≡ some (sampled (find_key port metric hour s.baselines))
  unfolding update get
  own = elim (Option-cases (find_key port metric hour s.baselines)) [
    | inl new ↦
        rw (new, update)
          (find_key-append port metric hour (sampled none) s.baselines ∙ rw (new, own_first))
    | inr (b, old) ↦
        rw (old, update)
          (find_key-set_key_self port metric hour (sampled (some b)) b s.baselines (own_next b old)
            old)
  ]

  -- `get` after `update`, with the rows as `update` computes them.
  pub get-update :
      (p m : String) (h : ℕ)
      → get now p m (some h) updated ≡ (
          if port == p && metric == m && eqb hour h
          then some (sampled (get now port metric (some hour) s))
          else get now p m (some h) s)
  unfolding update get
  get-update p m h = elim (Bool-cases (port == p && metric == m && eqb hour h)) [
    | inl same ↦ let e = equal_keys p m h same in rw same (rw (← e.0) (rw (← e.1) (rw (← e.2) own)))
    | inr other ↦ rw other (elim (Option-cases (find_key port metric hour s.baselines)) [
      | inl new ↦
          rw (new, update)
            (find_key-append p m h (sampled none) s.baselines
              ∙ ground (arith, other_key port metric hour p m h (sampled none) other own_first))
      | inr (b, old) ↦
          rw (old, update)
            (find_key-set_key_ne p m h port metric hour (sampled (some b)) s.baselines
              (other_key port metric hour p m h (sampled (some b)) other (own_next b old))
              (λ c self. other_key port metric hour p m h c other self))
    ])
  ]

  -- One update adds one sample to the port and metric, in whatever bucket, and none to any other;
  -- and the table keeps one row for each key.
  pub sum_samples-update :
      (p m : String)
      → UniqueKeys s.baselines
      → (sum_samples p m updated.baselines
          ≡ (if port == p && metric == m then 1 else 0) + sum_samples p m s.baselines)
        × UniqueKeys updated.baselines
  unfolding update get
  sum_samples-update p m u = elim (Option-cases (find_key port metric hour s.baselines)) [
    | inl new ↦
        rw (new, update)
          (
            sum_samples-append p m (sampled none) s.baselines,
            append-UniqueKeys port metric hour (sampled none) s.baselines u own_first
                (find_key-none port metric hour s.baselines new),
          )
    | inr (b, old) ↦
        rw (old, update)
          (
            sum_samples-set_key port metric hour p m (sampled (some b)) b s.baselines u
                (own_next b old) refl old,
            set_key-UniqueKeys port metric hour (sampled (some b)) s.baselines u (own_next b old),
          )
  ]
