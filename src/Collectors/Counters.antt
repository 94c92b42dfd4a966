-- ===== src/Collectors/Counters.antt =====
-- `PortStatsCollector.collect`: the counters of one port.
use sonic_watchtower.Prelude.{
  ℕ, String, ◌<>◌, ◌≡◌, refl, ◌∙◌, Bool, false, ◌||◌, some, [], ◌∷◌, arith, ◌==◌, All,
}
use text.Mathlib.TextPositions.{eq_refl}
use sonic_watchtower.Prelude.Dict.{Dict, lookup, insert, lookup-insert}
use sonic_watchtower.Prelude.Exec.{ok}
use sonic_watchtower.Prelude.Fallible.{bind-ok}
use sonic_watchtower.Collectors.{RedisReader, int_field, unless_empty}
use sonic_watchtower.Collectors.PortStats.{counter_map, read_counters, port_counters}

abbrev named_in : String → Dict String → Bool
named_in n [] = false
named_in n ((_, friendly) ∷ table) = friendly == n || named_in n table

-- No friendly name stands twice in a table.
abbrev DistinctNames : Dict String → Type 0
DistinctNames [] = Unit
DistinctNames ((_, friendly) ∷ table) = (named_in friendly table ≡ false) × DistinctNames table

-- A counter of the hash, under its friendly name.
abbrev pub HasCounter : Dict String → Dict ℕ → String × String → Type 0
HasCounter counters stats (sai_name, friendly_name) =
    (value : ℕ) × (int_field sai_name counters ≡ ok value)
    × (lookup friendly_name stats ≡ some value)

read_counters-keeps :
    (n : String) (counters table : Dict String) (stats after : Dict ℕ)
    → named_in n table ≡ false
    → read_counters counters table stats ≡ ok after
    → lookup n after ≡ lookup n stats
unfolding read_counters
read_counters-keeps n counters [] stats after h e =
    let same : stats ≡ after = cc e in rw (← same) refl
read_counters-keeps n counters ((sai, friendly) ∷ table) stats after h e =
    let (value, _, e1) = bind-ok (int_field sai counters) _ after e in
    let other : (friendly == n) ≡ false = ground (arith, h) in
    let rest : named_in n table ≡ false = ground (arith, h) in
    read_counters-keeps n counters table (insert friendly value stats) after rest e1
    ∙ (rw other at (lookup-insert {V = ℕ} friendly n value stats))

read_counters-All :
    (counters table : Dict String) (stats after : Dict ℕ)
    → DistinctNames table
    → read_counters counters table stats ≡ ok after
    → All (HasCounter counters after) table
unfolding read_counters
read_counters-All counters [] stats after u e = tt
read_counters-All counters ((sai, friendly) ∷ table) stats after (fresh, u) e =
    let (value, read, e1) = bind-ok (int_field sai counters) _ after e in
    let kept =
      read_counters-keeps friendly counters table (insert friendly value stats) after fresh e1 in
    let written = rw (eq_refl friendly) at (lookup-insert {V = ℕ} friendly friendly value stats) in
    (
      (value, read, kept ∙ written),
      read_counters-All counters table (insert friendly value stats) after u e1,
    )

filled :
    (counters : Dict String) (stats : Dict ℕ)
    → unless_empty counters (read_counters counters counter_map []) ≡ ok (some stats)
    → All (HasCounter counters stats) counter_map
filled [] stats e = absurd (cc e)
filled (c ∷ counters) stats e =
    let (filled_stats, read, e1) =
      bind-ok (read_counters (c ∷ counters) counter_map []) _ (some stats) e in
    let same : filled_stats ≡ stats = cc e1 in
    read_counters-All (c ∷ counters) counter_map [] stats
      (refl, (refl, (refl, (refl, (refl, (refl, (refl, (refl, (refl, tt))))))))) (rw same at read)

-- A port whose hash has fields has all nine counters in its statistics, each the number in the field, or
-- 0 if there is no such field.
pub port_counters-All :
    (r : RedisReader) (port oid : String) (stats : Dict ℕ)
    → port_counters r (port, oid) ≡ ok (some stats)
    → (counters : Dict String) × (r.hgetall ("COUNTERS:" <> oid) ≡ ok counters)
      × All (HasCounter counters stats) counter_map
unfolding port_counters
port_counters-All r port oid stats e =
    let (counters, got, e1) = bind-ok (r.hgetall ("COUNTERS:" <> oid)) _ (some stats) e in
    (counters, got, filled counters stats e1)
