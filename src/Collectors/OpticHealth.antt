-- ===== src/Collectors/OpticHealth.antt =====
-- collectors/optic_health.py. `float` of a text is a parameter of the arithmetic.
use sonic_watchtower.Prelude.{String, ◌<>◌, Option, none, some, List, [], ◌∷◌, ◌++◌, length}
use sonic_watchtower.Prelude.Dict
use sonic_watchtower.Prelude.Dict.{Dict, get_or}
use sonic_watchtower.Prelude.Exec.{Result, ok, value_error}
use sonic_watchtower.Prelude.Fallible.{◌>>=◌, required}
use sonic_watchtower.Prelude.Float.{Float}
use sonic_watchtower.Prelude.Text.{after_first}
use sonic_watchtower.Collectors.{
  RedisReader, Readers, reader, state_db, unless_empty, gather, keys_for,
}

pub record Optic (F : Type 0) : Type 0 where
  pub temperature : F
  pub voltage : F
  pub rx_power_dbm : List F
  pub tx_power_dbm : List F
  pub tx_bias_ma : List F
  pub rx_power_avg_dbm : F
  pub tx_power_avg_dbm : F
  pub kind : String
  pub vendor : String
  pub serial : String
  pub model : String

-- The lanes of `range(1, 9)`.
abbrev pub lanes : List String
lanes = "1" ∷ "2" ∷ "3" ∷ "4" ∷ "5" ∷ "6" ∷ "7" ∷ "8" ∷ []

-- The three lists that the loop over the lanes fills.
pub record Lanes (F : Type 0) : Type 0 where
  pub rx : List F
  pub tx : List F
  pub bias : List F

module _ {F : Type 0} (fl : Float F) where
  open fl use {fadd, fdiv, of_ℕ, parse}

  -- `float(s)`, for a field that is there.
  abbrev pub float_of : String → Result F
  float_of s = required value_error (parse s)

  -- `if key in dom_data: xs.append(float(dom_data[key]))`
  unfoldable pub append_field : String → Dict String → List F → Result (List F)
  unfolding Dict.lookup
  append_field key dom xs = elim (Dict.lookup key dom) [
    | none ↦ ok xs
    | some s ↦ do x ← float_of s; ok (xs ++ x ∷ [])
  ]

  -- The loop over the lanes.
  unfoldable pub read_lanes : Dict String → List String → Lanes F → Result (Lanes F)
  unfolding append_field
  read_lanes dom [] l = ok l
  read_lanes dom (i ∷ is) l = do
    rx ← append_field ("rx" <> i <> "power") dom l.rx
    tx ← append_field ("tx" <> i <> "power") dom l.tx
    bias ← append_field ("tx" <> i <> "bias") dom l.bias
    read_lanes dom is (record { rx = rx; tx = tx; bias = bias })

  unfoldable pub sum_from : F → List F → F
  sum_from total [] = total
  sum_from total (x ∷ xs) = sum_from (fadd total x) xs

  -- `sum(xs) / len(xs) if xs else 0.0`
  unfoldable pub average : List F → F
  unfolding sum_from
  average [] = of_ℕ 0
  average (x ∷ xs) = fdiv (sum_from (of_ℕ 0) (x ∷ xs)) (of_ℕ (length (x ∷ xs)))

  unfoldable pub optic_of : Dict String → Dict String → Result (Optic F)
  unfolding read_lanes average Dict.lookup
  optic_of dom info = do
    l ← read_lanes dom lanes (record { rx = []; tx = []; bias = [] })
    temperature ← float_of (get_or "temperature" "0" dom)
    voltage ← float_of (get_or "voltage" "0" dom)
    ok (record {
      temperature = temperature;
      voltage = voltage;
      rx_power_dbm = l.rx;
      tx_power_dbm = l.tx;
      tx_bias_ma = l.bias;
      rx_power_avg_dbm = average l.rx;
      tx_power_avg_dbm = average l.tx;
      kind = get_or "type" "" info;
      vendor = get_or "vendor_name" "" info;
      serial = get_or "serial" "" info;
      model = get_or "model" "" info;
    })

  -- The body of the loop over the keys.
  unfoldable pub read_optic : RedisReader → String → Result (Option (Optic F))
  unfolding optic_of
  read_optic r key = do
    dom ← r.hgetall key
    unless_empty dom
        (do info ← r.hgetall ("TRANSCEIVER_INFO|" <> after_first "|" key); optic_of dom info)

  -- `OpticHealthCollector.collect`
  unfoldable pub collect : Readers → Option String → Result (Dict (Optic F))
  unfolding read_optic gather keys_for
  collect readers port = do
    r ← reader state_db readers
    keys ← keys_for r "TRANSCEIVER_DOM_SENSOR|" port
    gather (after_first "|") (read_optic r) keys []
