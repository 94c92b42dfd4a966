-- ===== src/Collectors.antt =====
-- collectors/: what is read from the databases of the switch. Redis is not the program's: a reader
-- is a pair of functions that may raise, which stand for the answers of one database at one time.
pub mod PortStats
pub mod BgpState
pub mod LldpTopology
pub mod InterfaceState
pub mod OpticHealth
pub mod PeerEvents
pub mod LogFilter
pub mod Gathering
pub mod Single
pub mod Counters
use sonic_watchtower.Prelude.{
  ℕ, String, ◌<>◌, Option, none, some, List, [], ◌∷◌, ◌==◌, eqb, if◌then◌else◌,
}
use sonic_watchtower.Prelude.Dict
use sonic_watchtower.Prelude.Dict.{Dict, get_or}
use sonic_watchtower.Prelude.Exec.{Error, value_error, runtime_error, Result, ok, raise}
use sonic_watchtower.Prelude.Fallible.{◌>>=◌, required}
use sonic_watchtower.Prelude.Text.{int_of}

-- The methods of `RedisReader` on one database.
pub record RedisReader : Type 0 where
  pub hgetall : String → Result (Dict String)
  pub keys : String → Result (List String)

abbrev pub appl_db : ℕ
appl_db = 0

abbrev pub counters_db : ℕ
counters_db = 2

abbrev pub config_db : ℕ
config_db = 4

abbrev pub state_db : ℕ
state_db = 6

-- `BaseCollector._readers`, which all collectors of the daemon share.
abbrev pub Readers : Type 0
Readers = List (ℕ × RedisReader)

-- `BaseCollector._reader`
unfoldable pub reader : ℕ → Readers → Result RedisReader
reader db [] = raise runtime_error
reader db ((n, r) ∷ readers) = if eqb n db then ok r else reader db readers

-- `int(hash.get(key, "0"))`
abbrev pub int_field : String → Dict String → Result ℕ
int_field key hash = required value_error (int_of (get_or key "0" hash))

-- `if not hash: continue`, and the entry of a hash that has fields.
abbrev pub unless_empty {ℓ} : {A : Type ℓ} → Dict String → Result A → Result (Option A)
unless_empty [] entry = ok none
unless_empty (_ ∷ _) entry = entry >>= λ a. ok (some a)

-- `result[name] = …` for what was found, and `continue` where nothing was.
abbrev pub put {ℓ} : {A : Type ℓ} → String → Option A → Dict A → Dict A
put name none result = result
put name (some a) result = Dict.insert name a result

-- The loop of a collector over its keys: `read` gives the entry of a key, or nothing where the
-- hash is empty.
unfoldable pub gather {ℓ} :
    {K A : Type ℓ} (name : K → String) (read : K → Result (Option A))
    → List K
    → Dict A
    → Result (Dict A)
unfolding Dict.insert
gather name read [] result = ok result
gather name read (k ∷ ks) result = do
  found ← read k
  gather name read ks (put (name k) found result)

-- The keys to read: that of the one port or neighbour asked for, or all of a pattern.
unfoldable pub keys_for : RedisReader → String → Option String → Result (List String)
keys_for r prefix none = r.keys (prefix <> "*")
keys_for r prefix (some name) =
    if name == "" then r.keys (prefix <> "*") else ok ((prefix <> name) ∷ [])
