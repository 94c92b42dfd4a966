-- ===== src/Daemon/Starting.antt =====
-- `main` of main.py: the path of the configuration among the arguments, and the readers of Redis. Opening
-- a reader is Redis's.
use sonic_watchtower.Prelude.{
  ℕ, String, ◌≡◌, refl, ◌||◌, Option, none, some, List, [], ◌∷◌, ◌==◌, if◌then◌else◌,
}
use sonic_watchtower.Prelude.Exec.{Result, ok, raise}
use sonic_watchtower.Prelude.Fallible.{◌>>=◌}
use sonic_watchtower.Collectors.{RedisReader, Readers, appl_db, counters_db, state_db, config_db}

-- The loop over `sys.argv`: the argument behind the last flag that has one.
unfoldable pub config_path_from : Option String → List String → Option String
config_path_from found [] = found
config_path_from found (arg ∷ []) = found
config_path_from found (arg ∷ value ∷ args) =
    let taken = config_path_from (some value) (value ∷ args) in
    let rest = config_path_from found (value ∷ args) in
    if arg == "--config" || arg == "-c" then taken else rest

abbrev pub config_path : List String → Option String
config_path argv = config_path_from none argv

-- The dictionary of the readers in the `try`.
abbrev pub open_readers : (ℕ → Result RedisReader) → Result Readers
open_readers connect = do
  appl ← connect appl_db
  counters ← connect counters_db
  state ← connect state_db
  config ← connect config_db
  ok ((appl_db, appl) ∷ (counters_db, counters) ∷ (state_db, state) ∷ (config_db, config) ∷ [])

-- The daemon goes on without readers where one cannot be opened.
abbrev pub readers_or_none : Result Readers → Readers
readers_or_none (ok readers) = readers
readers_or_none (raise e) = []

config_path_lem :
    config_path ("watchtower" ∷ "-c" ∷ "a.yml" ∷ "--config" ∷ "b.yml" ∷ "-c" ∷ []) ≡ some "b.yml"
unfolding config_path_from
config_path_lem = refl
