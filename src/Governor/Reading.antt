-- ===== src/Governor/Reading.antt =====
-- `_read_resources` and `get_status` of governor.py. The files of /proc stand as their lines. What
-- was read before an exception stays in the snapshot.
pub mod Limits
use text.Mathlib.Text.{starts_with}
use sonic_watchtower.Prelude.{
  ℕ, suc, ◌+◌, String, Bool, Option, none, some, List, [], ◌∷◌, ltb, leb, length, drop,
  if◌then◌else◌,
}
use sonic_watchtower.Prelude.Dict
use sonic_watchtower.Prelude.Dict.{Dict, get_or}
use sonic_watchtower.Prelude.Exec.{
  Exec, Result, ok, raise, Error, value_error, index_error, zero_division_error, os_error,
  operational_error, integrity_error, runtime_error, rpc_error, pure, throw, modify, continue,
  ◌>>=◌, ◌>>◌,
}
use sonic_watchtower.Prelude.Float.{Float}
use sonic_watchtower.Prelude.Text.{words, int_of, rstrip_colons}
use sonic_watchtower.Governor.{Governor, GovernorState, ResourceSnapshot, update, value}

-- A file of /proc: not there, or there and not to be opened, or its lines.
pub data ProcFile : Type 0 where
  absent unreadable : ProcFile
  lines : List String → ProcFile

pub record Proc : Type 0 where
  -- /proc/self/status, /proc/meminfo, /proc/stat
  pub status : ProcFile
  pub meminfo : ProcFile
  pub stat : ProcFile

-- `xs[i]`
abbrev pub item {ℓ} : {A : Type ℓ} → ℕ → List A → Option A
item i xs = elim (drop i xs) [ [] ↦ none | x ∷ _ ↦ some x ]

module _ {S A : Type 0} where
  -- A value, or the exception that its absence is.
  abbrev pub demand : Error → Option A → Exec S A
  demand e none = throw e
  demand e (some a) = pure a

-- `if os.path.exists(path): with open(path) as f: …`
abbrev pub with_file :
    {S : Type 0} → ProcFile → (List String → Exec S (Unit {0})) → Exec S (Unit {0})
with_file absent body = pure tt
with_file unreadable body = throw os_error
with_file (lines ls) body = body ls

-- `meminfo[parts[0].rstrip(":")] = int(parts[1])`, if there are two parts.
unfoldable pub store_number : {S : Type 0} → List String → Dict ℕ → Exec S (Dict ℕ)
unfolding int_of rstrip_colons Dict.insert
store_number [] info = pure info
store_number (key ∷ []) info = pure info
store_number (key ∷ n ∷ _) info = do
  number ← demand value_error (int_of n)
  pure (Dict.insert (rstrip_colons key) number info)

-- The loop over the lines of /proc/meminfo.
unfoldable pub parse_meminfo : {S : Type 0} → List String → Dict ℕ → Exec S (Dict ℕ)
unfolding store_number words
parse_meminfo [] info = pure info
parse_meminfo (line ∷ ls) info = do info' ← store_number (words line) info; parse_meminfo ls info'

-- `sum(int(p) for p in parts)`
unfoldable pub sum_ints : {S : Type 0} → List String → Exec S ℕ
unfolding int_of
sum_ints [] = pure 0
sum_ints (p ∷ ps) = do n ← demand value_error (int_of p); rest ← sum_ints ps; pure (n + rest)

module _ {F : Type 0} (fl : Float F) where
  open fl use {fsub, fmul, fdiv, of_ℕ}

  -- `ResourceSnapshot()`
  abbrev pub blank : ResourceSnapshot F
  blank = record {
    watchtower_cpu_percent = of_ℕ 0;
    watchtower_memory_mb = of_ℕ 0;
    system_cpu_percent = of_ℕ 0;
    system_memory_percent = of_ℕ 0;
  }

  -- `(1 - part / total) * 100`
  abbrev pub share_used : ℕ → ℕ → F
  share_used part total = fmul (fsub (of_ℕ 1) (fdiv (of_ℕ part) (of_ℕ total))) (of_ℕ 100)

  -- `kb = int(line.split()[1])`, in megabytes.
  unfoldable pub set_memory : String → Exec (ResourceSnapshot F) (Unit {0})
  unfolding words int_of
  set_memory line = do
    word ← demand index_error (item 1 (words line))
    kb ← demand value_error (int_of word)
    modify (λ snap. record snap { watchtower_memory_mb = fdiv (of_ℕ kb) (of_ℕ 1024) })

  -- The loop over the lines of /proc/self/status, which ends at the first of VmRSS.
  unfoldable pub read_status : List String → Exec (ResourceSnapshot F) (Unit {0})
  unfolding set_memory
  read_status [] = pure tt
  read_status (line ∷ ls) =
      let rest = read_status ls in if starts_with line "VmRSS:" then set_memory line else rest

  -- `1 - available / total`, which raises where the total is 0.
  abbrev pub put_memory : Dict ℕ → Exec (ResourceSnapshot F) (Unit {0})
  put_memory info =
      let total = get_or "MemTotal" 1 info in
      let available = get_or "MemAvailable" total info in
      if ltb 0 total
      then modify (λ snap. record snap { system_memory_percent = share_used available total })
      else throw zero_division_error

  unfoldable pub read_meminfo : List String → Exec (ResourceSnapshot F) (Unit {0})
  unfolding parse_meminfo Dict.lookup
  read_meminfo ls = do info ← parse_meminfo ls []; put_memory info

  -- `if total > 0: snapshot.system_cpu_percent = …`
  abbrev pub put_cpu : ℕ → ℕ → Exec (ResourceSnapshot F) (Unit {0})
  put_cpu idle total =
      if ltb 0 total
      then modify (λ snap. record snap { system_cpu_percent = share_used idle total })
      else pure tt

  unfoldable pub set_cpu : List String → Exec (ResourceSnapshot F) (Unit {0})
  unfolding sum_ints int_of
  set_cpu parts = do
    word ← demand index_error (item 4 parts)
    idle ← demand value_error (int_of word)
    total ← sum_ints (drop 1 parts)
    put_cpu idle total

  -- The first line of /proc/stat; `readline` of an empty file is the empty text.
  unfoldable pub read_stat : List String → Exec (ResourceSnapshot F) (Unit {0})
  unfolding set_cpu words
  read_stat ls =
      let parts = words (elim ls [ [] ↦ "" | line ∷ _ ↦ line ]) in
      if leb 5 (length parts) then set_cpu parts else pure tt

  -- The body of the `try` of `_read_resources`.
  unfoldable pub read_all : Proc → Exec (ResourceSnapshot F) (Unit {0})
  unfolding read_status read_meminfo read_stat
  read_all proc = do
    with_file proc.status read_status
    with_file proc.meminfo read_meminfo
    with_file proc.stat read_stat

  -- `except (OSError, ValueError, IndexError): pass`, and `return snapshot`.
  abbrev pub forgiven : Result (Unit {0}) → ResourceSnapshot F → Result (ResourceSnapshot F)
  forgiven (ok _) snap = ok snap
  forgiven (raise os_error) snap = ok snap
  forgiven (raise value_error) snap = ok snap
  forgiven (raise index_error) snap = ok snap
  forgiven (raise zero_division_error) snap = raise zero_division_error
  forgiven (raise integrity_error) snap = raise integrity_error
  forgiven (raise operational_error) snap = raise operational_error
  forgiven (raise runtime_error) snap = raise runtime_error
  forgiven (raise rpc_error) snap = raise rpc_error

  -- `_read_resources`
  unfoldable pub read_resources : Proc → Result (ResourceSnapshot F)
  unfolding read_all
  read_resources proc = let (r, snap) = read_all proc blank in forgiven r snap

  -- `update()`, which reads the snapshot itself.
  unfoldable pub update_from : Proc → Exec (Governor F) (Unit {0})
  unfolding read_resources update
  update_from proc g = elim (read_resources proc) [
    | ok snap ↦ (ok tt, update fl snap g)
    | raise e ↦ (raise e, g)
  ]

pub record Status (F : Type 0) : Type 0 where
  pub state : String
  pub snapshot : ResourceSnapshot F
  pub poll_interval_multiplier : ℕ
  pub investigations_deferred : ℕ
  pub state_changes : ℕ

-- `get_status`
unfoldable pub get_status : {F : Type 0} → Governor F → Status F
get_status g = record {
  state = value g.state;
  snapshot = g.last_snapshot;
  poll_interval_multiplier = g.poll_interval_multiplier;
  investigations_deferred = g.investigations_deferred;
  state_changes = g.total_state_changes;
}
