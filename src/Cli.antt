-- ===== src/Cli.antt =====
-- cli/main.py: the commands of `watchtower show`, as the texts that they echo. A timestamp is a text
-- of the database there; here `time_text` gives it. The options come parsed, and the group's callback
-- has loaded the configuration.
pub mod Findings
pub mod Tables
pub mod Listing
use sonic_watchtower.Prelude.{ℕ, String, ◌<>◌, Bool, Option, none, some, List, [], ◌∷◌, ◌++◌}
use sonic_watchtower.Prelude.Dict
use sonic_watchtower.Prelude.Dict.{Dict, get_or}
use sonic_watchtower.Prelude.Text.{decimal}

-- The arguments of `click.echo` in order, and whether the journal was closed at the end.
pub record Shown : Type 0 where
  pub echoed : List String
  pub closed : Bool

-- `(a critical, b warning, c info)`
unfoldable pub severity_counts : Dict ℕ → String
unfolding Dict.lookup decimal
severity_counts counts =
    "("
    <> decimal (get_or "critical" 0 counts)
    <> " critical, "
    <> decimal (get_or "warning" 0 counts)
    <> " warning, "
    <> decimal (get_or "info" 0 counts)
    <> " info)"

-- `x or default`, and what `f"{x}"` gives of a time that may be NULL.
abbrev pub time_or : (ℕ → String) → String → Option ℕ → String
time_or time_text default none = default
time_or time_text default (some t) = time_text t

-- The texts that a loop over rows echoes.
unfoldable pub echo_each {ℓ} : {A : Type ℓ} → (A → List String) → List A → List String
echo_each row [] = []
echo_each row (x ∷ xs) = row x ++ echo_each row xs
