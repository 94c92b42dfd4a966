-- ===== src/Examples/Settings.antt =====
-- A configuration file with two overrides.
use sonic_watchtower.Prelude.{ℕ, ◌≡◌, refl, some, none, [], ◌∷◌}
use sonic_watchtower.Prelude.Exec.{ok, raise, value_error}
use sonic_watchtower.Prelude.Float.{exact}
use sonic_watchtower.Config.{default_config, post_init}
use sonic_watchtower.Config.Merge.{
  Fields, end, field, text, int, null, mapping, section, get, fields_of, missing, content,
  load_config,
}
use sonic_watchtower.Config.Merge.Paths.{names, value_at, DistinctIn}
use sonic_watchtower.Config.Merge.Overriding.{load_config_branches, load_config-auto}

-- hostname: auto, banner: {max_lines: 40}, colour: 3
abbrev overrides : Fields ℕ
overrides =
    field "hostname" (text "auto")
      (field "banner" (mapping (field "max_lines" (int 40) end)) (field "colour" (int 3) end))

load_config_branches_example :
    let defaults = fields_of (default_config exact "leaf1") in
    (load_config exact "leaf1" none ≡ ok defaults)
    × (load_config exact "leaf1" (some missing) ≡ ok defaults)
    × (load_config exact "leaf1" (some (content (ok null))) ≡ ok defaults)
    × (load_config exact "leaf1" (some (content (raise value_error))) ≡ raise value_error)
    × ((loaded : Fields ℕ) × (load_config exact "leaf1" (some (content (ok (mapping overrides))))
          ≡ ok loaded)
        × (names loaded ≡ names defaults)
        × (value_at ("banner" ∷ "max_lines" ∷ []) (section loaded) ≡ some (int 40)))
unfolding get DistinctIn
load_config_branches_example =
    load_config_branches exact "leaf1" ("banner" ∷ "max_lines" ∷ []) overrides null value_error
      (refl, tt, (refl, (refl, tt, tt), (refl, tt, tt))) refl

load_config-auto_example :
    ((loaded : Fields ℕ) × (load_config exact "leaf1" none ≡ ok loaded)
      × (get "hostname" loaded ≡ some (text "leaf1")))
    × ((post_init exact "leaf1"
          (record (default_config exact "leaf1") { hostname = "auto" })).hostname
        ≡ "leaf1")
    × ((loaded : Fields ℕ) × (load_config exact "leaf1" (some (content (ok (mapping overrides))))
          ≡ ok loaded)
        × (get "hostname" loaded ≡ some (text "auto")))
unfolding get DistinctIn
load_config-auto_example =
    load_config-auto exact "leaf1" (default_config exact "leaf1") overrides
      (refl, tt, (refl, (refl, tt, tt), (refl, tt, tt))) refl
