-- ===== src/Config/Merge/Overriding.antt =====
-- `load_config` of config.py: which settings a file changes.
use sonic_watchtower.Prelude.{String, ◌≡◌, refl, ap, ◌∙◌, Bool, true, false, none, some, List}
use sonic_watchtower.Prelude.Exec.{Error, ok, raise}
use sonic_watchtower.Prelude.Float.{Float}
use sonic_watchtower.Config.{WatchtowerConfig, default_config, post_init}
use sonic_watchtower.Config.Merge.{
  Object, Fields, null, flag, int, float, text, sequence, mapping, section, get, merge, assign,
  fields_of, missing, content, load_config,
}
use sonic_watchtower.Config.Merge.Paths.{
  AllDistinct, DistinctIn, merged, names, distinct_keys, names-merge, get-merge, value_at, given,
  value_at-assign,
}

module _ {F : Type 0} where
  hostname_taken :
      (fl : Float F) (system_name : String)
      → merged (get "hostname" (fields_of (default_config fl system_name))) (some (text "auto"))
        ≡ some (text "auto")
  unfolding get assign
  hostname_taken fl system_name = refl

  abbrev pub is_mapping : Object F → Bool
  is_mapping (mapping fs) = true
  is_mapping raw = false

  load_config-other :
      (fl : Float F) (system_name : String) (raw : Object F)
      → is_mapping raw ≡ false
      → load_config fl system_name (some (content (ok raw)))
        ≡ ok (fields_of (default_config fl system_name))
  unfolding load_config
  load_config-other fl system_name (mapping fs) h = absurd (cc h)
  load_config-other fl system_name null h = refl
  load_config-other fl system_name (flag b) h = refl
  load_config-other fl system_name (int n) h = refl
  load_config-other fl system_name (float x) h = refl
  load_config-other fl system_name (text t) h = refl
  load_config-other fl system_name (sequence xs) h = refl
  load_config-other fl system_name (section fs) h = refl

  -- Where the settings come from, for every outcome of reading the file: the defaults, if there is
  -- no path, no file or no mapping in it; the defaults with the overrides of the file; or the
  -- exception of YAML. With overrides there are the settings that the defaults have, at the top and
  -- no others, and each value in any section is the one that the file gives for its path, where a
  -- value of the file that is no mapping, or stands for no section, replaces all that is under it,
  -- and the default where the file gives none.
  pub load_config_branches :
      (fl : Float F) (system_name : String) (path : List String) (overrides : Fields F)
      (raw : Object F) (e : Error)
      → DistinctIn overrides
      → is_mapping raw ≡ false
      → let defaults = fields_of (default_config fl system_name) in
        (load_config fl system_name none ≡ ok defaults)
        × (load_config fl system_name (some missing) ≡ ok defaults)
        × (load_config fl system_name (some (content (ok raw))) ≡ ok defaults)
        × (load_config fl system_name (some (content (raise e))) ≡ raise e)
        × ((loaded : Fields F) × (load_config fl system_name
                (some (content (ok (mapping overrides))))
              ≡ ok loaded)
            × (names loaded ≡ names defaults)
            × (value_at path (section loaded) ≡ given (section defaults) (mapping overrides) path))
  unfolding load_config
  load_config_branches fl system_name path overrides raw e u other =
      let defaults = fields_of (default_config fl system_name) in
      (
        refl,
        refl,
        load_config-other fl system_name raw other,
        refl,
        (
          merge defaults overrides,
          refl,
          names-merge defaults overrides,
          value_at-assign (section defaults) (mapping overrides) path (unfold AllDistinct in u),
        ),
      )

  -- The configuration made without a file has the system's name for its host name, as has any whose
  -- host name is set to "auto" before `__post_init__`; the one of a file that says `hostname: auto`
  -- has the name "auto".
  pub load_config-auto :
      (fl : Float F) (system_name : String) (c : WatchtowerConfig F) (overrides : Fields F)
      → DistinctIn overrides
      → get "hostname" overrides ≡ some (text "auto")
      → ((loaded : Fields F) × (load_config fl system_name none ≡ ok loaded)
          × (get "hostname" loaded ≡ some (text system_name)))
        × ((post_init fl system_name (record c { hostname = "auto" })).hostname ≡ system_name)
        × ((loaded : Fields F) × (load_config fl system_name
                (some (content (ok (mapping overrides))))
              ≡ ok loaded)
            × (get "hostname" loaded ≡ some (text "auto")))
  unfolding load_config get
  load_config-auto fl system_name c overrides u auto =
      let defaults = fields_of (default_config fl system_name) in
      (
        (defaults, refl, refl),
        refl,
        (
          merge defaults overrides,
          refl,
          get-merge "hostname" defaults overrides (distinct_keys overrides u)
              ∙ ap (merged (get "hostname" defaults)) auto
              ∙ hostname_taken fl system_name,
        ),
      )
