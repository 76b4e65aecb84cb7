-- ===== src/Config/Instance.antt =====
-- config.py: the defaults and converters of the global configuration, and the instance
-- configuration that overrides it.
pub mod Overrides
use asusrouter.Base.{false, Option, none, some, List, [], ◌∷◌, if◌then◌else◌}
use asusrouter.Base.Int.{ℤ, pos}
use asusrouter.Base.Text.{Text}
use asusrouter.Base.Dict.{Dict, lookup, insert, erase, contains}
use asusrouter.Tools.Converters.{Value, null, bool, int, safe_bool, safe_int}
use asusrouter.Tools.Security.{level_value, default_level, level_from_value}
use asusrouter.Config.{ConfigBase, reset, get, or_else}
use asusrouter.Config.Keys.{
  config_key, ConfigKey, debug_payload, optimistic_data, optimistic_temperature,
  notified_optimistic_temperature, robust_boottime, config_keys,
}

unfoldable pub safe_bool_config : Value → Value
unfolding safe_bool
safe_bool_config v = bool (or_else (safe_bool v) false)

unfoldable pub safe_int_config : (Text → Option ℤ) → Value → ℤ
unfolding safe_int
safe_int_config float_int v = or_else (safe_int float_int v none) (pos 0)

-- `CONFIG_DEFAULT`
unfoldable pub config_default : Dict ConfigKey Value
config_default =
    (debug_payload, int (level_value default_level))
    ∷ (optimistic_data, bool false)
    ∷ (optimistic_temperature, bool false)
    ∷ (notified_optimistic_temperature, bool false)
    ∷ (robust_boottime, bool false)
    ∷ []

-- `TYPES_DEFAULT`
unfoldable pub types_default : (Text → Option ℤ) → ConfigKey → Value → Value
types_default float_int debug_payload v = int (level_value (level_from_value float_int v))
types_default float_int _ v = safe_bool_config v

-- `defaults or CONFIG_DEFAULT`
abbrev pub or_default : {A : Type 0} → List A → List A → List A
or_default [] d = d
or_default (x ∷ xs) d = x ∷ xs

module _ (float_int : Text → Option ℤ) where
  -- The loop of `ARGlobalConfig.reset` over the keys of the enum.
  global_loop :
      List ConfigKey
      → Dict ConfigKey Value
      → ConfigBase ConfigKey Value
      → ConfigBase ConfigKey Value
  global_loop [] defaults c = c
  global_loop (k ∷ ks) defaults c = global_loop ks defaults (record {
    options = insert k (or_else (lookup k defaults) null) c.options;
    types = insert k (types_default float_int k) c.types;
  })

  -- `ARGlobalConfig.reset`
  unfoldable pub global_reset : Dict ConfigKey Value → ConfigBase ConfigKey Value
  unfolding global_loop config_default reset
  global_reset defaults = global_loop config_keys (or_default defaults config_default) reset

  -- The loop of `ARInstanceConfig.reset` over the given defaults.
  unfoldable pub instance_loop :
      Dict ConfigKey Value → ConfigBase ConfigKey Value → ConfigBase ConfigKey Value
  instance_loop [] c = c
  instance_loop ((k, v) ∷ d) c = instance_loop d (record {
    options = insert k (types_default float_int k v) c.options;
    types = insert k (types_default float_int k) c.types;
  })

  -- `ARInstanceConfig.reset`
  unfoldable pub instance_reset : Dict ConfigKey Value → ConfigBase ConfigKey Value
  unfolding instance_loop reset
  instance_reset defaults = instance_loop defaults reset

-- `ARInstanceConfig.get`: the instance's option, else the global one.
unfoldable pub instance_get :
    ConfigKey → ConfigBase ConfigKey Value → ConfigBase ConfigKey Value → Option Value
unfolding get
instance_get k c global = elim (lookup k c.options) [ some v ↦ some v | none ↦ get k global ]

-- `ARInstanceConfig.remove`
unfoldable pub remove : ConfigKey → ConfigBase ConfigKey Value → ConfigBase ConfigKey Value
remove k c =
    if contains k c.options
    then record { options = erase k c.options; types = erase k c.types }
    else c
