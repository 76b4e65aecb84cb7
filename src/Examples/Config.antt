-- ===== src/Examples/Config.antt =====
-- config.py and connection_config.py at concrete keys and values.
use asusrouter.Base.{◌≡◌, refl, ite, true, false, Option, none, some, [], ◌∷◌}
use asusrouter.Base.Int.{ℤ, pos}
use asusrouter.Base.Text.{Text, codes}
use asusrouter.Base.Dict.{Dict, lookup, insert, IsDict}
use asusrouter.Tools.Converters.{Value, null, bool, int, text}
use asusrouter.Config.{ConfigBase, set, get, has_key, or_else}
use asusrouter.Config.Laws.{get-set}
use asusrouter.Config.Keys.{
  ConfigKey, ConfigKey-discrete, config_key, debug_payload, optimistic_data, robust_boottime,
  ConnectionKey, connection_key, use_ssl, port,
}
use asusrouter.Config.Instance.{safe_bool_config}

abbrev no_floats : Text → Option ℤ
no_floats s = none

abbrev one_option : ConfigBase ConfigKey Value
one_option = record {
  options = (robust_boottime, bool false) ∷ [];
  types = (robust_boottime, safe_bool_config) ∷ [];
}

abbrev one_set : ConfigBase ConfigKey Value
one_set = record one_option {
  options = insert robust_boottime (safe_bool_config (text (codes "on"))) one_option.options;
}

one_set_eq : set safe_bool_config null robust_boottime (text (codes "on")) one_option ≡ some one_set
unfolding set lookup ConfigKey-discrete
one_set_eq = refl

get-set_example :
    (get optimistic_data one_set
      ≡ ite
          (ConfigKey-discrete robust_boottime optimistic_data)
          (some (
            or_else (lookup robust_boottime one_option.types) safe_bool_config (text (codes "on"))))
          (get optimistic_data one_option))
    × (has_key optimistic_data one_set ≡ has_key optimistic_data one_option)
    × (one_set.types ≡ one_option.types)
get-set_example =
    get-set safe_bool_config null robust_boottime optimistic_data (text (codes "on")) one_option
      one_set_eq

abbrev overrides : Dict ConfigKey Value
overrides = (debug_payload, text (codes "strict")) ∷ []

overrides-IsDict : IsDict overrides
unfolding lookup
overrides-IsDict = (refl, tt)

one_option-IsDict : IsDict one_option.options
unfolding lookup
one_option-IsDict = (refl, tt)

abbrev connection_options : Dict ConnectionKey Value
connection_options = (use_ssl, bool true) ∷ (port, int (pos 8443)) ∷ []
