-- ===== src/ConnectionConfig/Refinement.antt =====
-- connection_config.py: the option store and its view as a function agree.
use asusrouter.Base.{◌≡◌, refl, Option, some}
use asusrouter.Base.Int.{ℤ}
use asusrouter.Base.Text.{Text}
use asusrouter.Base.Dict.{Dict, lookup, insert}
use asusrouter.Tools.Converters.{Value, null}
use asusrouter.Config.{ConfigBase, get, or_else}
use asusrouter.Config.Keys.{ConnectionKey, ConnectionKey-discrete, connection_key, allow_fallback}
use asusrouter.Config.Instance.{or_default}
use asusrouter.ConnectionConfig.{Options, converter, connection_reset, connection_config_default}

module _ (float_int : Text → Option ℤ) where
  -- The store holds every key, with the value that the view has and the converter of the key.
  abbrev pub Represents : ConfigBase ConnectionKey Value → Options → Type 0
  Represents c o =
      (k : ConnectionKey)
      → (get k c ≡ some (o k)) × (lookup k c.types ≡ some (converter float_int k))

  -- What `reset` makes of its argument.
  abbrev pub initial : Dict ConnectionKey Value → Options
  initial defaults k = or_else (lookup k (or_default defaults connection_config_default)) null

  -- After a reset, with or without defaults, the store holds every key.
  pub reset-Represents :
      (defaults : Dict ConnectionKey Value)
      → Represents (connection_reset float_int defaults) (initial defaults)
  unfolding connection_reset lookup insert get ConnectionKey-discrete
  reset-Represents defaults allow_fallback = (refl, refl)
  reset-Represents defaults k = (refl, refl)
