-- ===== src/ConnectionConfig.antt =====
-- asusrouter/connection_config.py: the options of a connection. The store is that of config.py; as
-- every key of the enum is set from the start and none is ever removed, the rest of the development
-- uses its view as a function from keys to values, which `Refinement` justifies.
pub mod Refinement
use asusrouter.Base.{true, false, Option, none, some, List, [], ◌∷◌, ite}
use asusrouter.Base.Int.{ℤ, pos}
use asusrouter.Base.Text.{Text}
use asusrouter.Base.Dict.{Dict, lookup, insert}
use asusrouter.Tools.Converters.{Value, null, bool, int}
use asusrouter.Config.{ConfigBase, reset, or_else}
use asusrouter.Config.Keys.{
  ConnectionKey, ConnectionKey-discrete, connection_key, connection_keys, allow_fallback,
  allow_multiple_fallbacks, allow_upgrade_http_to_https, port, strict_ssl,
  notified_strict_ssl_no_ssl, use_ssl, verify_ssl, notified_verify_ssl_failed,
}
use asusrouter.Config.Instance.{safe_bool_config, safe_int_config, or_default}

-- `CONNECTION_CONFIG_DEFAULT`
unfoldable pub connection_config_default : Dict ConnectionKey Value
connection_config_default =
    (allow_fallback, bool false)
    ∷ (allow_multiple_fallbacks, bool false)
    ∷ (allow_upgrade_http_to_https, bool true)
    ∷ (port, int (pos 0))
    ∷ (strict_ssl, bool false)
    ∷ (notified_strict_ssl_no_ssl, bool false)
    ∷ (use_ssl, bool false)
    ∷ (verify_ssl, bool false)
    ∷ (notified_verify_ssl_failed, bool false)
    ∷ []

-- The options as a function.
abbrev pub Options : Type 0
Options = ConnectionKey → Value

module _ (float_int : Text → Option ℤ) where
  -- `CONNECTION_CONFIG_TYPES_DEFAULTS`
  unfoldable pub converter : ConnectionKey → Value → Value
  converter port v = int (safe_int_config float_int v)
  converter _ v = safe_bool_config v

  reset_loop :
      List ConnectionKey
      → Dict ConnectionKey Value
      → ConfigBase ConnectionKey Value
      → ConfigBase ConnectionKey Value
  reset_loop [] defaults c = c
  reset_loop (k ∷ ks) defaults c = reset_loop ks defaults (record {
    options = insert k (or_else (lookup k defaults) null) c.options;
    types = insert k (converter k) c.types;
  })

  -- `ARConnectionConfig.reset`, which `__init__` calls.
  unfoldable pub connection_reset : Dict ConnectionKey Value → ConfigBase ConnectionKey Value
  unfolding reset_loop connection_config_default reset
  connection_reset defaults =
      reset_loop connection_keys (or_default defaults connection_config_default) reset

  -- `config.set(key, value)` on the view.
  unfoldable pub set_option : ConnectionKey → Value → Options → Options
  set_option k v o j = ite (ConnectionKey-discrete k j) (converter k v) (o j)
