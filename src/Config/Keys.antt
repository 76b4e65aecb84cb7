-- ===== src/Config/Keys.antt =====
-- config.py and connection_config.py: the keys of the two configurations, as enums.
use asusrouter.Base.{List, [], ◌∷◌}
use asusrouter.Base.Dict.{Key}

-- `ARConfigKey`
pub data ConfigKey : Type 0 where
  debug_payload optimistic_data optimistic_temperature : ConfigKey
  notified_optimistic_temperature robust_boottime : ConfigKey

unfoldable pub ConfigKey-discrete : Discrete ConfigKey
ConfigKey-discrete = hlevel

instance abbrev pub config_key : Key ConfigKey
config_key = record { same = ConfigKey-discrete }

abbrev pub config_keys : List ConfigKey
config_keys =
    debug_payload ∷ optimistic_data ∷ optimistic_temperature ∷ notified_optimistic_temperature
    ∷ robust_boottime ∷ []

-- `ARConnectionConfigKey`
pub data ConnectionKey : Type 0 where
  allow_fallback allow_multiple_fallbacks allow_upgrade_http_to_https port : ConnectionKey
  strict_ssl notified_strict_ssl_no_ssl use_ssl verify_ssl notified_verify_ssl_failed :
      ConnectionKey

unfoldable pub ConnectionKey-discrete : Discrete ConnectionKey
ConnectionKey-discrete = hlevel

instance abbrev pub connection_key : Key ConnectionKey
connection_key = record { same = ConnectionKey-discrete }

abbrev pub connection_keys : List ConnectionKey
connection_keys =
    allow_fallback ∷ allow_multiple_fallbacks ∷ allow_upgrade_http_to_https ∷ port ∷ strict_ssl
    ∷ notified_strict_ssl_no_ssl ∷ use_ssl ∷ verify_ssl ∷ notified_verify_ssl_failed ∷ []
