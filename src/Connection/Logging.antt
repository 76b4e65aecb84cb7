-- ===== src/Connection/Logging.antt =====
-- connection.py: `_payload_for_logging`, which decides what of a request may appear in a log.
use asusrouter.Base.{
  Bool-cases, ◌≡◌, ◌≢◌, ◌⊎◌, inl, inr, refl, Bool, true, false, ◌||◌, Option, none, some,
  Option-cases, arith, if◌then◌else◌,
}
use asusrouter.Base.Int.{ℤ}
use asusrouter.Base.Text.{Text, codes}
use asusrouter.Tools.Converters.{Value, clean_string}
use asusrouter.Tools.Security.{
  SecurityLevel, strict, sanitized, unsafe, level_from_value, at_least_sanitized,
}
use asusrouter.Endpoint.{Endpoint, is_login, is_sensitive_endpoint}

-- `sanitize_data`
unfoldable pub sanitize_data : Text → Text
sanitize_data payload = codes "[SANITIZED PLACEHOLDER]"

is_strict : SecurityLevel → Bool
is_strict strict = true
is_strict _ = false

is_sanitized : SecurityLevel → Bool
is_sanitized sanitized = true
is_sanitized _ = false

pub clean_payload : Option Text → Option Text
clean_payload none = none
clean_payload (some p) = clean_string p

by_sensitivity : SecurityLevel → Endpoint → Option Text → Option Text
unfolding is_sanitized
by_sensitivity l endpoint none = none
by_sensitivity l endpoint (some p) =
    if is_sensitive_endpoint endpoint
    then (if at_least_sanitized l
        then (if is_sanitized l then some (sanitize_data p) else some p)
        else none)
    else some p

unfoldable pub by_level : SecurityLevel → Endpoint → Option Text → Option Text
unfolding is_strict clean_payload by_sensitivity
by_level l endpoint payload =
    if is_strict l || is_login endpoint
    then none
    else by_sensitivity l endpoint (clean_payload payload)

-- `_payload_for_logging`
unfoldable pub payload_for_logging :
    (Text → Option ℤ) → Value → Endpoint → Option Text → Option Text
unfolding by_level
payload_for_logging float_int level = by_level (level_from_value float_int level)

-- What an entry says of what it was made from.
abbrev pub Allowed : SecurityLevel → Endpoint → Option Text → Type 0
Allowed l endpoint logged =
    (is_sensitive_endpoint endpoint ≡ false)
    ⊎ (l ≡ unsafe)
    ⊎ ((l ≡ sanitized) × (logged ≡ some (codes "[SANITIZED PLACEHOLDER]")))

sensitive-Allowed :
    (l : SecurityLevel) (endpoint : Endpoint) (p : Text)
    → is_sensitive_endpoint endpoint ≡ true
    → (by_sensitivity l endpoint (some p) ≡ none)
      ⊎ Allowed l endpoint (by_sensitivity l endpoint (some p))
unfolding by_sensitivity at_least_sanitized sanitize_data
sensitive-Allowed unsafe endpoint p s = inr (inr (inl refl))
sensitive-Allowed sanitized endpoint p s = rw s (inr (inr (inr (refl, refl))))
sensitive-Allowed _ endpoint p s = rw s (inl refl)

by_sensitivity-Allowed :
    (l : SecurityLevel) (endpoint : Endpoint) (o : Option Text)
    → (by_sensitivity l endpoint o ≡ none) ⊎ Allowed l endpoint (by_sensitivity l endpoint o)
unfolding by_sensitivity
by_sensitivity-Allowed l endpoint none = inl refl
by_sensitivity-Allowed l endpoint (some p) = elim (Bool-cases (is_sensitive_endpoint endpoint)) [
  | inl s ↦ sensitive-Allowed l endpoint p s
  | inr s ↦ inr (inl s)
]

by_level-Allowed :
    (l : SecurityLevel) (endpoint : Endpoint) (o : Option Text)
    → (by_level l endpoint o ≡ none)
      ⊎ ((is_login endpoint ≡ false) × (l ≢ strict) × Allowed l endpoint (by_level l endpoint o))
unfolding by_level
by_level-Allowed strict endpoint o = inl refl
by_level-Allowed l endpoint o = ground (arith, by_sensitivity-Allowed l endpoint (clean_payload o))

-- Whatever is logged of a request, it is not a login, the level is not STRICT, and either the
-- request is not sensitive, or the level is UNSAFE, or it is SANITIZED and the placeholder is logged.
pub payload_for_logging_safe :
    (float_int : Text → Option ℤ) (level : Value) (endpoint : Endpoint) (payload : Option Text)
    → let l = level_from_value float_int level in
      let logged = payload_for_logging float_int level endpoint payload in
      (logged ≡ none) ⊎ ((is_login endpoint ≡ false) × (l ≢ strict) × Allowed l endpoint logged)
unfolding payload_for_logging
payload_for_logging_safe float_int level endpoint payload =
    by_level-Allowed (level_from_value float_int level) endpoint payload

-- At the level UNSAFE, and at any level but STRICT for a request that is not sensitive, the cleaned
-- payload of a request that is no login is logged as it is.
pub payload_for_logging_verbatim :
    (float_int : Text → Option ℤ) (level : Value) (endpoint : Endpoint) (payload : Option Text)
    → is_login endpoint ≡ false
    → (level_from_value float_int level ≡ unsafe)
      ⊎ ((is_sensitive_endpoint endpoint ≡ false) × (level_from_value float_int level ≢ strict))
    → payload_for_logging float_int level endpoint payload ≡ clean_payload payload
unfolding payload_for_logging at_least_sanitized
payload_for_logging_verbatim float_int level endpoint payload h p =
    ground (arith, Option-cases (clean_payload payload))
