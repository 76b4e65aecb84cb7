-- ===== src/Errors.antt =====
-- asusrouter/error.py, and the access errors of asusrouter/modules/endpoint/error.py.
pub mod Access
use asusrouter.Base.{Bool, true, false, Option}
use asusrouter.Base.Int.{ℤ}

-- `AccessError`, an `IntEnum`.
pub data AccessError : Type 0 where
  unknown_error success no_error no_token authorization credentials no_referer : AccessError
  web_no_referer referer_failed try_again logout_code another captcha reset_required : AccessError

-- The exceptions of the library, each class of error.py by its name; an access error carries the
-- arguments that `handle_access_error` gives it, the timeout among them. `value_error` is Python's.
pub data Error : Type 0 where
  data_error request_format connection_error timeout ssl_certificate not_found identity : Error
  access : Option (AccessError × Option ℤ) → Error
  logged_out service not_implemented : Error
  fallback_failed fallback_forbidden fallback_loop : Error
  value_error : Error
  -- any other exception, which passes through unchanged
  unexpected : Error

-- The subclasses of `AsusRouterError`.
abbrev pub is_asusrouter_error : Error → Bool
is_asusrouter_error value_error = false
is_asusrouter_error unexpected = false
is_asusrouter_error _ = true

-- The subclasses of `AsusRouterFallbackError`.
abbrev pub is_fallback_error : Error → Bool
is_fallback_error fallback_failed = true
is_fallback_error fallback_forbidden = true
is_fallback_error fallback_loop = true
is_fallback_error _ = false

pub data Result (A : Type 0) : Type 0 where
  ok : A → Result A
  err : Error → Result A
