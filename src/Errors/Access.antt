-- ===== src/Errors/Access.antt =====
-- asusrouter/modules/endpoint/error.py: `handle_access_error`, on the JSON object that the body of a
-- response holds.
pub mod Accepts
use asusrouter.Base.{
  ℕ, zero, Bool, true, false, ◌||◌, Option, none, some, [], ◌∷◌, ◌==◌, if◌then◌else◌,
}
use asusrouter.Base.Int.{ℤ, pos, negsuc}
use asusrouter.Base.Text.{Text, strip}
use asusrouter.Tools.Converters.{Value, null, bool, int, text, safe_int, int_10}
use asusrouter.Errors.{
  AccessError, unknown_error, success, no_error, no_token, authorization, credentials, no_referer,
  web_no_referer, referer_failed, try_again, logout_code, another, captcha, reset_required,
  request_format, access, logged_out, value_error, Result, ok, err,
}

-- The fields of the message that are read; a missing one is `None`.
pub record Message : Type 0 where
  pub error_status : Value
  pub remaining_lock_time : Value

-- `AccessError(n)` for n from 0 to 11.
small_code : ℕ → Option AccessError
small_code n =
    if n == 0
    then some no_error
    else if n == 1
    then some no_token
    else if n == 2
    then some authorization
    else if n == 3
    then some credentials
    else if n == 4
    then some no_referer
    else if n == 5
    then some web_no_referer
    else if n == 6
    then some referer_failed
    else if n == 7
    then some try_again
    else if n == 8
    then some logout_code
    else if n == 9
    then some another
    else if n == 10
    then some captcha
    else if n == 11
    then some reset_required
    else if n == 200
    then some success
    else none

-- `AccessError(error_status)`, and `UNKNOWN` on `ValueError`.
unfoldable pub access_error : ℤ → AccessError
unfolding small_code
access_error (pos n) = elim (small_code n) [ none ↦ unknown_error | some e ↦ e ]
access_error (negsuc n) = unknown_error

-- `if timeout: attributes["timeout"] = int(timeout)`
lock_time : Value → Result (Option ℤ)
lock_time null = ok none
lock_time (bool true) = ok (some (pos 1))
lock_time (bool false) = ok none
lock_time (int (pos zero)) = ok none
lock_time (int z) = ok (some z)
lock_time (text []) = ok none
lock_time (text (c ∷ s)) = elim (int_10 (strip (c ∷ s))) [
  | none ↦ err value_error
  | some z ↦ ok (some z)
]

raise_access : AccessError → Result (Option ℤ) → Result (Unit {0})
raise_access e (ok t) = err (access (some (e, t)))
raise_access e (err x) = err x

by_code : AccessError → Message → Result (Unit {0})
unfolding lock_time raise_access
by_code success m = ok tt
by_code logout_code m = err logged_out
by_code try_again m = raise_access try_again (lock_time m.remaining_lock_time)
by_code e m = err (access (some (e, none)))

is_format_error : ℤ → Bool
is_format_error (pos n) = (n == 4002) || (n == 4003)
is_format_error (negsuc n) = false

by_status : ℤ → Message → Result (Unit {0})
unfolding is_format_error by_code access_error
by_status z m = if is_format_error z then err request_format else by_code (access_error z) m

-- A text that is no number, and a missing status, count as -999.
status_of : Option ℤ → ℤ
status_of none = negsuc 998
status_of (some z) = z

unfoldable pub handle_access_error : (Text → Option ℤ) → Message → Result (Unit {0})
unfolding by_status status_of safe_int
handle_access_error float_int m =
    by_status (status_of (safe_int float_int m.error_status (some (negsuc 998)))) m
