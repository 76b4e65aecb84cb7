-- ===== src/Examples/Connection.antt =====
-- connection.py at concrete connections and networks.
use asusrouter.Base.{
  ◌↔◌, ◌≡◌, ◌≢◌, ◌⊎◌, inr, refl, ltb, if◌then◌else◌, Bool, true, false, Option, none, some, [], all,
  arith,
}
use asusrouter.Base.Int.{negsuc, ℤ, pos}
use asusrouter.Base.Text.{Text, codes, same_text}
use asusrouter.Tools.Converters.{safe_int, null, bool, int}
use asusrouter.Tools.Security.{strict, unsafe, level_from_value, level_of_int}
use asusrouter.Endpoint.{Endpoint, hook, login, command, is_login, post}
use asusrouter.Errors.Access.{Message}
use asusrouter.Config.Keys.{
  allow_fallback, allow_multiple_fallbacks, allow_upgrade_http_to_https, strict_ssl, use_ssl, port,
}
use asusrouter.ConnectionConfig.{Options}
use asusrouter.Errors
use asusrouter.Errors.Access.{handle_access_error}
use asusrouter.Errors.Access.Accepts.{handle_access_error_exact}
use asusrouter.Config.Instance.{safe_int_config}
use asusrouter.Connection.Fallback.{choose, enter, is_port}
use asusrouter.Connection.Fallback.Matrix.{default_port, Switches, choose-enter}
use asusrouter.Connection.State.{
  https, ok, is_secure, port_of, Request, response, certificate_error, connector_error, Conn, Env,
  pending,
}
use asusrouter.Connection.Session.{async_query, async_disconnect, send}
use asusrouter.Connection.Session.Strict.{IsStrict, async_query-IsStrict}
use asusrouter.Connection.Session.Token.{IsSession, IsSession-kept}
use asusrouter.Connection.Session.Termination.Rank.{ChecksOnHttps}
use asusrouter.Connection.Session.Termination.{async_query-ends}
use asusrouter.Connection.Session.Endless.{IsFlapping, granted, send-pending}
use asusrouter.Connection.Logging.{Allowed, payload_for_logging, payload_for_logging_safe}

abbrev no_floats : Text → Option ℤ
no_floats s = none

abbrev no_message : Message
no_message = record { error_status = null; remaining_lock_time = null }

-- Logins are granted, and every other connection is refused.
abbrev flapping : Env
flapping = record {
  float_int = no_floats;
  net = λ log a.
      if is_login a.endpoint
      then response 200 none [] (granted no_message b't' [])
      else connector_error;
  login_payload = codes "login_authorization=";
}

-- No certificate is good, and no other connection is made.
abbrev uncertified : Env
uncertified = record {
  float_int = no_floats;
  net = λ log a. if a.secure then certificate_error else connector_error;
  login_payload = codes "login_authorization=";
}

abbrev strict_options : Options
strict_options strict_ssl = bool true
strict_options use_ssl = bool true
strict_options allow_fallback = bool true
strict_options port = int (pos 8443)
strict_options _ = bool false

abbrev open_options : Options
open_options allow_fallback = bool true
open_options allow_multiple_fallbacks = bool true
open_options allow_upgrade_http_to_https = bool true
open_options port = int (pos 80)
open_options _ = bool false

abbrev conn : Options → Conn
conn o = record {
  options = o;
  used_http = false;
  used_https = false;
  used_https_unsafe = false;
  token = none;
  header = none;
  connected = false;
  session_closed = false;
  manage_session = true;
  log = [];
}

abbrev hook_request : Request
hook_request = record { endpoint = hook; payload = none; headers = none; request_type = post }

async_query-IsStrict_example :
    IsStrict (async_query flapping 6 6 hook_request (conn strict_options)).1
async_query-IsStrict_example =
    async_query-IsStrict flapping 6 6 hook_request (conn strict_options) (refl, refl, tt)

IsSession-kept_example :
    IsSession (async_query flapping 6 6 hook_request (conn open_options)).1
    × IsSession (async_disconnect flapping 6 6 (conn open_options)).1
IsSession-kept_example = IsSession-kept flapping 6 6 hook_request (conn open_options) tt

uncertified-ChecksOnHttps : ChecksOnHttps uncertified
uncertified-ChecksOnHttps log a h = ground arith

async_query-ends_example :
    (async_query uncertified 6 6 hook_request (conn strict_options)).0 ≢ pending
async_query-ends_example =
    async_query-ends uncertified uncertified-ChecksOnHttps 6 6 hook_request (conn strict_options)
      (ground arith) (ground arith) refl

is_login-ne : (x : Endpoint) → x ≢ login → is_login x ≡ false
unfolding is_login
is_login-ne login h = absurd (h refl)
is_login-ne _ h = refl

is_login-eq : (x : Endpoint) → x ≡ login → is_login x ≡ true
unfolding is_login
is_login-eq x h = rw h refl

flapping-IsFlapping : IsFlapping flapping
flapping-IsFlapping = record {
  message = no_message;
  head = b't';
  rest = [];
  logins = λ log a h. ground (arith, is_login-eq a.endpoint h);
  others = λ log a h. ground (arith, is_login-ne a.endpoint h);
}

hook-ne : hook ≢ login
hook-ne = ground arith

send-pending_example : (send flapping 7 8 hook_request (conn open_options)).0 ≡ pending
send-pending_example =
    send-pending flapping flapping-IsFlapping 6 8 hook_request (conn open_options) hook-ne
      (refl, refl, refl, refl, refl, refl, refl, inr (refl, refl))

-- A response that declares the size of its two chunks, in a charset that is not known.
abbrev declared_five : Text → Option Text
declared_five h = if same_text h (codes "content-length") then some (codes "5") else none

abbrev known_utf : Text → Bool
known_utf e = same_text e (codes "utf-8")

abbrev only_ascii : Text → Text → Option Text
only_ascii e body = if all (λ c. ltb c 128) body then some body else none

abbrev ascii_of : Text → Text → Text
ascii_of e body = codes "?"

payload_for_logging_safe_example :
    let l = level_from_value no_floats (int (pos 5)) in
    let logged =
      payload_for_logging no_floats (int (pos 5)) command (some (codes "action=reboot")) in
    (logged ≡ none) ⊎ ((is_login command ≡ false) × (l ≢ strict) × Allowed l command logged)
payload_for_logging_safe_example =
    payload_for_logging_safe no_floats (int (pos 5)) command (some (codes "action=reboot"))

level_unsafe : level_from_value no_floats (int (pos 9)) ≡ unsafe
unfolding level_from_value level_of_int
level_unsafe = refl

command_no_login : is_login command ≡ false
unfolding is_login
command_no_login = refl

upgrade_chosen : (choose flapping (conn open_options)).0 ≡ ok https
unfolding choose port_of safe_int_config safe_int
upgrade_chosen = refl

choose-enter_example :
    let d = enter flapping https (choose flapping (conn open_options)).1 in
    (port_of flapping d ≡ pos (default_port d))
    × (((is_port 80 (port_of flapping (conn open_options)) ≡ false) × (is_secure d ≡ false))
        ⊎ ((is_port 80 (port_of flapping (conn open_options)) ≡ true)
            × (is_secure d ≡ true)
            × Switches (conn open_options)))
choose-enter_example = choose-enter flapping https (conn open_options) upgrade_chosen

-- The router reports wrong credentials.
abbrev wrong_credentials : Message
wrong_credentials = record { error_status = int (pos 3); remaining_lock_time = null }

handle_access_error_exact_example :
    (handle_access_error no_floats wrong_credentials ≡ Errors.ok tt)
    ↔ (safe_int no_floats (int (pos 3)) (some (negsuc 998)) ≡ some (pos 200))
handle_access_error_exact_example = handle_access_error_exact no_floats wrong_credentials
