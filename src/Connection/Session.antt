-- ===== src/Connection/Session.antt =====
-- connection.py: connecting, querying and disconnecting. One task runs at a time, and a caller
-- waits as long as the login takes.
pub mod Keeps
pub mod Strict
pub mod Token
pub mod Termination
pub mod Endless
use asusrouter.Base.{ℕ, Bool, true, false, Option, none, some, ◌∷◌, if◌then◌else◌}
use asusrouter.Base.Text.{Text}
use asusrouter.Endpoint.{login, logout, post}
use asusrouter.Errors.{
  Error, timeout, ssl_certificate, access, logged_out, value_error, is_asusrouter_error,
}
use asusrouter.Connection.State.{
  Request, Conn, Env, Outcome, ok, err, pending, Exec, ◌>>=◌, reset_connection,
}
use asusrouter.Connection.Request.{Response, send_request}

-- Inside a login the fallback does not wait for a login.
abbrev pub no_reconnect : Exec (Unit {0})
no_reconnect c = (ok tt, c)

-- `token = content.get("asus_token")`, with `if not token`.
abbrev pub token_of : Option Text → Option Text
token_of (some (c ∷ s)) = some (c ∷ s)
token_of _ = none

unfoldable pub store_token : Option Text → Exec Bool
store_token none c = (ok false, c)
store_token (some t) c = if c.connected then (ok true, c) else (
  ok true,
  record c { token = some t; header = some (record { cookie = some t }); connected = true },
)

unfoldable pub read_login : Response → Exec Bool
unfolding store_token
read_login r c =
    if r.body.is_json then store_token (token_of r.body.asus_token) c else (err value_error, c)

-- The `except` clauses around the login request.
unfoldable pub login_error : Error → Error
login_error ssl_certificate = access none
login_error (access x) = access none
login_error x = x

unfoldable pub after_login : Outcome Response × Conn → Outcome Bool × Conn
unfolding read_login login_error
after_login (ok r, c) = read_login r c
after_login (err x, c) = (err (login_error x), c)
after_login (pending, c) = (pending, c)

module _ (e : Env) where
  abbrev pub login_request : Request
  login_request = record {
    endpoint = login;
    payload = some e.login_payload;
    headers = some (record { cookie = none });
    request_type = post;
  }

  -- `_async_connect_with_lock`
  unfoldable pub login_task : ℕ → Exec Bool
  unfolding after_login
  login_task n c =
      if c.connected
      then (ok true, c)
      else after_login (send_request e no_reconnect n login_request c)

  -- `async_connect`: whatever the finished task returned, the caller gets `True`.
  unfoldable pub async_connect : ℕ → Exec Bool
  async_connect n c =
      if c.connected then (ok true, c) else (login_task n >>= λ _ c'. (ok true, c')) c

  -- The reconnect of a request, by its fallback or its closed session.
  unfoldable pub reconnect : ℕ → Exec (Unit {0})
  unfolding async_connect
  reconnect n = async_connect n >>= λ _ c. (ok tt, c)

  -- The fuel is for the rounds of a login and those of the request.
  unfoldable pub send : ℕ → ℕ → Request → Exec Response
  unfolding reconnect
  send n m r = send_request e (reconnect n) m r

  unfoldable pub require_connected : Exec (Unit {0})
  require_connected c = if c.connected then (ok tt, c) else (err timeout, c)

  unfoldable pub ensure_connected : ℕ → Exec (Unit {0})
  unfolding reconnect require_connected
  ensure_connected n c =
      if c.connected then (ok tt, c) else (reconnect n >>= λ _. require_connected) c

  -- `async_query`
  unfoldable pub async_query : ℕ → ℕ → Request → Exec Response
  unfolding ensure_connected
  async_query n m r = ensure_connected n >>= λ _. send n m r

  abbrev pub logout_request : Request
  logout_request = record { endpoint = logout; payload = none; headers = none; request_type = post }

  after_logout_error : Error → Exec Bool
  unfolding reset_connection
  after_logout_error logged_out c = (ok true, reset_connection c)
  after_logout_error x c = if is_asusrouter_error x then (ok false, c) else (err x, c)

  after_logout : Outcome Response × Conn → Outcome Bool × Conn
  unfolding after_logout_error
  after_logout (ok r, c) = (ok false, c)
  after_logout (err x, c) = after_logout_error x c
  after_logout (pending, c) = (pending, c)

  -- `async_disconnect`
  unfoldable pub async_disconnect : ℕ → ℕ → Exec Bool
  unfolding after_logout
  async_disconnect n m c =
      if c.connected then after_logout (send n m logout_request c) else (ok true, c)
