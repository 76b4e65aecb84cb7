-- ===== src/Connection/Fallback.antt =====
-- connection.py: `_async_handle_fallback` chooses how to go on after a refused connection, and
-- `_fallback` sets the connection up for it.
pub mod Matrix
use asusrouter.Base.{ℕ, Bool, true, false, not, ◌==◌, if◌then◌else◌}
use asusrouter.Base.Int.{ℤ, pos, negsuc}
use asusrouter.Tools.Converters.{bool, int}
use asusrouter.Errors.{fallback_failed, fallback_forbidden, fallback_loop}
use asusrouter.Config.Keys.{
  ConnectionKey-discrete, use_ssl, port, strict_ssl, verify_ssl, allow_upgrade_http_to_https,
}
use asusrouter.Config.Instance.{safe_bool_config, safe_int_config}
use asusrouter.ConnectionConfig.{set_option, converter}
use asusrouter.Connection.State.{
  Fallback, http, https, https_unsafe, Conn, Env, ok, err, Exec, truthy, is_secure, port_of,
  reset_connection,
}

abbrev pub default_port_http : ℕ
default_port_http = 80

abbrev pub default_port_https : ℕ
default_port_https = 8443

abbrev pub is_port : ℕ → ℤ → Bool
is_port n (pos m) = m == n
is_port n (negsuc m) = false

module _ (e : Env) where
  -- The branches of `_async_handle_fallback`, up to the call of `_fallback`.
  unfoldable pub choose : Exec Fallback
  unfolding port_of set_option converter safe_bool_config safe_int_config ConnectionKey-discrete
  choose c =
      if is_secure c
      then (if not (is_port default_port_https (port_of e c))
          then (if c.used_https then (err fallback_loop, c) else (ok https, c))
          else if truthy (c.options strict_ssl)
          then (err fallback_forbidden, c)
          else if c.used_http
          then (err fallback_loop, c)
          else (ok http, c))
      else if not (is_port default_port_http (port_of e c))
      then (if c.used_http then (err fallback_loop, c) else (ok http, c))
      else if truthy (c.options allow_upgrade_http_to_https)
      then (let c' = record c {
        options = set_option e.float_int verify_ssl (bool true) c.options;
      } in
          if c'.used_https then (err fallback_loop, c') else (ok https, c'))
      else (err fallback_failed, c)

  -- The first part of `_fallback`: the strategy is marked as used, and its parameters are set.
  unfoldable pub enter : Fallback → Conn → Conn
  unfolding set_option converter safe_bool_config safe_int_config ConnectionKey-discrete
  enter http c = record c {
    used_http = true;
    options =
        set_option e.float_int port (int (pos default_port_http))
          (set_option e.float_int use_ssl (bool false) c.options);
  }
  enter https c = record c {
    used_https = true;
    options =
        set_option e.float_int port (int (pos default_port_https))
          (set_option e.float_int use_ssl (bool true) c.options);
  }
  enter https_unsafe c = record c {
    used_https_unsafe = true;
    options = set_option e.float_int verify_ssl (bool false) (
        set_option e.float_int port (int (pos default_port_https))
          (set_option e.float_int use_ssl (bool true) c.options));
  }

  -- `_fallback`: `reconnect` is the bounded reconnect of a request, and nothing inside a login.
  unfoldable pub fallback : Exec (Unit {0}) → Fallback → Exec (Unit {0})
  unfolding enter reset_connection
  fallback reconnect f c = reconnect (reset_connection (enter f c))
