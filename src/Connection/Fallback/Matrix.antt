-- ===== src/Connection/Fallback/Matrix.antt =====
-- connection.py: where a fallback that is chosen leads.
use asusrouter.Base.{ℕ, ◌≡◌, ◌⊎◌, refl, true, false, not, if◌then◌else◌, arith}
use asusrouter.Base.Int.{pos}
use asusrouter.Config.Keys.{strict_ssl, allow_upgrade_http_to_https}
use asusrouter.Connection.State.{
  Fallback, http, https, https_unsafe, Conn, Env, ok, truthy, is_secure, port_of,
}
use asusrouter.Connection.Fallback.{choose, enter, is_port, default_port_http, default_port_https}

-- The default port of the scheme of a connection.
abbrev pub default_port : Conn → ℕ
default_port c = if is_secure c then default_port_https else default_port_http

-- What the options must allow for the other scheme.
abbrev pub Switches : Conn → Type 0
Switches c =
    ((is_secure c ≡ true) × (truthy (c.options strict_ssl) ≡ false))
    ⊎ ((is_secure c ≡ false) × (truthy (c.options allow_upgrade_http_to_https) ≡ true))

module _ (e : Env) where
  -- A fallback leads to the default port of its scheme.
  enter-port :
      (f : Fallback) (c : Conn) → port_of e (enter e f c) ≡ pos (default_port (enter e f c))
  unfolding enter port_of
  enter-port http c = refl
  enter-port https c = refl
  enter-port https_unsafe c = refl

  choose-scheme :
      (f : Fallback) (c : Conn)
      → (choose e c).0 ≡ ok f
      → let d = enter e f (choose e c).1 in
        ((is_port (default_port c) (port_of e c) ≡ false) × (is_secure d ≡ is_secure c))
        ⊎ ((is_port (default_port c) (port_of e c) ≡ true)
            × (is_secure d ≡ not (is_secure c))
            × Switches c)
  unfolding choose enter
  choose-scheme http c h = ground arith
  choose-scheme https c h = ground arith
  choose-scheme https_unsafe c h = ground arith

  -- A fallback that is chosen leads to the default port of its scheme: from another port it keeps the
  -- scheme, and from the default port it changes it, from https only without STRICT_SSL, and from http
  -- only if the upgrade is allowed.
  pub choose-enter :
      (f : Fallback) (c : Conn)
      → (choose e c).0 ≡ ok f
      → let d = enter e f (choose e c).1 in
        (port_of e d ≡ pos (default_port d))
        × (((is_port (default_port c) (port_of e c) ≡ false) × (is_secure d ≡ is_secure c))
            ⊎ ((is_port (default_port c) (port_of e c) ≡ true)
                × (is_secure d ≡ not (is_secure c))
                × Switches c))
  choose-enter f c h = (enter-port f (choose e c).1, choose-scheme f c h)
