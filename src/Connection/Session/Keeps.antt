-- ===== src/Connection/Session/Keeps.antt =====
-- connection.py: what the rounds of a request, a stored token and a reset keep, every method keeps.
use asusrouter.Base.{ℕ, true, arith}
use asusrouter.Connection.State.{
  Request, Conn, Env, Outcome, ok, err, pending, Exec, reset_connection,
}
use asusrouter.Connection.Request.{Response, round, send_request}
use asusrouter.Connection.Request.Keeps.{Keeps, Keeps-bind, send_request-Keeps}
use asusrouter.Connection.Session.{
  no_reconnect, read_login, after_login, login_request, login_task, async_connect, reconnect, send,
  require_connected, ensure_connected, async_query, logout_request, after_logout, async_disconnect,
}

-- The three facts that an invariant of the connection rests on.
pub record IsInvariant (e : Env) (P : Conn → Type 0) : Type 0 where
  pub rounds : (m : Exec (Unit {0})) (r : Request) → Keeps P m → Keeps P (round e m r)
  pub stores : (r : Response) → Keeps P (read_login r)
  pub resets : (c : Conn) → P c → P (reset_connection c)

module _ (e : Env) (P : Conn → Type 0) (inv : IsInvariant e P) where
  after_login-Keeps : (x : Outcome Response) (c : Conn) → P c → P (after_login (x, c)).1
  unfolding after_login
  after_login-Keeps (ok r) c h = inv.stores r c h
  after_login-Keeps (err x) c h = h
  after_login-Keeps pending c h = h

  login_task-Keeps : (n : ℕ) → Keeps P (login_task e n)
  unfolding login_task
  login_task-Keeps n c h =
      let (x, c') = send_request e no_reconnect n (login_request e) c in
      ground (
        arith,
        after_login-Keeps x c' (
            send_request-Keeps e P no_reconnect (login_request e)
              (inv.rounds no_reconnect (login_request e) (λ _ k. k)) n c h),
      )

  async_connect-Keeps : (n : ℕ) → Keeps P (async_connect e n)
  unfolding async_connect
  async_connect-Keeps n c h = ground (
    arith,
    Keeps-bind P (login_task e n) (λ _ c'. (ok true, c')) (login_task-Keeps n) (λ _ _ k. k) c h,
  )

  pub reconnect-Keeps : (n : ℕ) → Keeps P (reconnect e n)
  unfolding reconnect
  reconnect-Keeps n = Keeps-bind P (async_connect e n) _ (async_connect-Keeps n) (λ _ c h. h)

  send-Keeps : (n m : ℕ) (r : Request) → Keeps P (send e n m r)
  unfolding send
  send-Keeps n m r =
      send_request-Keeps e P (reconnect e n) r (inv.rounds (reconnect e n) r (reconnect-Keeps n)) m

  require_connected-Keeps : Keeps P (require_connected e)
  unfolding require_connected
  require_connected-Keeps c h = ground arith

  pub ensure_connected-Keeps : (n : ℕ) → Keeps P (ensure_connected e n)
  unfolding ensure_connected
  ensure_connected-Keeps n c h = ground (
    arith,
    Keeps-bind P (reconnect e n) (λ _. require_connected e) (reconnect-Keeps n)
        (λ _. require_connected-Keeps) c h,
  )

  -- An invariant holds after every query, however it ends.
  pub async_query-Keeps : (n m : ℕ) (r : Request) → Keeps P (async_query e n m r)
  unfolding async_query
  async_query-Keeps n m r =
      Keeps-bind P (ensure_connected e n) (λ _. send e n m r) (ensure_connected-Keeps n)
        (λ _. send-Keeps n m r)

  after_logout-Keeps : (x : Outcome Response) (c : Conn) → P c → P (after_logout e (x, c)).1
  unfolding after_logout
  after_logout-Keeps (ok r) c h = h
  after_logout-Keeps (err x) c h = ground (arith, inv.resets c h)
  after_logout-Keeps pending c h = h

  -- An invariant holds after a disconnect.
  pub async_disconnect-Keeps : (n m : ℕ) → Keeps P (async_disconnect e n m)
  unfolding async_disconnect
  async_disconnect-Keeps n m c h =
      let (x, c') = send e n m (logout_request e) c in
      ground (arith, after_logout-Keeps x c' (send-Keeps n m (logout_request e) c h))
