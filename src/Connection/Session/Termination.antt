-- ===== src/Connection/Session/Termination.antt =====
-- connection.py: the fallbacks run out. Each round that asks for another has used up a fallback or
-- has left https, so a login takes six rounds at most, and so does a request unless several
-- fallbacks are allowed.
pub mod Rank
pub mod Bounded
use asusrouter.Base.{ℕ, ◌≤◌, ◌<◌, true, false, ◌≡◌, ◌≢◌, refl, arith}
use asusrouter.Connection.State.{
  Request, Conn, Env, Outcome, ok, err, pending, Exec, ◌>>=◌, continue,
}
use asusrouter.Connection.Request.{Response, send_request}
use asusrouter.Connection.Session.{
  no_reconnect, after_login, read_login, login_request, login_task, async_connect, reconnect, send,
  require_connected, ensure_connected, async_query,
}
use asusrouter.Connection.Session.Termination.Rank.{
  rank, rank-le, several, Steady, ChecksOnHttps, send_request-ne-pending,
}
use asusrouter.Connection.Session.Termination.Bounded.{reconnect-Bounded, ensure_connected-several}

module _ (e : Env) (checks : ChecksOnHttps e) where
  after_login-ends :
      (x : Outcome Response) (c : Conn) → x ≢ pending → (after_login (x, c)).0 ≢ pending
  unfolding after_login read_login
  after_login-ends (ok r) c p = ground arith
  after_login-ends (err x) c p = λ q. cc
  after_login-ends pending c p = absurd (p refl)

  login_task-ends : (n : ℕ) (c : Conn) → 6 ≤ n → (login_task e n c).0 ≢ pending
  unfolding login_task
  login_task-ends n c h =
      let (x, c') = send_request e no_reconnect n (login_request e) c in
      let ends : x ≢ pending =
        send_request-ne-pending e (λ _. Unit) no_reconnect (λ c _. (tt, omega arith, λ q. cc))
          checks (login_request e) n c tt (omega (arith, rank-le c)) in
      ground (arith, after_login-ends x c' ends)

  continue-ends :
      {A B : Type 0} (x : Outcome A) (f : A → Exec B) (c : Conn)
      → x ≢ pending
      → ((a : A) → x ≡ ok a → (f a c).0 ≢ pending)
      → (continue x f c).0 ≢ pending
  continue-ends (ok a) f c p q = q a refl
  continue-ends (err x) f c p q = λ a. cc
  continue-ends pending f c p q = absurd (p refl)

  -- A connect ends after at most six rounds of its login, whatever the network answers, as long as
  -- certificates fail on https only.
  pub async_connect-ends : (n : ℕ) (c : Conn) → 6 ≤ n → (async_connect e n c).0 ≢ pending
  unfolding async_connect
  async_connect-ends n c h = ground (
    arith,
    continue-ends (login_task e n c).0 (λ _ c'. (ok true, c')) (login_task e n c).1
        (login_task-ends n c h) (λ a _ q. cc),
  )

  reconnect-ends : (n : ℕ) (c : Conn) → 6 ≤ n → (reconnect e n c).0 ≢ pending
  unfolding reconnect
  reconnect-ends n c h =
      continue-ends (async_connect e n c).0 (λ _ c. (ok tt, c)) (async_connect e n c).1
        (async_connect-ends n c h) (λ a _ q. cc)

  send-ends :
      (n m : ℕ) (r : Request) (c : Conn)
      → 6 ≤ n
      → 6 ≤ m
      → several c ≡ false
      → (send e n m r c).0 ≢ pending
  unfolding send
  send-ends n m r c hn hm s =
      send_request-ne-pending e (λ b. b ≡ false) (reconnect e n)
        (λ c s. let (s', le) = reconnect-Bounded e n c s in (s', le, reconnect-ends n c hn)) checks
        r m c s (omega (arith, rank-le c))

  query_first : (c : Conn) → (require_connected e c).0 ≢ pending
  unfolding require_connected
  query_first c = ground arith

  ensure_connected-ends : (n : ℕ) (c : Conn) → 6 ≤ n → (ensure_connected e n c).0 ≢ pending
  unfolding ensure_connected
  ensure_connected-ends n c h = ground (
    arith,
    continue-ends (reconnect e n c).0 (λ _. require_connected e) (reconnect e n c).1
        (reconnect-ends n c h) (λ _ _. query_first (reconnect e n c).1),
  )

  -- Unless several fallbacks are allowed, a query ends: six rounds of a login and six of the request
  -- are enough, whatever the network answers, as long as certificates fail on https only.
  pub async_query-ends :
      (n m : ℕ) (r : Request) (c : Conn)
      → 6 ≤ n
      → 6 ≤ m
      → several c ≡ false
      → (async_query e n m r c).0 ≢ pending
  unfolding async_query
  async_query-ends n m r c hn hm s =
      continue-ends (ensure_connected e n c).0 (λ _. send e n m r) (ensure_connected e n c).1
        (ensure_connected-ends n c hn)
        (λ _ _. send-ends n m r (ensure_connected e n c).1 hn hm (ensure_connected-several e n c s))
