-- ===== src/Connection/Session/Strict.antt =====
-- connection.py: with `STRICT_SSL` set, nothing is ever sent over plain HTTP.
use asusrouter.Base.{ℕ, true, false, ◌∷◌, ◌≡◌, refl, All, arith}
use asusrouter.Tools.Converters.{bool}
use asusrouter.Config.Keys.{use_ssl, strict_ssl}
use asusrouter.Connection.State.{
  https, Request, Attempt, Reply, response, certificate_error, connector_error, Conn, Env, Exec,
  reset_connection,
}
use asusrouter.Connection.Fallback.{choose, enter, fallback}
use asusrouter.Connection.Request.{attempt, accept, make_request, handle, round, transmit, reopen}
use asusrouter.Connection.Request.Keeps.{Keeps, Keeps-bind}
use asusrouter.Connection.Session.{read_login, async_query}
use asusrouter.Connection.Session.Keeps.{IsInvariant, async_query-Keeps}

-- Certificates are strict, the scheme is https, and so it was in every attempt.
abbrev pub IsStrict : Conn → Type 0
IsStrict c =
    (c.options strict_ssl ≡ bool true)
    × (c.options use_ssl ≡ bool true)
    × All (λ (a : Attempt). a.secure ≡ true) c.log

module _ (e : Env) where
  accept-log : (x : Reply) (c : Conn) → (accept e x c).1 ≡ c
  unfolding accept
  accept-log (response s d ch b) c = ground arith
  accept-log certificate_error c = refl
  accept-log _ c = refl

  transmit-IsStrict : (r : Request) → Keeps IsStrict (transmit e r)
  unfolding transmit attempt
  transmit-IsStrict r c h =
      let a = attempt e r c in
      rw (accept-log (e.net c.log a) (record c { log = a ∷ c.log })) (ground arith)

  reopen-IsStrict : (m : Exec (Unit {0})) → Keeps IsStrict m → Keeps IsStrict (reopen e m)
  unfolding reopen
  reopen-IsStrict m k c h =
      ground
        (arith, k (record (reset_connection c) { session_closed = false; manage_session = true }))

  make_request-IsStrict :
      (m : Exec (Unit {0})) (r : Request) → Keeps IsStrict m → Keeps IsStrict (make_request e m r)
  unfolding make_request
  make_request-IsStrict m r k =
      Keeps-bind IsStrict (reopen e m) (λ _. transmit e r) (reopen-IsStrict m k)
        (λ _. transmit-IsStrict r)

  handle-IsStrict :
      (m : Exec (Unit {0})) (x : Reply) → Keeps IsStrict m → Keeps IsStrict (handle e m x)
  unfolding handle choose fallback
  handle-IsStrict m (response s d ch b) k c h = ground arith
  handle-IsStrict m certificate_error k c h = ground arith
  handle-IsStrict m connector_error k c h = ground (arith, k (reset_connection (enter e https c)))
  handle-IsStrict m _ k c h = ground arith

  IsStrict-IsInvariant : IsInvariant e IsStrict
  unfolding round read_login reset_connection
  IsStrict-IsInvariant = record {
    rounds = λ m r k.
        Keeps-bind IsStrict (make_request e m r) (handle e m) (make_request-IsStrict m r k)
          (λ x. handle-IsStrict m x k);
    stores = λ r c h. ground arith;
    resets = λ c h. ground arith;
  }

  -- With strict certificates on https, and so far only https attempts, every attempt of a query is
  -- over https too, whatever the network answers and however the query ends.
  pub async_query-IsStrict :
      (n m : ℕ) (r : Request) (c : Conn) → IsStrict c → IsStrict (async_query e n m r c).1
  async_query-IsStrict = async_query-Keeps e IsStrict IsStrict-IsInvariant
