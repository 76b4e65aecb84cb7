-- ===== src/Connection/Session/Token.antt =====
-- connection.py: the flag, the token and the header of a connection stay together.
use asusrouter.Base.{ℕ, Bool, true, false, Option, none, some, ◌≡◌, refl, ◌∷◌, arith}
use asusrouter.Base.Text.{Text}
use asusrouter.Connection.State.{
  https, Fallback, http, https_unsafe, Header, Request, Reply, response, certificate_error,
  connector_error, Conn, Env, Exec, reset_connection, ok, ◌>>=◌,
}
use asusrouter.Connection.Fallback.{choose, enter, fallback}
use asusrouter.Connection.Request.{
  again, attempt, accept, transmit, reopen, make_request, handle, round,
}
use asusrouter.Connection.Request.Keeps.{Keeps, Keeps-bind}
use asusrouter.Connection.Session.{read_login, async_query, async_disconnect}
use asusrouter.Connection.Session.Keeps.{IsInvariant, async_query-Keeps, async_disconnect-Keeps}

abbrev pub Agree : Bool → Option Text → Option Header → Type 0
Agree true (some t) (some h) = h.cookie ≡ some t
Agree false none none = Unit
Agree _ _ _ = ⊥

-- A connected object has a token, and its header carries that token; any other has neither.
abbrev pub IsSession : Conn → Type 0
IsSession c = Agree c.connected c.token c.header

module _ (e : Env) where
  accept-state : (x : Reply) (c : Conn) → (accept e x c).1 ≡ c
  unfolding accept
  accept-state (response s d ch b) c = ground arith
  accept-state certificate_error c = refl
  accept-state _ c = refl

  reset-IsSession : (c : Conn) → IsSession c → IsSession (reset_connection c)
  unfolding reset_connection
  reset-IsSession c h = ground arith

  transmit-IsSession : (r : Request) → Keeps IsSession (transmit e r)
  unfolding transmit
  transmit-IsSession r c h =
      let a = attempt e r c in rw (accept-state (e.net c.log a) (record c { log = a ∷ c.log })) h

  reopen-IsSession : (m : Exec (Unit {0})) → Keeps IsSession m → Keeps IsSession (reopen e m)
  unfolding reopen
  reopen-IsSession m k c h = ground (
    arith,
    reset-IsSession c h,
    k (record (reset_connection c) { session_closed = false; manage_session = true }),
  )

  fallback-IsSession :
      (m : Exec (Unit {0})) (f : Fallback) → Keeps IsSession m → Keeps IsSession (fallback e m f)
  unfolding fallback enter
  fallback-IsSession m http k c h = k _ (reset-IsSession (enter e http c) h)
  fallback-IsSession m https k c h = k _ (reset-IsSession (enter e https c) h)
  fallback-IsSession m https_unsafe k c h = k _ (reset-IsSession (enter e https_unsafe c) h)

  choose-IsSession : Keeps IsSession (choose e)
  unfolding choose
  choose-IsSession c h = ground arith

  handle-IsSession :
      (m : Exec (Unit {0})) (x : Reply) → Keeps IsSession m → Keeps IsSession (handle e m x)
  unfolding handle
  handle-IsSession m (response s d ch b) k c h = ground arith
  handle-IsSession m certificate_error k c h = ground (
    arith,
    Keeps-bind IsSession (fallback e m http) (λ _ c'. (ok again, c')) (fallback-IsSession m http k)
        (λ _ _ q. q) c h,
  )
  handle-IsSession m connector_error k c h = ground (
    arith,
    reset-IsSession c h,
    Keeps-bind IsSession (choose e >>= λ f. fallback e m f) (λ _ c'. (ok again, c'))
        (Keeps-bind IsSession (choose e) (fallback e m) choose-IsSession
          (λ f. fallback-IsSession m f k))
        (λ _ _ q. q) c h,
  )
  handle-IsSession m _ k c h = h

  IsSession-IsInvariant : IsInvariant e IsSession
  unfolding round read_login make_request
  IsSession-IsInvariant = record {
    rounds = λ m r k.
        Keeps-bind IsSession (make_request e m r) (handle e m)
          (Keeps-bind IsSession (reopen e m) (λ _. transmit e r) (reopen-IsSession m k)
            (λ _. transmit-IsSession r))
          (λ x. handle-IsSession m x k);
    stores = λ r c h. ground arith;
    resets = reset-IsSession;
  }

  -- If the flag, the token and the header of a connection agree, they do so after every query and
  -- after every disconnect, however it ends.
  pub IsSession-kept :
      (n m : ℕ) (r : Request) (c : Conn)
      → IsSession c
      → IsSession (async_query e n m r c).1 × IsSession (async_disconnect e n m c).1
  IsSession-kept n m r c h = (
    async_query-Keeps e IsSession IsSession-IsInvariant n m r c h,
    async_disconnect-Keeps e IsSession IsSession-IsInvariant n m c h,
  )
