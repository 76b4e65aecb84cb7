-- ===== src/Connection/Session/Endless.antt =====
-- connection.py: with several fallbacks allowed, the login of a fallback forgets the used fallbacks
-- of the request that it is made for, so the request can go back and forth for ever.
use asusrouter.Base.{
  ℕ, zero, suc, true, false, ◌≡◌, ◌≢◌, ◌⊎◌, inl, inr, refl, none, some, List, [], ◌∷◌, ap, ◌∙◌,
  arith,
}
use asusrouter.Base.Int.{pos}
use asusrouter.Base.Text.{Text}
use asusrouter.Endpoint.{login}
use asusrouter.Tools.Converters.{bool, int}
use asusrouter.Errors.Access.{Message}
use asusrouter.Config.Keys.{
  allow_fallback, allow_multiple_fallbacks, allow_upgrade_http_to_https, strict_ssl, use_ssl, port,
  verify_ssl, ConnectionKey-discrete,
}
use asusrouter.Config.Instance.{safe_bool_config}
use asusrouter.ConnectionConfig.{Options, set_option, converter}
use asusrouter.Connection.State.{
  Fallback, Request, Attempt, Body, response, connector_error, Conn, Env, ok, pending, Exec,
  reset_connection, http, https,
}
use asusrouter.Connection.Fallback.{choose, enter, fallback}
use asusrouter.Connection.Request.{done, again, attempt, make_request, handle, round, send_request}
use asusrouter.Connection.Session.{login_request, login_task, reconnect, send, no_reconnect}

abbrev pub granted : Message → ℕ → Text → Body
granted message t s = record {
  marked = false;
  message = message;
  is_json = true;
  asus_token = some (t ∷ s);
}

-- A network that lets every login through and refuses every other connection.
pub record IsFlapping (e : Env) : Type 0 where
  pub message : Message
  pub head : ℕ
  pub rest : Text
  pub logins :
      (log : List Attempt) (a : Attempt)
      → a.endpoint ≡ login
      → e.net log a ≡ response 200 none [] (granted message head rest)
  pub others :
      (log : List Attempt) (a : Attempt) → a.endpoint ≢ login → e.net log a ≡ connector_error

-- Every fallback is allowed, none is marked as used, and the port is the default of the scheme.
abbrev pub IsFresh : Conn → Type 0
IsFresh c =
    (c.options allow_fallback ≡ bool true)
    × (c.options allow_multiple_fallbacks ≡ bool true)
    × (c.options allow_upgrade_http_to_https ≡ bool true)
    × (c.options strict_ssl ≡ bool false)
    × (c.session_closed ≡ false)
    × (c.used_http ≡ false)
    × (c.used_https ≡ false)
    × (((c.options use_ssl ≡ bool true) × (c.options port ≡ int (pos 8443)))
        ⊎ ((c.options use_ssl ≡ bool false) × (c.options port ≡ int (pos 80))))

module _ (e : Env) (flap : IsFlapping e) where
  -- The connection after the login that a fallback makes.
  forgotten : Conn → Conn
  forgotten c = record c {
    used_http = false;
    used_https = false;
    used_https_unsafe = false;
    log = attempt e (login_request e) c ∷ c.log;
  }

  signed_in : Conn → Conn
  unfolding forgotten
  signed_in c = record (forgotten c) {
    token = some (flap.head ∷ flap.rest);
    header = some (record { cookie = some (flap.head ∷ flap.rest) });
    connected = true;
  }

  login-round :
      (c : Conn)
      → c.session_closed ≡ false
      → c.options allow_multiple_fallbacks ≡ bool true
      → round e no_reconnect (login_request e) c ≡ (
        ok (done (record { status = 200; body = granted flap.message flap.head flap.rest })),
        forgotten c,
      )
  unfolding round make_request handle forgotten
  login-round c h k = ground (arith, flap.logins c.log (attempt e (login_request e) c) refl)

  reconnect-signed_in :
      (k : ℕ) (c : Conn)
      → c.connected ≡ false
      → c.session_closed ≡ false
      → c.options allow_multiple_fallbacks ≡ bool true
      → reconnect e (suc k) c ≡ (ok tt, signed_in c)
  unfolding reconnect login_task send_request signed_in
  reconnect-signed_in k c d h q = ground (arith, login-round c h q)

  reset-connected :
      (c : Conn)
      → ((reset_connection c).connected ≡ false)
        × ((reset_connection c).session_closed ≡ c.session_closed)
        × ((reset_connection c).options ≡ c.options)
  unfolding reset_connection
  reset-connected c = ground arith

  -- A fallback signs in again, with the parameters that it has set.
  fallback-signed_in :
      (k : ℕ) (f : Fallback) (c : Conn)
      → (enter e f c).session_closed ≡ false
      → (enter e f c).options allow_multiple_fallbacks ≡ bool true
      → fallback e (reconnect e (suc k)) f c ≡ (ok tt, signed_in (reset_connection (enter e f c)))
  unfolding fallback
  fallback-signed_in k f c h q =
      let (out, closed, same) = reset-connected (enter e f c) in
      reconnect-signed_in k (reset_connection (enter e f c)) out (closed ∙ h)
        (ap (λ (o : Options). o allow_multiple_fallbacks) same ∙ q)

  signed_in-IsFresh :
      (c : Conn)
      → c.options allow_fallback ≡ bool true
      → c.options allow_multiple_fallbacks ≡ bool true
      → c.options allow_upgrade_http_to_https ≡ bool true
      → c.options strict_ssl ≡ bool false
      → c.session_closed ≡ false
      → ((c.options use_ssl ≡ bool true) × (c.options port ≡ int (pos 8443)))
        ⊎ ((c.options use_ssl ≡ bool false) × (c.options port ≡ int (pos 80)))
      → IsFresh (signed_in (reset_connection c))
  unfolding signed_in reset_connection
  signed_in-IsFresh c a b d f g h = ground arith

  choose-secure : (c : Conn) → IsFresh c → c.options use_ssl ≡ bool true → choose e c ≡ (ok http, c)
  unfolding choose
  choose-secure c h s = ground arith

  -- The upgrade of plain HTTP forces the verification of certificates.
  verified : Conn → Conn
  unfolding set_option converter safe_bool_config ConnectionKey-discrete
  verified c = record c { options = set_option e.float_int verify_ssl (bool true) c.options }

  choose-plain :
      (c : Conn) → IsFresh c → c.options use_ssl ≡ bool false → choose e c ≡ (ok https, verified c)
  unfolding choose verified
  choose-plain c h s = ground arith

  handle-secure :
      (k : ℕ) (c : Conn)
      → IsFresh c
      → c.options use_ssl ≡ bool true
      → handle e (reconnect e (suc k)) connector_error c
        ≡ (ok again, signed_in (reset_connection (enter e http c)))
  unfolding handle
  handle-secure k c h s =
      let back : fallback e (reconnect e (suc k)) http c
          ≡ (ok tt, signed_in (reset_connection (enter e http c))) =
        unfold enter in fallback-signed_in k http c h.4 h.1 in
      ground (arith, choose-secure c h s, back)

  handle-plain :
      (k : ℕ) (c : Conn)
      → IsFresh c
      → c.options use_ssl ≡ bool false
      → handle e (reconnect e (suc k)) connector_error c
        ≡ (ok again, signed_in (reset_connection (enter e https (verified c))))
  unfolding handle
  handle-plain k c h s =
      let back : fallback e (reconnect e (suc k)) https (verified c)
          ≡ (ok tt, signed_in (reset_connection (enter e https (verified c)))) =
        unfold enter verified in fallback-signed_in k https (verified c) h.4 h.1 in
      ground (arith, choose-plain c h s, back)

  -- A refused connection is answered by a fallback, after which the connection is as fresh.
  handle-IsFresh :
      (k : ℕ) (c : Conn)
      → IsFresh c
      → ((handle e (reconnect e (suc k)) connector_error c).0 ≡ ok again)
        × IsFresh (handle e (reconnect e (suc k)) connector_error c).1
  unfolding enter verified
  handle-IsFresh k c (a, b, d, f, g, u, v, inl (secure, at_port)) =
      rw (handle-secure k c (a, b, d, f, g, u, v, inl (secure, at_port)) secure)
        (refl, signed_in-IsFresh (enter e http c) a b d f g (inr (refl, refl)))
  handle-IsFresh k c (a, b, d, f, g, u, v, inr (plain, at_port)) =
      rw (handle-plain k c (a, b, d, f, g, u, v, inr (plain, at_port)) plain)
        (refl, signed_in-IsFresh (enter e https (verified c)) a b d f g (inl (refl, refl)))

  refused : Request → Conn → Conn
  refused r c = record c { log = attempt e r c ∷ c.log }

  make_request-refused :
      (m : Exec (Unit {0})) (r : Request) (c : Conn)
      → r.endpoint ≢ login
      → c.session_closed ≡ false
      → make_request e m r c ≡ (ok connector_error, refused r c)
  unfolding make_request refused
  make_request-refused m r c ne h = ground (arith, flap.others c.log (attempt e r c) ne)

  round-refused :
      (m : Exec (Unit {0})) (r : Request) (c : Conn)
      → r.endpoint ≢ login
      → c.session_closed ≡ false
      → round e m r c ≡ handle e m connector_error (refused r c)
  unfolding round
  round-refused m r c ne h = ground (arith, make_request-refused m r c ne h)

  -- On an open session at the default port, with every fallback allowed and none marked as used, if
  -- each login is granted and every other connection refused, a request that is no login is repeated
  -- for ever: no number of its rounds is enough, with any positive number for its logins.
  pub send-pending :
      (n m : ℕ) (r : Request) (c : Conn)
      → r.endpoint ≢ login
      → IsFresh c
      → (send e (suc n) m r c).0 ≡ pending
  unfolding send send_request refused
  send-pending n zero r c ne h = refl
  send-pending n (suc m) r c ne h =
      let (more, fresh) = handle-IsFresh n (refused r c) h in
      let d = (handle e (reconnect e (suc n)) connector_error (refused r c)).1 in
      rw (round-refused (reconnect e (suc n)) r c ne h.4)
        (ground (arith, more, send-pending n m r d ne fresh))
