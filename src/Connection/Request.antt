-- ===== src/Connection/Request.antt =====
-- connection.py: `_make_request` and `_send_request`. The recursion of the latter, directly and
-- through the fallback, is a loop of rounds.
pub mod Keeps
use asusrouter.Base.{
  ℕ, zero, suc, true, false, ◌&&◌, Option, none, some, ◌∷◌, leb, ltb, ◌==◌, if◌then◌else◌,
}
use asusrouter.Errors.{
  Error, data_error, connection_error, timeout, ssl_certificate, not_found, access, unexpected,
}
use asusrouter.Errors
use asusrouter.Errors.Access.{handle_access_error}
use asusrouter.Config.Keys.{strict_ssl, verify_ssl, allow_fallback, allow_multiple_fallbacks}
use asusrouter.Connection.Body.{read_size, max_response_size}
use asusrouter.Connection.State.{
  http, Request, Attempt, Body, Header, Reply, response, certificate_error, connector_error,
  client_error, timed_out, failed, Conn, Env, Outcome, ok, err, pending, Exec, ◌>>=◌, truthy,
  is_false, is_secure, port_of, reset_connection,
}
use asusrouter.Connection.Fallback.{choose, fallback}

-- The status and the content of an accepted response.
pub record Response : Type 0 where
  pub status : ℕ
  pub body : Body

-- A round of the loop ends it or asks for another.
pub data Next : Type 0 where
  done : Response → Next
  again : Next

abbrev pub or_header : Option Header → Option Header → Option Header
or_header none h = h
or_header (some h) _ = some h

-- The loop goes on to the next round, whose result is `rest`, or stops.
unfoldable pub finish : Outcome Next → Conn → Outcome Response × Conn → Outcome Response × Conn
finish (ok (done x)) c rest = (ok x, c)
finish (ok again) c rest = rest
finish (err x) c rest = (err x, c)
finish pending c rest = (pending, c)

module _ (e : Env) where
  unfoldable pub attempt : Request → Conn → Attempt
  unfolding port_of
  attempt r c = record {
    endpoint = r.endpoint;
    payload = r.payload;
    headers = or_header r.headers c.header;
    request_type = r.request_type;
    secure = is_secure c;
    port_number = port_of e c;
    verify = c.options verify_ssl;
  }

  -- A redirect is refused before the content is read, and the content within the limit.
  unfoldable pub accept : Reply → Conn → Outcome Reply × Conn
  unfolding read_size
  accept (response status declared chunks body) c =
      if leb 300 status && ltb status 400
      then (err data_error, c)
      else (elim (read_size max_response_size declared chunks) [
        | none ↦ (err data_error, c)
        | some n ↦ (ok (response status declared chunks body), c)
      ])
  accept reply c = (ok reply, c)

  -- The request itself.
  unfoldable pub transmit : Request → Exec Reply
  unfolding attempt accept
  transmit r c = let a = attempt r c in accept (e.net c.log a) (record c { log = a ∷ c.log })

  -- A closed session is replaced first; the retried call then finds it open.
  unfoldable pub reopen : Exec (Unit {0}) → Exec (Unit {0})
  unfolding reset_connection
  reopen reconnect c =
      if c.session_closed
      then reconnect (record (reset_connection c) { session_closed = false; manage_session = true })
      else (ok tt, c)

  unfoldable pub make_request : Exec (Unit {0}) → Request → Exec Reply
  unfolding transmit reopen
  make_request reconnect r = reopen reconnect >>= λ _. transmit r

  -- The checks on a response: its status, and an error that its content reports.
  unfoldable pub check_response : ℕ → Body → Errors.Result (Unit {0})
  unfolding handle_access_error
  check_response status body =
      if status == 404
      then Errors.err not_found
      else if status == 200
      then (if body.marked then handle_access_error e.float_int body.message else Errors.ok tt)
      else Errors.err (access none)

  -- An accepted response forgets the used fallbacks if several are allowed.
  unfoldable pub clear_used : Conn → Conn
  clear_used c =
      if truthy (c.options allow_multiple_fallbacks)
      then record c { used_http = false; used_https = false; used_https_unsafe = false }
      else c

  unfoldable pub deliver : ℕ → Body → Errors.Result (Unit {0}) → Exec Next
  unfolding clear_used
  deliver status body (Errors.ok _) c =
      (ok (done (record { status = status; body = body })), clear_used c)
  deliver status body (Errors.err x) c = (err x, c)

  -- The `except` clauses of `_send_request`.
  unfoldable pub handle : Exec (Unit {0}) → Reply → Exec Next
  unfolding deliver check_response
  handle reconnect (response status declared chunks body) c =
      deliver status body (check_response status body) c
  handle reconnect certificate_error c =
      if is_false (c.options strict_ssl) && truthy (c.options allow_fallback)
      then (fallback e reconnect http >>= λ _ c'. (ok again, c')) c
      else (err ssl_certificate, c)
  handle reconnect connector_error c =
      if truthy (c.options allow_fallback)
      then ((choose e >>= λ f. fallback e reconnect f) >>= λ _ c'. (ok again, c')) c
      else (err connection_error, reset_connection c)
  handle reconnect client_error c = (err connection_error, c)
  handle reconnect timed_out c = (err timeout, c)
  handle reconnect failed c = (err unexpected, c)

  unfoldable pub round : Exec (Unit {0}) → Request → Exec Next
  round reconnect r = make_request reconnect r >>= λ reply. handle reconnect reply

  -- `_send_request`, with fuel for its rounds.
  unfoldable pub send_request : Exec (Unit {0}) → ℕ → Request → Exec Response
  unfolding finish
  send_request reconnect zero r c = (pending, c)
  send_request reconnect (suc n) r c =
      let (next, c') = round reconnect r c in
      let rest = send_request reconnect n r c' in finish next c' rest
