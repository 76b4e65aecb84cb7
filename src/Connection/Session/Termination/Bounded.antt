-- ===== src/Connection/Session/Termination/Bounded.antt =====
-- connection.py: unless several fallbacks are allowed, no method gives a used fallback back.
use asusrouter.Base.{ℕ, ◌≤◌, true, false, ◌∷◌, ◌≡◌, refl, ◌∙◌, arith}
use asusrouter.Connection.State.{
  http, Fallback, Outcome, ok, err, pending, continue, ◌>>=◌, Request, Reply, response,
  certificate_error, connector_error, Conn, Env, Exec, reset_connection,
}
use asusrouter.Connection.Fallback.{choose, enter, fallback}
use asusrouter.Connection.Request.{again, attempt, transmit, reopen, make_request, handle, round}
use asusrouter.Connection.Request.Keeps.{Keeps, Keeps-bind}
use asusrouter.Connection.Session.{read_login, reconnect, ensure_connected}
use asusrouter.Connection.Session.Keeps.{IsInvariant, reconnect-Keeps, ensure_connected-Keeps}
use asusrouter.Connection.Session.Termination.Rank.{
  rank, several, accept-conn, reset-rank, choose-rank,
}

abbrev Bounded : ℕ → Conn → Type 0
Bounded k c = (several c ≡ false) × (rank c ≤ k)

module _ (e : Env) (k : ℕ) where
  transmit-Bounded : (r : Request) → Keeps (Bounded k) (transmit e r)
  unfolding transmit
  transmit-Bounded r c h =
      let a = attempt e r c in rw (accept-conn e (e.net c.log a) (record c { log = a ∷ c.log })) h

  reopen-Bounded : (m : Exec (Unit {0})) → Keeps (Bounded k) m → Keeps (Bounded k) (reopen e m)
  unfolding reopen
  reopen-Bounded m q c h =
      ground
        (arith, q (record (reset_connection c) { session_closed = false; manage_session = true }))

  http-Bounded : (c : Conn) → Bounded k c → Bounded k (enter e http c)
  unfolding enter
  http-Bounded c h = ground arith

  fallback-Bounded :
      (m : Exec (Unit {0})) (f : Fallback) (c : Conn)
      → Keeps (Bounded k) m
      → Bounded k (enter e f c)
      → Bounded k (fallback e m f c).1
  unfolding fallback
  fallback-Bounded m f c q h =
      let (same_rank, same_several) = reset-rank (enter e f c) in
      q (reset_connection (enter e f c)) (rw (same_several, same_rank) h)

  repeat-Bounded :
      (x : Outcome (Unit {0})) (c : Conn)
      → Bounded k c
      → Bounded k (continue x (λ _ c'. (ok again, c')) c).1
  repeat-Bounded (ok _) c h = h
  repeat-Bounded (err x) c h = h
  repeat-Bounded pending c h = h

  chosen-Bounded :
      (m : Exec (Unit {0})) (x : Outcome Fallback) (c : Conn)
      → Keeps (Bounded k) m
      → Bounded k c
      → ((f : Fallback) → x ≡ ok f → Bounded k (enter e f c))
      → Bounded k (((λ _. (x, c)) >>= (λ f. fallback e m f) >>= λ _ c'. (ok again, c')) c).1
  chosen-Bounded m (ok f) c q h g =
      repeat-Bounded (fallback e m f c).0 (fallback e m f c).1 (fallback-Bounded m f c q (g f refl))
  chosen-Bounded m (err x) c q h g = h
  chosen-Bounded m pending c q h g = h

  choose-Bounded : Keeps (Bounded k) (choose e)
  unfolding choose
  choose-Bounded c h = ground arith

  handle-Bounded :
      (m : Exec (Unit {0})) (x : Reply) → Keeps (Bounded k) m → Keeps (Bounded k) (handle e m x)
  unfolding handle
  handle-Bounded m (response s d ch b) q c h = ground arith
  handle-Bounded m certificate_error q c h =
      let (x, d) = fallback e m http c in
      ground (arith, repeat-Bounded x d (fallback-Bounded m http c q (http-Bounded c h)))
  handle-Bounded m connector_error q c h =
      let (x, d) = choose e c in
      ground (
        arith,
        reset-rank c,
        chosen-Bounded m x d q (choose-Bounded c h)
            (λ f p. let (lower, same) = choose-rank e c f p in (same ∙ h.0, omega arith)),
      )
  handle-Bounded m _ q c h = h

  Bounded-IsInvariant : IsInvariant e (Bounded k)
  unfolding round read_login reset_connection make_request
  Bounded-IsInvariant = record {
    rounds = λ m r q.
        Keeps-bind (Bounded k) (make_request e m r) (handle e m)
          (Keeps-bind (Bounded k) (reopen e m) (λ _. transmit e r) (reopen-Bounded m q)
            (λ _. transmit-Bounded r))
          (λ x. handle-Bounded m x q);
    stores = λ r c h. ground arith;
    resets = λ c h. ground arith;
  }

-- A reconnect leaves no more fallbacks than there were.
pub reconnect-Bounded :
    (e : Env) (n : ℕ) (c : Conn)
    → several c ≡ false
    → (several (reconnect e n c).1 ≡ false) × (rank (reconnect e n c).1 ≤ rank c)
reconnect-Bounded e n c s =
    reconnect-Keeps e (Bounded (rank c)) (Bounded-IsInvariant e (rank c)) n c (s, omega arith)

pub ensure_connected-several :
    (e : Env) (n : ℕ) (c : Conn) → several c ≡ false → several (ensure_connected e n c).1 ≡ false
ensure_connected-several e n c s =
    (ensure_connected-Keeps e (Bounded (rank c)) (Bounded-IsInvariant e (rank c)) n c
      (s, omega arith)).0
