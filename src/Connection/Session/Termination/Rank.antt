-- ===== src/Connection/Session/Termination/Rank.antt =====
-- connection.py: the measure of the fallbacks that are left, and what a round does to it.
use asusrouter.Base.{
  ℕ, zero, suc, ap, ◌+◌, ◌*◌, ◌≤◌, ◌<◌, Bool, true, false, not, ◌&&◌, ◌≡◌, Bool-cases,
  if◌then◌else◌, inl, inr, ◌≢◌, sym, ◌∙◌, refl, List, ◌∷◌, arith,
}
use asusrouter.Config.Keys.{allow_multiple_fallbacks, allow_fallback, strict_ssl}
use asusrouter.Connection.State.{
  http, https, https_unsafe, Request, Attempt, Reply, response, certificate_error, connector_error,
  Fallback, Conn, Env, Exec, ok, err, pending, Outcome, truthy, is_secure, is_false, Body, continue,
  reset_connection, ◌>>=◌,
}
use asusrouter.Connection.Fallback.{choose, enter, fallback}
use asusrouter.Connection.Request.{
  Next, done, again, send_request, finish, Response, attempt, accept, transmit, reopen,
  make_request, handle, round, deliver, check_response,
}
use asusrouter.Errors

abbrev bit : Bool → ℕ
bit true = 1
bit false = 0

-- Twice the fallbacks that are not used up, and one more on https.
abbrev pub rank : Conn → ℕ
rank c = 2 * (bit (not c.used_http) + bit (not c.used_https)) + bit (is_secure c)

pub rank-le : (c : Conn) → rank c ≤ 5
rank-le c = ground arith

-- A certificate is checked on https only, so only there can its check fail.
abbrev pub ChecksOnHttps : Env → Type 0
ChecksOnHttps e =
    (log : List Attempt) (a : Attempt) → e.net log a ≡ certificate_error → a.secure ≡ true

-- The option that the clearing of used fallbacks depends on.
abbrev pub several : Conn → Bool
several c = truthy (c.options allow_multiple_fallbacks)

module _ (e : Env) where
  pub accept-conn : (x : Reply) (c : Conn) → (accept e x c).1 ≡ c
  unfolding accept
  accept-conn (response s d ch b) c = ground arith
  accept-conn certificate_error c = refl
  accept-conn _ c = refl

  pub accept-ends : (x : Reply) (c : Conn) → (accept e x c).0 ≢ pending
  unfolding accept
  accept-ends (response s d ch b) c = ground arith
  accept-ends certificate_error c = λ q. cc
  accept-ends _ c = λ q. cc

  pub accept-certificate :
      (x : Reply) (c : Conn) → (accept e x c).0 ≡ ok certificate_error → x ≡ certificate_error
  unfolding accept
  accept-certificate (response s d ch b) c h = ground arith
  accept-certificate certificate_error c h = refl
  accept-certificate _ c h = cc

  -- A chosen fallback was left, or the scheme changes with it.
  pub choose-rank :
      (c : Conn) (f : Fallback)
      → (choose e c).0 ≡ ok f
      → (rank (enter e f (choose e c).1) < rank c)
        × (several (enter e f (choose e c).1) ≡ several c)
  unfolding choose enter
  choose-rank c http h = ground arith
  choose-rank c https h = ground arith
  choose-rank c https_unsafe h = ground arith

  choose-several : (c : Conn) → ((choose e c).0 ≢ pending) × (several (choose e c).1 ≡ several c)
  unfolding choose
  choose-several c = ground arith

  certificate-rank :
      (c : Conn)
      → is_secure c ≡ true
      → (rank (enter e http c) < rank c) × (several (enter e http c) ≡ several c)
  unfolding enter
  certificate-rank c h = ground arith

pub reset-rank :
    (c : Conn) → (rank (reset_connection c) ≡ rank c) × (several (reset_connection c) ≡ several c)
unfolding reset_connection
reset-rank c = ground arith

-- A reconnect that ends, gives no fallback back, and keeps what `S` says of the option.
abbrev pub Steady : (Bool → Type 0) → Exec (Unit {0}) → Type 0
Steady S m =
    (c : Conn) → S (several c) → S (several (m c).1) × (rank (m c).1 ≤ rank c) × ((m c).0 ≢ pending)

module _ (e : Env) (S : Bool → Type 0) (m : Exec (Unit {0})) (steady : Steady S m) where
  -- The reconnect that a fallback makes.
  fallback-rank :
      (f : Fallback) (c : Conn) (k : ℕ)
      → S (several c)
      → (rank (enter e f c) < k) × (several (enter e f c) ≡ several c)
      → S (several (fallback e m f c).1)
        × (rank (fallback e m f c).1 < k)
        × ((fallback e m f c).0 ≢ pending)
  unfolding fallback
  fallback-rank f c k s (r, q) =
      let d = reset_connection (enter e f c) in
      let (same_rank, same_several) = reset-rank (enter e f c) in
      let kept : S (several d) = rw (same_several, q) s in
      let (s', r', p') = steady d kept in (s', omega arith, p')

  -- A round is over, and asks for a further one with a lower rank only.
  abbrev pub Progress : ℕ → Outcome Next → Conn → Type 0
  Progress k x c = (x ≢ pending) × (x ≡ ok again → S (several c) × (rank c < k))

  after-fallback :
      (x : Outcome Unit) (c : Conn) (k : ℕ)
      → S (several c) × (rank c < k) × (x ≢ pending)
      → let (y, c') = continue x (λ _ c'. (ok again, c')) c in Progress k y c'
  after-fallback (ok _) c k (s, r, p) = (λ q. cc, λ _. (s, r))
  after-fallback (err x) c k (s, r, p) = (λ q. cc, λ q. cc)
  after-fallback pending c k (s, r, p) = absurd (p refl)

  delivered :
      (status : ℕ) (b : Body) (x : Errors.Result Unit) (c : Conn) (k : ℕ)
      → let (y, c') = deliver e status b x c in Progress k y c'
  unfolding deliver
  delivered status b (Errors.ok _) c k = (λ q. cc, λ q. cc)
  delivered status b (Errors.err x) c k = (λ q. cc, λ q. cc)

  after-choose :
      (x : Outcome Fallback) (c : Conn) (k : ℕ)
      → x ≢ pending
      → S (several c)
      → ((f : Fallback) → x ≡ ok f → (rank (enter e f c) < k) × (several (enter e f c) ≡ several c))
      → let (y, c') = ((λ _. (x, c)) >>= (λ f. fallback e m f) >>= λ _ c'. (ok again, c')) c in
        Progress k y c'
  after-choose (ok f) c k p s h =
      let (y, c') = fallback e m f c in after-fallback y c' k (fallback-rank f c k s (h f refl))
  after-choose (err x) c k p s h = (λ q. cc, λ q. cc)
  after-choose pending c k p s h = absurd (p refl)

  pub handle-rank :
      (x : Reply) (c : Conn)
      → S (several c)
      → (x ≡ certificate_error → is_secure c ≡ true)
      → let (y, c') = handle e m x c in Progress (rank c) y c'
  unfolding handle
  handle-rank (response s d ch b) c k h = delivered s b (check_response e s b) c (rank c)
  handle-rank certificate_error c k h =
      elim (Bool-cases (is_false (c.options strict_ssl) && truthy (c.options allow_fallback))) [
        | inl p ↦
            let (y, c') = fallback e m http c in
            rw p (
              after-fallback y c' (rank c)
                (fallback-rank http c (rank c) k (certificate-rank e c (h refl))))
        | inr p ↦ rw p (λ q. cc, λ q. cc)
      ]
  handle-rank connector_error c k h = elim (Bool-cases (truthy (c.options allow_fallback))) [
    | inl p ↦
        let (y, c') = choose e c in
        rw p (
          after-choose y c' (rank c) (choose-several e c).0 (rw ((choose-several e c).1) k) (λ f q.
            let (lower, same) = choose-rank e c f q in (lower, same ∙ sym (choose-several e c).1)))
    | inr p ↦ rw p (λ q. cc, λ q. cc)
  ]
  handle-rank _ c k h = (λ p. cc, λ p. cc)

  weaken : (j k : ℕ) (x : Outcome Next) (c : Conn) → j ≤ k → Progress j x c → Progress k x c
  weaken j k x c h (p, q) = (p, λ a. ((q a).0, omega (arith, (q a).1)))

  next_round :
      (x : Outcome Next) (c : Conn) (rest : Outcome Response × Conn)
      → x ≢ pending
      → (x ≡ ok again → rest.0 ≢ pending)
      → (finish x c rest).0 ≢ pending
  unfolding finish
  next_round (ok (done d)) c rest p q = λ a. cc
  next_round (ok again) c rest p q = q refl
  next_round (err x) c rest p q = λ a. cc
  next_round pending c rest p q = absurd (p refl)

  module _ (checks : ChecksOnHttps e) (r : Request) where
    after-transmit :
        (x : Outcome Reply) (c : Conn) (k : ℕ)
        → S (several c)
        → (x ≡ ok certificate_error → is_secure c ≡ true)
        → rank c ≤ k
        → x ≢ pending
        → let (y, c') = continue x (handle e m) c in Progress k y c'
    after-transmit (ok x) c k s h le p =
        let (y, c') = handle e m x c in
        weaken (rank c) k y c' le (handle-rank x c s (λ q. h (ap ok q)))
    after-transmit (err x) c k s h le p = (λ q. cc, λ q. cc)
    after-transmit pending c k s h le p = absurd (p refl)

    transmitted :
        (c : Conn) (k : ℕ)
        → S (several c)
        → rank c ≤ k
        → let (y, c') = (transmit e r >>= handle e m) c in Progress k y c'
    unfolding transmit
    transmitted c k s le =
        let a = attempt e r c in
        let sent = record c { log = a ∷ c.log } in
        let x = e.net c.log a in
        let same = accept-conn e x sent in
        after-transmit (accept e x sent).0 (accept e x sent).1 k (rw same s)
          (λ q. rw same (checks c.log a (accept-certificate e x sent q))) (rw same le)
          (accept-ends e x sent)

    after-reopen :
        (x : Outcome Unit) (c : Conn) (k : ℕ)
        → S (several c) × (rank c ≤ k) × (x ≢ pending)
        → let (y, c') = ((λ _. (x, c)) >>= (λ _. transmit e r) >>= handle e m) c in Progress k y c'
    after-reopen (ok _) c k (s, le, p) = transmitted c k s le
    after-reopen (err x) c k h = (λ q. cc, λ q. cc)
    after-reopen pending c k (s, le, p) = absurd (p refl)

    either :
        (b : Bool) (x y : Outcome Unit × Conn) (k : ℕ)
        → S (several x.1) × (rank x.1 ≤ k) × (x.0 ≢ pending)
        → S (several y.1) × (rank y.1 ≤ k) × (y.0 ≢ pending)
        → let (z, c) = if b then x else y in S (several c) × (rank c ≤ k) × (z ≢ pending)
    either true x y k p q = p
    either false x y k p q = q

    reopened :
        (c : Conn)
        → S (several c)
        → let (x, c') = reopen e m c in S (several c') × (rank c' ≤ rank c) × (x ≢ pending)
    unfolding reopen
    reopened c s =
        let (same_rank, same_several) = reset-rank c in
        let d = record (reset_connection c) { session_closed = false; manage_session = true } in
        let kept : S (several d) = rw same_several s in
        let (s', le, q) = steady d kept in
        either c.session_closed (m d) (ok tt, c) (rank c) (s', omega arith, q)
          (s, omega arith, λ a. cc)

    -- A round ends, and asks for a further one with a lower rank only.
    pub round-Progress :
        (c : Conn) → S (several c) → let (y, c') = round e m r c in Progress (rank c) y c'
    unfolding round make_request
    round-Progress c s = let (x, c') = reopen e m c in after-reopen x c' (rank c) (reopened c s)

    -- With more fuel than fallbacks are left, the loop ends.
    pub send_request-ne-pending :
        (n : ℕ) (c : Conn) → S (several c) → rank c < n → (send_request e m n r c).0 ≢ pending
    unfolding send_request
    send_request-ne-pending zero c s h = absurd (omega arith)
    send_request-ne-pending (suc n) c s h =
        let (p, q) = round-Progress c s in
        next_round (round e m r c).0 (round e m r c).1 (send_request e m n r (round e m r c).1) p
          (λ a. send_request-ne-pending n (round e m r c).1 (q a).0 (omega (arith, (q a).1)))
