-- ===== src/Connection/Request/Keeps.antt =====
-- connection.py: an invariant of the rounds is one of `_send_request`.
use asusrouter.Base.{ℕ, zero, suc, arith}
use asusrouter.Connection.State.{
  Request, Conn, Env, Outcome, ok, err, pending, Exec, ◌>>=◌, continue,
}
use asusrouter.Connection.Request.{round, send_request}

-- `m` keeps `P`, however it ends.
abbrev pub Keeps : {A : Type 0} → (Conn → Type 0) → Exec A → Type 0
Keeps P m = (c : Conn) → P c → P (m c).1

Keeps-continue :
    {A B : Type 0} (P : Conn → Type 0) (x : Outcome A) (f : A → Exec B)
    → ((a : A) → Keeps P (f a))
    → Keeps P (continue x f)
Keeps-continue P (ok a) f k c h = k a c h
Keeps-continue P (err e) f k c h = h
Keeps-continue P pending f k c h = h

pub Keeps-bind :
    {A B : Type 0} (P : Conn → Type 0) (m : Exec A) (f : A → Exec B)
    → Keeps P m
    → ((a : A) → Keeps P (f a))
    → Keeps P (m >>= f)
Keeps-bind P m f km kf c h = Keeps-continue P (m c).0 f kf (m c).1 (km c h)

module _ (e : Env) (P : Conn → Type 0) (reconnect : Exec (Unit {0})) (r : Request) where
  pub send_request-Keeps :
      Keeps P (round e reconnect r) → (n : ℕ) → Keeps P (send_request e reconnect n r)
  unfolding send_request
  send_request-Keeps k zero c h = h
  send_request-Keeps k (suc n) c h =
      let kept : P (round e reconnect r c).1 = k c h in
      ground (arith, kept, send_request-Keeps k n (round e reconnect r c).1 kept)
