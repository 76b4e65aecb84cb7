-- ===== src/Connection/State.antt =====
-- connection.py: the object `Connection`, one attempt to reach the router, and its answers.
use asusrouter.Base.{
  ℕ, zero, suc, Bool, true, false, not, Option, none, List, [], ◌∷◌, if◌then◌else◌,
}
use asusrouter.Base.Int.{ℤ, pos, negsuc}
use asusrouter.Base.Text.{Text}
use asusrouter.Tools.Converters.{Value, null, bool, int, text}
use asusrouter.Endpoint.{Endpoint, RequestType}
use asusrouter.Errors.{Error}
use asusrouter.Errors.Access.{Message}
use asusrouter.Config.Keys.{use_ssl, port}
use asusrouter.Config.Instance.{safe_int_config}
use asusrouter.ConnectionConfig.{Options}

-- `ConnectionFallback`
pub data Fallback : Type 0 where
  http https https_unsafe : Fallback

-- The headers of a request: the user agent is constant, and the cookie carries the token.
pub record Header : Type 0 where
  pub cookie : Option Text

pub record Request : Type 0 where
  pub endpoint : Endpoint
  pub payload : Option Text
  pub headers : Option Header
  pub request_type : RequestType

-- What one call of `session.request` is given that depends on the state.
pub record Attempt : Type 0 where
  pub endpoint : Endpoint
  pub payload : Option Text
  pub headers : Option Header
  pub request_type : RequestType
  pub secure : Bool
  pub port_number : ℤ
  pub verify : Value

-- The decoded content of a response: whether it names an `error_status`, the object that is read
-- from it, whether `json.loads` takes it for an object, and the `asus_token` in that.
pub record Body : Type 0 where
  pub marked : Bool
  pub message : Message
  pub is_json : Bool
  pub asus_token : Option Text

-- What the session may do: answer with a status, a declared size, chunks of given sizes and their
-- content; or raise, by the exceptions that `_send_request` tells apart.
pub data Reply : Type 0 where
  response : ℕ → Option ℤ → List ℕ → Body → Reply
  certificate_error connector_error client_error timed_out failed : Reply

pub record Conn : Type 0 where
  pub options : Options
  -- the keys of `_used_fallbacks`
  pub used_http : Bool
  pub used_https : Bool
  pub used_https_unsafe : Bool
  pub token : Option Text
  pub header : Option Header
  pub connected : Bool
  pub session_closed : Bool
  pub manage_session : Bool
  -- the attempts made so far, the last one first
  pub log : List Attempt

-- What the connection does not implement: Python's reading of floats, the network, which may answer
-- by everything that was sent so far, and the login payload, which is the encoded credentials.
pub record Env : Type 0 where
  pub float_int : Text → Option ℤ
  pub net : List Attempt → Attempt → Reply
  pub login_payload : Text

-- How a call ends; `pending` is a loop whose fuel has run out.
pub data Outcome (A : Type 0) : Type 0 where
  ok : A → Outcome A
  err : Error → Outcome A
  pending : Outcome A

-- A method: what was written before a raise stays written.
abbrev pub Exec : Type 0 → Type 0
Exec A = Conn → Outcome A × Conn

abbrev pub continue : {A B : Type 0} → Outcome A → (A → Exec B) → Exec B
continue (ok a) f c = f a c
continue (err e) f c = (err e, c)
continue pending f c = (pending, c)

infixl 5 ◌>>=◌
abbrev pub ◌>>=◌ : {A B : Type 0} → Exec A → (A → Exec B) → Exec B
◌>>=◌ m f c = let (r, c') = m c in continue r f c'

-- `if self.config.get(k)`
abbrev pub truthy : Value → Bool
truthy null = false
truthy (bool b) = b
truthy (int (pos n)) = elim n [ zero ↦ false | suc k ↦ true ]
truthy (int (negsuc n)) = true
truthy (text []) = false
truthy (text (c ∷ s)) = true

-- `self.config.get(k) is False`
abbrev pub is_false : Value → Bool
is_false (bool b) = not b
is_false _ = false

-- The property `port`.
unfoldable pub port_of : Env → Conn → ℤ
port_of e c = safe_int_config e.float_int (c.options port)

-- The property `http`, as whether the scheme is https.
abbrev pub is_secure : Conn → Bool
is_secure c = truthy (c.options use_ssl)

-- `reset_connection`
unfoldable pub reset_connection : Conn → Conn
reset_connection c =
    if c.connected then record c { connected = false; token = none; header = none } else c
