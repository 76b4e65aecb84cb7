-- ===== src/Clients/Process.antt =====
-- asusrouter/modules/client.py: the state of a client, and what is kept of its connection.
use asusrouter.Base.{ℕ, Bool, true, false, ◌&&◌, ◌||◌, Option, none, some, ltb, if◌then◌else◌}
use asusrouter.Base.Int.{ℤ, ◌-ℤ◌, abs}
use asusrouter.Base.Dict.{Dict}
use asusrouter.Base.Text.{Text}
use asusrouter.Tools.Converters.{Value, null}
use asusrouter.Clients.{
  ConnectionState, connected_state, disconnected_state, ConnectionType, disconnected, AddressType,
  static, Wlan, ClientConnection, Description, Client,
}
use asusrouter.Clients.Reading.{◌>>=◌, process_client_description, process_client_connection}

abbrev pub is_null : Value → Bool
is_null null = true
is_null v = false

abbrev pub is_disconnected : ConnectionType → Bool
is_disconnected disconnected = true
is_disconnected _ = false

-- `value is True`
abbrev pub is_true : Option Bool → Bool
is_true (some true) = true
is_true _ = false

abbrev pub is_static : Option AddressType → Bool
is_static (some static) = true
is_static _ = false

abbrev pub oscillation_threshold : ℕ
oscillation_threshold = 10

abbrev pub kept_since : Option ℤ → Option ℤ → Option ℤ
kept_since (some t) (some old) =
    if ltb (abs (old -ℤ t)) oscillation_threshold then some old else some t
kept_since since old = since

abbrev pub is_connected : ConnectionState → Bool
is_connected connected_state = true
is_connected _ = false

module _ {F : Type 0} where
  -- `process_client_state`, by whether the router has AiMesh.
  unfoldable pub process_client_state : Bool → ClientConnection F → ConnectionState
  process_client_state aimesh c =
      if is_null c.ip_address || is_disconnected c.kind
      then disconnected_state
      else if is_true c.aimesh
      then disconnected_state
      else if aimesh && is_null c.node
      then disconnected_state
      else if is_true c.online
      then connected_state
      else disconnected_state

  -- `process_disconnected`
  unfoldable pub process_disconnected : ClientConnection F → ClientConnection F
  process_disconnected c = record {
    kind = disconnected;
    ip_address = if is_static c.ip_method then c.ip_address else null;
    ip_method = c.ip_method;
    internet_state = none;
    internet_mode = c.internet_mode;
    node = null;
    online = some false;
    aimesh = none;
    wlan = none;
  }

  abbrev pub with_since : Option (Wlan F) → Option (Wlan F) → Option (Wlan F)
  with_since (some w) (some old) = some (record w { since = kept_since w.since old.since })
  with_since w old = w

  -- `process_history`
  unfoldable pub process_history : ClientConnection F → ClientConnection F → ClientConnection F
  process_history c old = record c { wlan = with_since c.wlan old.wlan }

  unfoldable pub with_history : Option (Client F) → ClientConnection F → ClientConnection F
  unfolding process_history
  with_history none c = c
  with_history (some old) c = elim old.connection [ none ↦ c | some h ↦ process_history c h ]

  unfoldable pub cleaned : ConnectionState → ClientConnection F → ClientConnection F
  unfolding process_disconnected
  cleaned state c = if is_connected state then c else process_disconnected c

  -- The rest of `process_client` after the reading.
  unfoldable pub client_of : Bool → Option (Client F) → Description → ClientConnection F → Client F
  unfolding process_client_state cleaned with_history
  client_of aimesh history description c = record {
    state = process_client_state aimesh c;
    description = some description;
    connection = some (with_history history (cleaned (process_client_state aimesh c) c));
  }

  -- `process_client`
  unfoldable pub process_client :
      (Text → Option ℤ)
      → (Value → Option F)
      → ℤ
      → Bool
      → Dict Text Value
      → Option (Client F)
      → Option (Client F)
  unfolding process_client_description process_client_connection client_of
  process_client float_int safe_float now aimesh d history = do
    description ← process_client_description d
    connection ← process_client_connection float_int safe_float now d
    some (client_of aimesh history description connection)
