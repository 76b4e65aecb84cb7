-- ===== src/Clients/Reading.antt =====
-- asusrouter/modules/client.py: how the description of a client is read.
use asusrouter.Base.{zero, Bool, true, false, Option, none, some, List, [], ◌∷◌, if◌then◌else◌}
use asusrouter.Base.Int.{ℤ, pos}
use asusrouter.Base.Dict.{Dict, lookup}
use asusrouter.Base.Text.{Text, codes, text_key}
use asusrouter.Tools.Converters.{Value, null, bool, int, text, safe_bool, safe_int}
use asusrouter.Clients.{
  ConnectionType, wired, disconnected, unknown_mode, type_of_number, get_internet_mode,
  read_ip_address_type, replace_vendor, since_of, Wlan, ClientConnection, Description,
}

-- The chain of steps that may raise.
infixl 5 ◌>>=◌
abbrev pub ◌>>=◌ : {A B : Type 0} → Option A → (A → Option B) → Option B
none >>= f = none
some a >>= f = f a

-- `item is not None and item != ""`
abbrev pub is_actual : Option Value → Bool
is_actual none = false
is_actual (some null) = false
is_actual (some (text [])) = false
is_actual (some v) = true

abbrev pub Reader : Type 0 → Type 0
Reader A = List (Text × (Value → Option A))

module _ {A : Type 0} where
  abbrev pub converted : Option Value → (Value → Option A) → Option A → Option A
  converted none f rest = rest
  converted (some v) f rest = if is_actual (some v) then f v else rest

  -- One key of the mapping of `process_data`: the value under the first key that has one, by its
  -- converter, or else what the object has.
  unfoldable pub read_first : Reader A → Dict Text Value → A → Option A
  unfolding lookup
  read_first [] d default = some default
  read_first ((k, f) ∷ rs) d default = converted (lookup k d) f (read_first rs d default)

  -- A converter that cannot raise.
  abbrev pub always : (Value → A) → Value → Option A
  always f v = some (f v)

abbrev pub as_is : Value → Option Value
as_is v = some v

abbrev pub one : {A : Type 0} → Text → (Value → Option A) → Reader A
one k f = (k, f) ∷ []

-- `CLIENT_MAP_DESCRIPTION`
unfoldable pub process_client_description : Dict Text Value → Option Description
unfolding read_first
process_client_description d = do
  name ←
      read_first ((codes "nickName", as_is) ∷ (codes "name", as_is) ∷ one (codes "mac") as_is) d
        null
  mac ← read_first (one (codes "mac") as_is) d null
  vendor ← read_first (one (codes "vendor") replace_vendor) d null
  some (record { name = name; mac = mac; vendor = vendor })

abbrev pub is_wireless : ConnectionType → Bool
is_wireless wired = false
is_wireless disconnected = false
is_wireless _ = true

-- `guest_id != 0 and guest_id is not None`
abbrev pub is_guest : Value → Bool
is_guest null = false
is_guest (int (pos zero)) = false
is_guest (bool false) = false
is_guest _ = true

abbrev pub or_null : Option ℤ → Value
or_null none = null
or_null (some z) = int z

-- The second argument is `safe_int`'s reading of floats, the third `safe_float`.
module _ {F : Type 0} (float_int : Text → Option ℤ) (safe_float : Value → Option F) where
  unfoldable pub number_of : Value → Option ℤ
  unfolding safe_int
  number_of v = safe_int float_int v none

  unfoldable pub connection_type : Value → ConnectionType
  unfolding safe_int
  connection_type v = type_of_number (safe_int float_int v none)

  -- `CLIENT_MAP_CONNECTION`
  unfoldable pub read_connection : Dict Text Value → Option (ClientConnection F)
  unfolding read_first read_ip_address_type safe_bool connection_type
  read_connection d = do
    kind ←
        read_first
          ((codes "connection_type", always connection_type)
            ∷ one (codes "isWL") (always connection_type))
          d disconnected
    ip ← read_first (one (codes "ip") as_is) d null
    method ←
        read_first (one (codes "ipMethod") (always (λ v. some (read_ip_address_type v)))) d none
    internet ← read_first (one (codes "internetState") (always safe_bool)) d none
    mode ← read_first (one (codes "internetMode") (always get_internet_mode)) d unknown_mode
    node ← read_first (one (codes "node") as_is) d null
    online ←
        read_first ((codes "online", always safe_bool) ∷ one (codes "isOnline") (always safe_bool))
          d (some false)
    aimesh ← read_first (one (codes "amesh_isRe") (always safe_bool)) d none
    some (record {
      kind = kind;
      ip_address = ip;
      ip_method = method;
      internet_state = internet;
      internet_mode = mode;
      node = node;
      online = online;
      aimesh = aimesh;
      wlan = none;
    })

  -- `CLIENT_MAP_CONNECTION_WLAN`, at the time in seconds, and the mark of a guest.
  unfoldable pub read_wlan : ℤ → Dict Text Value → Option (Wlan F)
  unfolding read_first since_of number_of
  read_wlan now d = do
    guest_id ←
        read_first
          ((codes "guest", as_is) ∷ one (codes "isGN") (always (λ v. or_null (number_of v)))) d null
    rssi ← read_first (one (codes "rssi") (always number_of)) d none
    since ←
        read_first (one (codes "wlConnectTime") (λ v. since_of now v >>= λ t. some (some t))) d none
    rx ← read_first (one (codes "curRx") (always safe_float)) d none
    tx ← read_first (one (codes "curTx") (always safe_float)) d none
    some (record {
      guest = some (is_guest guest_id);
      guest_id = guest_id;
      rssi = rssi;
      since = since;
      rx_speed = rx;
      tx_speed = tx;
    })

  -- `process_client_connection_wlan`
  unfoldable pub process_client_connection_wlan :
      ℤ → Dict Text Value → ClientConnection F → Option (ClientConnection F)
  unfolding read_wlan
  process_client_connection_wlan now d c = do w ← read_wlan now d; some (record c { wlan = some w })

  -- `process_client_connection`
  unfoldable pub process_client_connection : ℤ → Dict Text Value → Option (ClientConnection F)
  unfolding read_connection process_client_connection_wlan
  process_client_connection now d = read_connection d >>= λ c.
      if is_wireless c.kind then process_client_connection_wlan now d c else some c
