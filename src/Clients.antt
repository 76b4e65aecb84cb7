-- ===== src/Clients.antt =====
-- asusrouter/modules/client.py, with modules/connection.py, modules/ip_address.py and
-- modules/vendor.py: what is made of the description of a client. Its values are those of an answer,
-- and what Python reads as a float is of a type of its own.
pub mod Reading
pub mod Process
pub mod States
pub mod Processed
pub mod History
use asusrouter.Base.{
  ℕ, zero, suc, Bool, true, false, not, ◌&&◌, ◌||◌, Option, none, some, List, [], ◌∷◌, ◌++◌, ltb,
  if◌then◌else◌,
}
use asusrouter.Base.Int.{ℤ, pos, negsuc, ◌+ℤ◌, ◌-ℤ◌, times, abs}
use asusrouter.Base.Dict.{Dict, lookup}
use asusrouter.Base.Text.{
  Text, codes, same_text, starts_with, strip, lower, split, replace, text_key,
}
use mathlib.Core.List.{reverse}
use asusrouter.Tools.Converters.{
  Value, null, bool, int, text, clean_string, safe_bool, safe_int, int_10,
}

-- `ConnectionState`
pub data ConnectionState : Type 0 where
  unknown_state disconnected_state connected_state : ConnectionState

-- `ConnectionType`
pub data ConnectionType : Type 0 where
  wired wlan_2g wlan_5g wlan_5g2 wlan_6g disconnected : ConnectionType

-- `InternetMode`
pub data InternetMode : Type 0 where
  allow block time unknown_mode : InternetMode

-- `IPAddressType`
pub data AddressType : Type 0 where
  dhcp pppoe pptp static unknown_address : AddressType

-- `CONNECTION_TYPE.get(value, ConnectionType.WIRED)`
abbrev pub type_of_number : Option ℤ → ConnectionType
type_of_number (some (pos (suc zero))) = wlan_2g
type_of_number (some (pos (suc (suc zero)))) = wlan_5g
type_of_number (some (pos (suc (suc (suc zero))))) = wlan_5g2
type_of_number (some (pos (suc (suc (suc (suc zero)))))) = wlan_6g
type_of_number _ = wired

abbrev pub mode_of_text : Text → InternetMode
mode_of_text s =
    if same_text s (codes "allow")
    then allow
    else if same_text s (codes "block")
    then block
    else if same_text s (codes "time")
    then time
    else unknown_mode

-- `get_internet_mode`
abbrev pub get_internet_mode : Value → InternetMode
get_internet_mode (text s) = mode_of_text s
get_internet_mode _ = unknown_mode

abbrev pub address_type_of : Text → AddressType
address_type_of s =
    if same_text s (codes "dhcp")
    then dhcp
    else if same_text s (codes "pppoe")
    then pppoe
    else if same_text s (codes "pptp")
    then pptp
    else if same_text s (codes "static")
    then static
    else if same_text s (codes "manual")
    then static
    else unknown_address

unfoldable pub address_type_in : Option Text → AddressType
unfolding lower
address_type_in none = unknown_address
address_type_in (some s) = address_type_of (lower s)

-- `read_ip_address_type`
unfoldable pub read_ip_address_type : Value → AddressType
unfolding clean_string address_type_in
read_ip_address_type (text s) = address_type_in (clean_string s)
read_ip_address_type _ = unknown_address

abbrev pub vendor_name : Text → Text
vendor_name s =
    if starts_with (codes "android-dhcp-") s
    then codes "Android " ++ replace (codes "android-dhcp-") [] s
    else if same_text s (codes "MSFT 5.0")
    then codes "Microsoft Corporation"
    else s

-- `replace_vendor`; here and below `none` is the error of a value that is no text.
abbrev pub replace_vendor : Value → Option Value
replace_vendor (text s) = some (text (vendor_name s))
replace_vendor _ = none

-- The seconds of `timedelta(hours=..., minutes=..., seconds=...)`; 0 if a part is no integer.
abbrev pub seconds_of : Option ℤ → Option ℤ → Option ℤ → ℤ
seconds_of (some h) (some m) (some s) = times 3600 h +ℤ (times 60 m +ℤ s)
seconds_of _ _ _ = pos 0

-- The last three parts, last first.
unfoldable pub seconds_in : List Text → ℤ
unfolding int_10 strip
seconds_in (s ∷ m ∷ h ∷ parts) = seconds_of (int_10 (strip h)) (int_10 (strip m)) (int_10 (strip s))
seconds_in _ = pos 0

unfoldable pub clean_seconds : Option Text → ℤ
unfolding seconds_in
clean_seconds none = pos 0
clean_seconds (some s) = seconds_in (reverse (split b':' s))

-- `safe_time_from_delta`, at a time in seconds.
unfoldable pub since_of : ℤ → Value → Option ℤ
unfolding clean_string clean_seconds
since_of now (text s) = some (now -ℤ clean_seconds (clean_string s))
since_of now null = some now
since_of now (bool false) = some now
since_of now (int (pos zero)) = some now
since_of now _ = none

-- What is of interest of `AsusClientConnectionWlan`, beside the fields that every connection has. The
-- speeds are floats.
pub record Wlan (F : Type 0) : Type 0 where
  pub guest : Option Bool
  pub guest_id : Value
  pub rssi : Option ℤ
  pub since : Option ℤ
  pub rx_speed : Option F
  pub tx_speed : Option F

-- `AsusClientConnection`, or `AsusClientConnectionWlan` with its further fields.
pub record ClientConnection (F : Type 0) : Type 0 where
  pub kind : ConnectionType
  pub ip_address : Value
  pub ip_method : Option AddressType
  pub internet_state : Option Bool
  pub internet_mode : InternetMode
  pub node : Value
  pub online : Option Bool
  pub aimesh : Option Bool
  pub wlan : Option (Wlan F)

-- `AsusClientDescription`
pub record Description : Type 0 where
  pub name : Value
  pub mac : Value
  pub vendor : Value

-- `AsusClient`
pub record Client (F : Type 0) : Type 0 where
  pub state : ConnectionState
  pub description : Option Description
  pub connection : Option (ClientConnection F)
