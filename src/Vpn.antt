-- ===== src/Vpn.antt =====
-- asusrouter/modules/vpnc.py: the clients of VPN Fusion, which the router keeps in one text, and the
-- switch of one of them. An exception is `none`.
pub mod Reading
pub mod Units
pub mod Switched
pub mod Chosen
pub mod Services
use mathlib.Core.Option.{map as map_option}
use asusrouter.Base.{
  ℕ, zero, suc, Bool, true, false, Option, none, some, List, [], ◌∷◌, length, ltb, if◌then◌else◌,
}
use asusrouter.Base.Int.{ℤ, pos, negsuc, ltb_ℤ}
use asusrouter.Base.Positions.{item_at, change_at, index}
use asusrouter.Base.Dict.{Key, Dict, lookup}
use asusrouter.Base.Text.{Text, codes, split, join}
use asusrouter.Tools.Converters.{Value, int, text}
use asusrouter.Service.{ServiceArguments}

-- `AsusVPNC`; `OFF` is `disconnected` and `ON` is `connecting`.
pub data VpncState : Type 0 where
  unknown connecting connected error disconnected : VpncState

-- `AsusVPNType`
pub data VpnType : Type 0 where
  other_type l2tp openvpn pptp surfshark wireguard : VpnType

-- The states of `AsusOVPNClient` and `AsusWireGuardClient` with the values 0 and 1, and all others.
pub data ClientState : Type 0 where
  openvpn_on openvpn_off openvpn_other wireguard_on wireguard_off wireguard_other : ClientState

-- A service call.
pub record Call : Type 0 where
  pub service : Text
  pub arguments : ServiceArguments

-- How a setter ends: with `False`, or with a service call.
pub data VpnEnding : Type 0 where
  not_set : VpnEnding
  calls : Call → VpnEnding

abbrev pub row_delimiter : ℕ
row_delimiter = b'<'

abbrev pub field_delimiter : ℕ
field_delimiter = b'>'

-- `xs[i] = x`, in place of an item; `none` is an `IndexError`.
abbrev pub replace_at : {A : Type 0} → ℕ → A → List A → Option (List A)
replace_at i x xs = if ltb i (length xs) then some (change_at i (λ _. x) xs) else none

-- The sixth field of a row is its state.
unfoldable pub with_state : Text → Text → Option Text
unfolding split join
with_state state client =
    map_option (join (field_delimiter ∷ [])) (replace_at 5 state (split field_delimiter client))

abbrev pub put_row : List Text → ℕ → Option Text → Option Text
put_row clients i none = none
put_row clients i (some row) = some (join (row_delimiter ∷ []) (change_at i (λ _. row) clients))

abbrev pub change_row : List Text → Text → Option ℕ → Option Text
change_row clients state none = none
change_row clients state (some i) = elim (item_at i clients) [
  | none ↦ none
  | some row ↦ put_row clients i (with_state state row)
]

-- `_get_argument_clientlist` on a list, a unit and a state: no list if the unit is too large, an error if
-- it is too small or the row has no state.
unfoldable pub get_argument_clientlist : Text → ℤ → Text → Option (Option Text)
unfolding split with_state
get_argument_clientlist clientlist unit state =
    let clients = split row_delimiter clientlist in
    if ltb_ℤ unit (pos (length clients))
    then map_option some (change_row clients state (index unit (length clients)))
    else some none

-- `VPNC_STATE_MAPPING`
abbrev pub service_of : VpncState → Option (Text × Text)
service_of connecting = some (codes "restart_vpnc", codes "1")
service_of disconnected = some (codes "stop_vpnc", codes "0")
service_of _ = none

abbrev pub call_of : Text → ℤ → Option (Option Text) → Option VpnEnding
call_of service unit none = none
call_of service unit (some none) = some not_set
call_of service unit (some (some [])) = some not_set
call_of service unit (some (some (c ∷ list))) = some (
    calls (record {
      service = service;
      arguments = (codes "vpnc_unit", int unit) ∷ (codes "vpnc_clientlist", text (c ∷ list)) ∷ [];
    }))

abbrev pub set_service : Option (Text × Text) → ℤ → Text → Option VpnEnding
set_service none unit list = some not_set
set_service (some (service, state)) unit list =
    call_of service unit (get_argument_clientlist list unit state)

-- `set_state_vpnc`, by the unit and the known list of clients.
unfoldable pub set_state_vpnc : Option VpncState → Option ℤ → Option Text → Option VpnEnding
unfolding get_argument_clientlist
set_state_vpnc (some state) (some unit) (some (c ∷ list)) =
    set_service (service_of state) unit (c ∷ list)
set_state_vpnc _ _ _ = some not_set

-- What is kept of a client: its type, its number of this type, and its unit.
pub record Info : Type 0 where
  pub kind : VpnType
  pub client_id : Option ℤ
  pub vpnc_unit : ℕ

-- The clients by their numbers in the list.
abbrev pub ClientTable : Type 0
ClientTable = List (Option ℤ × Info)

-- `OTHER_STATE_MAPPING`, with the type that is searched.
abbrev pub state_of : ClientState → Option (VpnType × VpncState)
state_of openvpn_on = some (openvpn, connecting)
state_of openvpn_off = some (openvpn, disconnected)
state_of wireguard_on = some (wireguard, connecting)
state_of wireguard_off = some (wireguard, disconnected)
state_of _ = none
