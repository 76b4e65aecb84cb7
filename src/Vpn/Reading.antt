-- ===== src/Vpn/Reading.antt =====
-- asusrouter/modules/endpoint/hook.py: the list of VPN clients in `process_vpnc`, without their status, and
-- the search of a client in modules/vpnc.py.
use asusrouter.Base.{
  ℕ, suc, Bool, true, false, ◌&&◌, Option, none, some, List, [], ◌∷◌, ◌==◌, if◌then◌else◌,
}
use asusrouter.Base.Int.{ℤ, pos, negsuc, ℤ-discrete}
use asusrouter.Base.Dict.{Key, insert}
use asusrouter.Base.Text.{Text, codes, same_text, split, replace}
use asusrouter.Tools.Converters.{text, safe_int}
use asusrouter.Vpn.{
  VpnType, other_type, l2tp, openvpn, pptp, surfshark, wireguard, Info, ClientTable, ClientState,
  state_of, VpnEnding, not_set, row_delimiter, field_delimiter, set_state_vpnc,
}

-- `AsusVPNType(...)`, or `UNKNOWN`.
abbrev pub type_of : Text → VpnType
type_of s =
    if same_text s (codes "L2TP")
    then l2tp
    else if same_text s (codes "OpenVPN")
    then openvpn
    else if same_text s (codes "PPTP")
    then pptp
    else if same_text s (codes "Surfshark")
    then surfshark
    else if same_text s (codes "WireGuard")
    then wireguard
    else other_type

unfoldable pub ClientNumber-discrete : Discrete (Option ℤ)
ClientNumber-discrete = hlevel ℤ-discrete

instance abbrev pub number_key : Key (Option ℤ)
number_key = record { same = ClientNumber-discrete }

-- The text with its angle brackets.
unfoldable pub unescaped : Text → Text
unfolding replace
unescaped s = replace (codes "&#60") (codes "<") (replace (codes "&#62") (codes ">") s)

-- The first argument is `safe_int`'s reading of floats.
module _ (float_int : Text → Option ℤ) where
  unfoldable pub number_in : Text → Option ℤ
  unfolding safe_int
  number_in s = safe_int float_int (text s) none

  -- A row with its number, if it has at least seven fields.
  unfoldable pub read_fields : ℕ → List Text → Option (Option ℤ × Info)
  unfolding number_in
  read_fields unit (name ∷ kind ∷ id ∷ login ∷ password ∷ active ∷ number ∷ rest) =
      some (
        number_in number,
        record { kind = type_of kind; client_id = number_in id; vpnc_unit = unit },
      )
  read_fields unit _ = none

  abbrev pub add_client : Option (Option ℤ × Info) → ClientTable → ClientTable
  add_client none clients = clients
  add_client (some (number, info)) clients = insert number info clients

  -- An empty piece is no row. A row that is read takes the next unit.
  unfoldable pub read_client_row : ℕ → Text → Option (Option ℤ × Info)
  unfolding split read_fields
  read_client_row unit [] = none
  read_client_row unit (c ∷ row) = read_fields unit (split field_delimiter (c ∷ row))

  abbrev pub next_unit : ℕ → Option (Option ℤ × Info) → ℕ
  next_unit unit none = unit
  next_unit unit (some _) = suc unit

  unfoldable pub read_client_rows : ℕ → List Text → ClientTable → ClientTable
  unfolding read_client_row
  read_client_rows unit [] clients = clients
  read_client_rows unit (row ∷ rows) clients =
      read_client_rows (next_unit unit (read_client_row unit row)) rows
        (add_client (read_client_row unit row) clients)

  -- The clients of the list.
  unfoldable pub read_clients : Text → ClientTable
  unfolding split unescaped read_client_rows
  read_clients s = read_client_rows 0 (split row_delimiter (unescaped s)) []

abbrev pub same_vpn_type : VpnType → VpnType → Bool
same_vpn_type l2tp l2tp = true
same_vpn_type openvpn openvpn = true
same_vpn_type pptp pptp = true
same_vpn_type surfshark surfshark = true
same_vpn_type wireguard wireguard = true
same_vpn_type other_type other_type = true
same_vpn_type _ _ = false

abbrev pub same_number : Option ℤ → ℤ → Bool
same_number (some (pos m)) (pos n) = m == n
same_number (some (negsuc m)) (negsuc n) = m == n
same_number _ _ = false

-- `vpn[type][id]`: of several clients with the same type and number the last one stays.
unfoldable pub find_client : VpnType → ℤ → ClientTable → Option Info
find_client kind id [] = none
find_client kind id ((number, info) ∷ clients) =
    let later = find_client kind id clients in
    elim later [
      | some i ↦ some i
      | none ↦
          if same_vpn_type info.kind kind && same_number info.client_id id then some info else none
    ]

abbrev pub unit_in : Option Info → Option ℤ
unit_in none = none
unit_in (some info) = some (pos info.vpnc_unit)

-- `_find_vpnc_unit`; without any data there is none.
unfoldable pub find_vpnc_unit : Option ClientTable → VpnType → ℤ → Option ℤ
unfolding find_client
find_vpnc_unit none kind id = none
find_vpnc_unit (some clients) kind id = unit_in (find_client kind id clients)

-- `set_state_other`, by the number, the known clients and their list.
unfoldable pub set_state_other :
    ClientState → Option ℤ → Option ClientTable → Option Text → Option VpnEnding
unfolding find_vpnc_unit set_state_vpnc
set_state_other state none clients list = some not_set
set_state_other state (some id) clients list = elim (state_of state) [
  | none ↦ some not_set
  | some (kind, vpnc) ↦ set_state_vpnc (some vpnc) (find_vpnc_unit clients kind id) list
]
