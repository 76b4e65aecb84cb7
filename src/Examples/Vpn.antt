-- ===== src/Examples/Vpn.antt =====
-- Clients of asusrouter/modules/vpnc.py, openvpn.py and wireguard.py that are switched.
use asusrouter.Base.{ℕ_discrete, ◌≡◌, refl, Option, none, some, [], ◌∷◌, All}
use asusrouter.Base.Int.{ℤ, ℤ-discrete, pos}
use asusrouter.Base.Dict.{insert}
use asusrouter.Base.Text.{Text, codes, split}
use asusrouter.Tools.Converters.{int, text}
use asusrouter.Vpn.{openvpn, connecting, openvpn_on, Call, calls, row_delimiter}
use asusrouter.Vpn.Reading.{
  unescaped, read_client_row, read_clients, set_state_other, ClientNumber-discrete,
}
use asusrouter.Vpn.Services.{
  client, server, on, off, numbered, set_state_openvpn, set_state_wireguard,
}
use asusrouter.Vpn.Services.Fixed.{
  openvpn_services, wireguard_services, IsFixed, set_state_openvpn-IsFixed,
  set_state_wireguard-IsFixed,
}
use asusrouter.Vpn.Units.{IsRow}
use asusrouter.Vpn.Chosen.{IsChosen, set_state_other-IsChosen}

abbrev no_floats : Text → Option ℤ
no_floats s = none

abbrev listed : Text
listed = codes "home>WireGuard>1>>>1>5<work>OpenVPN>2>me>pw>0>7"

abbrev switched : Text
switched = codes "home>WireGuard>1>>>1>5<work>OpenVPN>2>me>pw>1>7"

abbrev call : Call
call = record {
  service = codes "restart_vpnc";
  arguments = (codes "vpnc_unit", int (pos 1)) ∷ (codes "vpnc_clientlist", text switched) ∷ [];
}

listed_plain : unescaped listed ≡ listed
unfolding unescaped
listed_plain = refl

listed-IsRow : All (IsRow no_floats) (split row_delimiter listed)
unfolding split read_client_row
listed-IsRow = (λ u. (_, refl), (λ u. (_, refl), tt))

set_state_other-listed :
    set_state_other openvpn_on (some (pos 2)) (some (read_clients no_floats listed)) (some listed)
    ≡ some (calls call)
unfolding set_state_other read_clients unescaped read_client_row insert ClientNumber-discrete
    ℤ-discrete ℕ_discrete
set_state_other-listed = refl

set_state_other-IsChosen_example : IsChosen no_floats openvpn connecting (pos 2) listed call
set_state_other-IsChosen_example =
    set_state_other-IsChosen no_floats openvpn_on openvpn connecting (pos 2) listed call
      listed_plain listed-IsRow refl set_state_other-listed

abbrev start_third : Call
start_third = record {
  service = codes "start_vpnclient3";
  arguments = (codes "id", int (pos 3)) ∷ [];
}

set_state_openvpn-three : set_state_openvpn client on (int (pos 3)) none ≡ some (calls start_third)
unfolding set_state_openvpn numbered
set_state_openvpn-three = refl

set_state_openvpn-IsFixed_example : IsFixed openvpn_services (calls start_third)
set_state_openvpn-IsFixed_example =
    set_state_openvpn-IsFixed client on (int (pos 3)) none (calls start_third)
      set_state_openvpn-three

set_state_wireguard-IsFixed_example :
    IsFixed wireguard_services (set_state_wireguard server off (int (pos 2)))
set_state_wireguard-IsFixed_example = set_state_wireguard-IsFixed server off (int (pos 2))
