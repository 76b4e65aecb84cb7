-- ===== src/Vpn/Services.antt =====
-- asusrouter/modules/openvpn.py and modules/wireguard.py: the services that switch a client or a server of a
-- router without VPN Fusion. An exception is `none`.
pub mod Fixed
use mathlib.Core.Option.{map as map_option}
use asusrouter.Base.{
  ℕ, Bool, true, false, ◌&&◌, ◌||◌, Option, none, some, List, [], ◌∷◌, ◌++◌, leb, if◌then◌else◌,
}
use asusrouter.Base.Int.{ℤ, pos}
use asusrouter.Base.Decimal.{show_int}
use asusrouter.Base.Text.{Text, codes}
use asusrouter.Tools.Converters.{Value, null, bool, int, text}
use asusrouter.Firmware.{Firmware, stock, no_revision}
use asusrouter.Firmware.Compare.{less}
use asusrouter.Vpn.{Call, VpnEnding, not_set, calls}

-- A client or a server, and whether it is switched on, off, or neither.
pub data Side : Type 0 where
  client server : Side

pub data VpnSwitch : Type 0 where
  on off neither : VpnSwitch

-- The ids from 1 to 5: `OPENVPN_ID_MIN` and `OPENVPN_ID_MAX`, and those of WireGuard.
abbrev pub id_in : Value → Option ℕ
id_in (int (pos n)) = if leb 1 n && leb n 5 then some n else none
id_in _ = none

-- What is known of the device: whether it runs Merlin, and its firmware.
pub record Device : Type 0 where
  pub merlin : Bool
  pub firmware : Firmware

-- `Firmware(major="3.0.0.4", minor=388, build=0)`
abbrev pub fusion_firmware : Firmware
fusion_firmware = record {
  major = some (codes "3.0.0.4");
  minor = some (pos 388);
  build = some (pos 0);
  revision = no_revision;
  source = stock;
  rog = false;
  beta = false;
}

-- Whether the services with an id are used; the comparison may raise.
unfoldable pub has_numbers : Option Device → Option Bool
has_numbers none = some true
has_numbers (some d) = if d.merlin then some true else less d.firmware fusion_firmware

-- `f"{word}{id}"`
unfoldable pub numbered : Text → ℕ → Text
unfolding show_int
numbered word n = word ++ show_int (pos n)

abbrev pub numbered_service : Side → VpnSwitch → ℕ → Option Text
numbered_service client on n = some (numbered (codes "start_vpnclient") n)
numbered_service client off n = some (numbered (codes "stop_vpnclient") n)
numbered_service server on n = some (numbered (codes "start_vpnserver") n)
numbered_service server off n = some (numbered (codes "stop_vpnserver") n)
numbered_service _ neither n = none

abbrev pub fusion_service : Side → VpnSwitch → Option Text
fusion_service server on =
    some (codes "restart_openvpnd;restart_chpass;restart_samba;restart_dnsmasq;")
fusion_service server off = some (codes "stop_openvpnd;restart_samba;restart_dnsmasq;")
fusion_service _ _ = none

abbrev pub enabled_text : Side → VpnSwitch → Text
enabled_text side on = codes "1"
enabled_text side switch = codes "0"

abbrev pub vpn_ended : Option Text → List (Text × Value) → VpnEnding
vpn_ended none arguments = not_set
vpn_ended (some service) arguments = calls (record { service = service; arguments = arguments })

abbrev pub openvpn_call : Side → VpnSwitch → ℕ → Bool → VpnEnding
openvpn_call side switch n true =
    vpn_ended (numbered_service side switch n) ((codes "id", int (pos n)) ∷ [])
openvpn_call side switch n false =
    vpn_ended (fusion_service side switch)
      ((codes "id", int (pos n)) ∷ (codes "VPNServer_enable", text (enabled_text side switch)) ∷ [])

abbrev pub openvpn_with : Side → VpnSwitch → Option Device → Option ℕ → Option VpnEnding
openvpn_with side switch device none = some not_set
openvpn_with side switch device (some n) =
    map_option (openvpn_call side switch n) (has_numbers device)

-- `set_state` of OpenVPN, by the id and the device.
unfoldable pub set_state_openvpn : Side → VpnSwitch → Value → Option Device → Option VpnEnding
unfolding has_numbers
set_state_openvpn side neither id device = some not_set
set_state_openvpn side switch id device = openvpn_with side switch device (id_in id)

-- `_get_arguments` of WireGuard: without an id it is 1.
abbrev pub wireguard_id : Value → Option ℕ
wireguard_id null = some 1
wireguard_id v = id_in v

abbrev pub wireguard_service : Side → VpnSwitch → ℕ → Option Text
wireguard_service client on n = some (numbered (codes "start_wgc ") n)
wireguard_service client off n = some (numbered (codes "stop_wgc ") n)
wireguard_service server on n = some (codes "restart_wgs;restart_dnsmasq")
wireguard_service server off n = some (codes "restart_wgs;restart_dnsmasq")
wireguard_service _ neither n = none

abbrev pub unit_name : Side → Text
unit_name server = codes "wgs"
unit_name client = codes "wgc"

abbrev pub enable_value : VpnSwitch → Value
enable_value on = int (pos 1)
enable_value _ = int (pos 0)

abbrev pub wireguard_with : Side → VpnSwitch → Option ℕ → VpnEnding
wireguard_with side switch none = not_set
wireguard_with side switch (some n) = vpn_ended (wireguard_service side switch n) (
    (codes "id", int (pos n))
    ∷ (unit_name side ++ codes "_enable", enable_value switch)
    ∷ (unit_name side ++ codes "_unit", int (pos n))
    ∷ [])

-- `set_state` of WireGuard.
unfoldable pub set_state_wireguard : Side → VpnSwitch → Value → VpnEnding
unfolding numbered
set_state_wireguard side switch id = wireguard_with side switch (wireguard_id id)
