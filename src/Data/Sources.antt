-- ===== src/Data/Sources.antt =====
-- asusrouter/modules/data_finder.py, and `_where_to_get_data` of asusrouter/asusrouter.py: the map from
-- kinds of data to endpoints. The arguments of a finder that only shape its request are left out.
pub mod Termination
use asusrouter.Base.{
  ℕ, zero, suc, Bool, true, false, Option, none, some, List, [], ◌∷◌, if◌then◌else◌,
}
use asusrouter.Base.Dict.{Key, Dict, lookup, insert, erase}
use asusrouter.Endpoint.{
  Endpoint, devicemap, ethernet_ports, firmware, firmware_note, firmware_note_aimesh, hook, network,
  onboarding, port_status, sysinfo, temperature, update_clients, vpn,
}
use asusrouter.Data.{AsusData, data_key}

-- `AsusDataMerge`
pub data Merge : Type 0 where
  all any : Merge

-- `AsusDataFinder`
pub record Finder : Type 0 where
  pub endpoints : List Endpoint
  pub merge : Merge

-- What a kind of data is mapped to: another kind or a finder.
pub data Source : Type 0 where
  alias : AsusData → Source
  finder : Finder → Source

abbrev pub DataMap : Type 0
DataMap = Dict AsusData Source

-- `AsusDataFinder(endpoint)` and `AsusDataFinder([...])`
abbrev pub at : Endpoint → Source
at e = finder (record { endpoints = e ∷ []; merge = any })

abbrev pub at_any : Endpoint → Endpoint → Source
at_any e f = finder (record { endpoints = e ∷ f ∷ []; merge = any })

-- `ASUSDATA_MAP`
abbrev pub default_map : DataMap
default_map =
    (AsusData.aimesh, at onboarding)
    ∷ (AsusData.aura, at hook)
    ∷ (AsusData.boottime, alias AsusData.devicemap)
    ∷ (
      AsusData.clients,
      finder (record { endpoints = onboarding ∷ update_clients ∷ []; merge = all }),
    )
    ∷ (AsusData.cpu, at hook)
    ∷ (AsusData.ddns, at hook)
    ∷ (AsusData.devicemap, at devicemap)
    ∷ (AsusData.firmware, at firmware)
    ∷ (AsusData.firmware_note, at_any firmware_note firmware_note_aimesh)
    ∷ (AsusData.gwlan, at hook)
    ∷ (AsusData.led, at hook)
    ∷ (AsusData.network, alias AsusData.cpu)
    ∷ (AsusData.node_info, at port_status)
    ∷ (AsusData.openvpn, at_any vpn devicemap)
    ∷ (AsusData.openvpn_client, alias AsusData.openvpn)
    ∷ (AsusData.openvpn_server, alias AsusData.openvpn)
    ∷ (AsusData.parental_control, at hook)
    ∷ (AsusData.ping, at network)
    ∷ (AsusData.port_forwarding, at hook)
    ∷ (AsusData.ports, at_any port_status ethernet_ports)
    ∷ (AsusData.ram, alias AsusData.cpu)
    ∷ (AsusData.speedtest, at hook)
    ∷ (AsusData.speedtest_result, alias AsusData.speedtest)
    ∷ (AsusData.sysinfo, at sysinfo)
    ∷ (AsusData.temperature, at temperature)
    ∷ (AsusData.vpnc, at hook)
    ∷ (AsusData.vpnc_clientlist, alias AsusData.vpnc)
    ∷ (AsusData.wan, at hook)
    ∷ (AsusData.wireguard, alias AsusData.wireguard_server)
    ∷ (AsusData.wireguard_client, alias AsusData.vpnc)
    ∷ (AsusData.wireguard_server, at hook)
    ∷ (AsusData.wlan, at hook)
    ∷ (AsusData.dsl, at hook)
    ∷ []

-- `add_conditional_data_rule`, `add_conditional_data_alias` and `remove_data_rule`, on a given map.
unfoldable pub add_conditional_data_rule : AsusData → Finder → DataMap → DataMap
add_conditional_data_rule key rule m = insert key (finder rule) m

unfoldable pub add_conditional_data_alias : AsusData → AsusData → DataMap → DataMap
add_conditional_data_alias key origin m = insert key (alias origin) m

unfoldable pub remove_data_rule : AsusData → DataMap → DataMap
remove_data_rule key m = erase key m

-- How the search of a finder ends: with or without one, or not within the fuel.
pub data Search : Type 0 where
  has_finder : Finder → Search
  no_finder still_searching : Search

abbrev pub followed : Option Source → (AsusData → Search) → Search
followed none next = no_finder
followed (some (finder f)) next = has_finder f
followed (some (alias key)) next = next key

-- The loop over aliases: one unit of fuel for each look into the map.
unfoldable pub find : ℕ → AsusData → DataMap → Search
find zero key m = still_searching
find (suc fuel) key m = followed (lookup key m) (λ origin. find fuel origin m)

-- `identity.endpoints.get(endpoint) not in (False, None)`
abbrev pub is_available : Option Bool → Bool
is_available (some true) = true
is_available _ = false

instance abbrev pub endpoint_key : Key Endpoint
endpoint_key = record { same = hlevel }

unfoldable pub available : Dict Endpoint Bool → List Endpoint → List Endpoint
available known [] = []
available known (e ∷ es) =
    let rest = available known es in if is_available (lookup e known) then e ∷ rest else rest

-- Without any known endpoint all are kept.
abbrev pub filtered : Dict Endpoint Bool → Finder → Finder
filtered [] f = f
filtered (known ∷ rest) f = record f { endpoints = available (known ∷ rest) f.endpoints }

abbrev pub filter_found : Dict Endpoint Bool → Search → Search
filter_found known (has_finder f) = has_finder (filtered known f)
filter_found known s = s

-- `_where_to_get_data`, by the endpoints of the identity, if there is one.
unfoldable pub where_to_get_data : ℕ → Option (Dict Endpoint Bool) → AsusData → DataMap → Search
unfolding find
where_to_get_data fuel none key m = no_finder
where_to_get_data fuel (some known) key m = filter_found known (find fuel key m)
