-- ===== src/Examples/State.antt =====
-- The states of asusrouter/modules/state.py, and the sources of data, at concrete inputs.
use asusrouter.Base.{ℕ, ◌<◌, ◌≡◌, ◌≢◌, refl, Bool, true, false, none, some, [], ◌∷◌, arith}
use asusrouter.Base.Int.{pos}
use asusrouter.Base.Dict.{Dict, lookup}
use asusrouter.Tools.Converters.{int}
use asusrouter.Endpoint.{Endpoint, devicemap, vpn}
use asusrouter.Data.{AsusData, AsusData-discrete, DataState, data_key, new_state}
use asusrouter.Data.Fetch.{Store, cached_in}
use asusrouter.Data.Sources.{
  default_map, endpoint_key, still_searching, where_to_get_data, add_conditional_data_alias,
}
use asusrouter.Data.Sources.Termination.{
  rank_of, default_map-IsRanked, where_to_get_data-ends, where_to_get_data-forever,
}
use asusrouter.State.{AsusState-discrete, block_all, DataContent, default_states, get_datatype}
use asusrouter.State.Ended.{set_done}
use asusrouter.State.Stale.{set_done-stale}

-- The parental control, stale since a write.
abbrev stale : DataState DataContent
stale = record (new_state 0) { invalidated = true; generation = 1 }

abbrev known : Store DataContent
known = (AsusData.parental_control, stale) ∷ []

block_all_data : get_datatype block_all default_states ≡ some AsusData.parental_control
unfolding get_datatype lookup AsusState-discrete
block_all_data = refl

lookup-known : lookup AsusData.parental_control known ≡ some stale
unfolding lookup AsusData-discrete
lookup-known = refl

abbrev no_refresh : Store DataContent → Store DataContent
no_refresh store = store

set_done-stale_example :
    (new : Store DataContent) × (set_done 0 9 no_refresh true block_all
        (int (pos 1))
        default_states
        known
        (record { needed_time = none; last_id = none })
      ≡ some (new, record { needed_time = none; last_id = none }))
    × ((is_true : DataContent → Bool) (cache_time later : ℕ) (force : Bool)
        → cached_in is_true cache_time later force (lookup AsusData.parental_control new) ≡ false)
set_done-stale_example =
    set_done-stale 0 9 no_refresh block_all (int (pos 1)) default_states known none
      AsusData.parental_control stale block_all_data refl lookup-known refl

abbrev endpoints : Dict Endpoint Bool
endpoints = (vpn, false) ∷ (devicemap, true) ∷ []

client_rank : rank_of (lookup AsusData.openvpn_client default_map) < 2
unfolding lookup AsusData-discrete
client_rank = omega arith

where_to_get_data-ends_example :
    where_to_get_data 2 (some endpoints) AsusData.openvpn_client default_map ≢ still_searching
where_to_get_data-ends_example =
    where_to_get_data-ends (λ key. rank_of (lookup key default_map)) default_map 2 (some endpoints)
      AsusData.openvpn_client default_map-IsRanked client_rank

where_to_get_data-forever_example :
    where_to_get_data 40 (some endpoints) AsusData.cpu (
      add_conditional_data_alias AsusData.ram AsusData.cpu
        (add_conditional_data_alias AsusData.cpu AsusData.ram default_map))
    ≡ still_searching
where_to_get_data-forever_example =
    where_to_get_data-forever AsusData.cpu AsusData.ram default_map endpoints 40
      (λ e. absurd (ground (arith, e)))
